-- ===== src/Flat/Ruleset/Groups.antt =====
-- ayatori/src/flat_representation/ruleset.rs: `PropagatedGroups`, the parties that each mapping node is
-- computed for, and what the failure of a node is answered with.
pub mod Known
pub mod Graphs
use ayatori.Prelude.{String, List, [], ◌∷◌, Option, none, some, if◌then◌else◌}
use ayatori.Collections.Order.{Ord, string_ord}
use ayatori.Collections.BTreeSet.{BTreeSet, extend, is_disjoint}
use ayatori.Collections.BTreeMap.{BTreeMap, get_or}
use ayatori.Collections.BTreeMap
use ayatori.Entities.Tags.{MappingTag, mapping_tag_ord, AnyTag, scalar, mapping}
use ayatori.Entities.Errors.{Result, ok, err, ◌>>=◌, RuntimeError, mapping_not_found}
use ayatori.Entities.Params.{SessionParameters}
use ayatori.Graph.AnyNode.{AnyNode, collect, send_all, store_in, all_args}
use ayatori.Graph.AnyNode.Subtree.{Reproducibility, available, not_available, reproducibility}
use ayatori.Graph.AnyNode.Tree.{flattened_roots_first}
use ayatori.Graph.AnyNode.Views.{mapping_tag, sent_dm_tag}
use ayatori.Flat.Actions.{OnError, collect_evidence, escalate}

unfoldable pub answer : Reproducibility → BTreeSet String → OnError
answer (available arguments messages) private_inputs =
    if is_disjoint arguments private_inputs then collect_evidence messages else escalate
answer not_available private_inputs = escalate

unfoldable pub get_on_error : {P : SessionParameters} → AnyNode P → BTreeSet String → OnError
get_on_error node private_inputs = answer (reproducibility node) private_inputs

abbrev pub PropagatedGroups : Type 0 → Type 0
PropagatedGroups Verifier = BTreeMap MappingTag (BTreeSet Verifier)

module _ {Verifier : Type 0} where
  -- A tag that is missing is an error with its name.
  unfoldable pub get :
      PropagatedGroups Verifier → MappingTag → Result RuntimeError (BTreeSet Verifier)
  get groups tag = elim (BTreeMap.get groups tag) [
    | none ↦ err (mapping_not_found tag)
    | some ids ↦ ok ids
  ]

module _ {Verifier : Type 0} ⦃o : Ord Verifier⦄ where
  unfoldable pub insert :
      PropagatedGroups Verifier → MappingTag → BTreeSet Verifier → PropagatedGroups Verifier
  insert groups tag ids = BTreeMap.insert groups tag (extend (get_or groups tag []) ids)

  unfoldable pub insert_any :
      PropagatedGroups Verifier → AnyTag → BTreeSet Verifier → PropagatedGroups Verifier
  insert_any groups (scalar tag) ids = groups
  insert_any groups (mapping tag) ids = insert groups tag ids

module _ {P : SessionParameters} ⦃o : Ord P.Verifier⦄ where
  -- The parties of a mapping node are those of its arguments too.
  unfoldable pub insert_args :
      PropagatedGroups P.Verifier
      → List (AnyNode P)
      → BTreeSet P.Verifier
      → PropagatedGroups P.Verifier
  insert_args groups [] ids = groups
  insert_args groups (node ∷ nodes) ids =
      insert_args (insert_any groups (store_in node) ids) nodes ids

  unfoldable pub propagate :
      PropagatedGroups P.Verifier
      → AnyTag
      → List (AnyNode P)
      → Result RuntimeError (PropagatedGroups P.Verifier)
  propagate groups (scalar tag) args = ok groups
  propagate groups (mapping tag) args = get groups tag >>= λ ids. ok (insert_args groups args ids)

  unfoldable pub add_node :
      PropagatedGroups P.Verifier → AnyNode P → Result RuntimeError (PropagatedGroups P.Verifier)
  add_node groups (collect i tag values group nodes) =
      mapping_tag values >>= λ collected. ok (insert groups collected (group.ids))
  add_node groups (send_all i tag values destinations) =
      sent_dm_tag values >>= λ sent. ok (insert groups (MappingTag.sent sent) destinations)
  add_node groups node = propagate groups (store_in node) (all_args node)

  unfoldable pub add_nodes :
      PropagatedGroups P.Verifier
      → List (AnyNode P)
      → Result RuntimeError (PropagatedGroups P.Verifier)
  add_nodes groups [] = ok groups
  add_nodes groups (node ∷ nodes) = add_node groups node >>= λ next. add_nodes next nodes

  unfoldable pub new : AnyNode P → Result RuntimeError (PropagatedGroups P.Verifier)
  new root = add_nodes [] (flattened_roots_first root)
