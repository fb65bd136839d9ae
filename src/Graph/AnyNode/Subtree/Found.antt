-- ===== src/Graph/AnyNode/Subtree/Found.antt =====
-- ayatori/src/graph_representation/node_tree.rs: the node that `find_subnode` finds has the tag.
use ayatori.Prelude.{List, [], ◌∷◌, some, ◌≡◌, arith}
use ayatori.Entities.Tags.{AnyTag}
use ayatori.Entities.Params.{SessionParameters}
use ayatori.Graph.AnyNode.{AnyNode, store_in}
use ayatori.Graph.AnyNode.Subtree.{find_stored_in}

module _ {P : SessionParameters} where
  pub find_stored_in_sound :
      (nodes : List (AnyNode P)) (tag : AnyTag) (node : AnyNode P)
      → find_stored_in nodes tag ≡ some node
      → store_in node ≡ tag
  unfolding find_stored_in
  find_stored_in_sound [] tag node h = absurd (ground (arith, h))
  find_stored_in_sound (n ∷ nodes) tag node h =
      ground (arith, find_stored_in_sound nodes tag node, h)
