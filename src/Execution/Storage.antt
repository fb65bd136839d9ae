-- ===== src/Execution/Storage.antt =====
-- ayatori/src/execution/storage.rs: the values that a session has computed or received.
pub mod WriteOnce
pub mod Additions
use ayatori.Prelude.{String, List, [], ◌∷◌, Option, none, some}
use ayatori.Collections.Order.{Ord}
use ayatori.Collections.BTreeSet.{BTreeSet}
use ayatori.Collections.BTreeMap
use ayatori.Collections.BTreeMap.{BTreeMap, get_or}
use ayatori.Entities.Tags.{
  ScalarTag, MappingTag, AnyTag, scalar, mapping, scalar_tag_ord, mapping_tag_ord,
}
use ayatori.Entities.Errors.{
  Result, ok, err, ◌>>=◌, RuntimeError, scalar_not_found, scalar_already_stored, mapping_not_found,
  element_not_found, element_already_stored, neither_found,
}
use ayatori.Entities.Params.{SessionParameters}
use ayatori.Entities.Value.{
  Value, collected_values, merged_left, merged_right, merged_both, from_map,
}

pub record Storage (P : SessionParameters) : Type 0 where
  pub scalars : BTreeMap ScalarTag (Value P)
  pub mappings : BTreeMap MappingTag (BTreeMap P.Verifier (Value P))

unfoldable pub new : {P : SessionParameters} → Storage P
new = record { scalars = []; mappings = [] }

unfoldable pub ok_or : {A : Type 0} → RuntimeError → Option A → Result RuntimeError A
ok_or e none = err e
ok_or e (some a) = ok a

-- What `BTreeMap::insert` returns is the value that was there.
unfoldable pub stored_once : {A : Type 0} → RuntimeError → Option A → Result RuntimeError (Unit {0})
stored_once e none = ok tt
stored_once e (some a) = err e

module _ {P : SessionParameters} where
  unfoldable pub get_scalar : Storage P → ScalarTag → Result RuntimeError (Value P)
  unfolding ok_or
  get_scalar s tag = ok_or (scalar_not_found tag) (BTreeMap.get s.scalars tag)

  -- The old value is lost when there is one, and the error reported.
  pub set_scalar : Storage P → ScalarTag → Value P → Storage P × Result RuntimeError (Unit {0})
  unfolding stored_once
  set_scalar s tag value = (
    record s { scalars = BTreeMap.insert s.scalars tag value },
    stored_once (scalar_already_stored tag) (BTreeMap.get s.scalars tag),
  )

  unfoldable pub get_mapping :
      Storage P → MappingTag → Result RuntimeError (BTreeMap P.Verifier (Value P))
  unfolding ok_or
  get_mapping s tag = ok_or (mapping_not_found tag) (BTreeMap.get s.mappings tag)

  one_or_both :
      ScalarTag → ScalarTag → Option (Value P) → Option (Value P) → Result RuntimeError (Value P)
  one_or_both left right none none = err (neither_found left right)
  one_or_both left right (some l) none = ok (merged_left l)
  one_or_both left right none (some r) = ok (merged_right r)
  one_or_both left right (some l) (some r) = ok (merged_both l r)

  pub get_one_or_both_as_value : Storage P → ScalarTag → ScalarTag → Result RuntimeError (Value P)
  unfolding one_or_both
  get_one_or_both_as_value s left right =
      one_or_both left right (BTreeMap.get s.scalars left) (BTreeMap.get s.scalars right)

  pub get_scalar_args :
      Storage P → BTreeMap String ScalarTag → Result RuntimeError (BTreeMap String (Value P))
  get_scalar_args s [] = ok []
  get_scalar_args s ((name, tag) ∷ tags) =
      let rest = get_scalar_args s tags in
      do value ← get_scalar s tag; values ← rest; ok ((name, value) ∷ values)

module _ {P : SessionParameters} ⦃o : Ord P.Verifier⦄ where
  filtered :
      MappingTag
      → BTreeMap P.Verifier (Value P)
      → List P.Verifier
      → Result RuntimeError (BTreeMap P.Verifier (Value P))
  filtered tag dict [] = ok []
  filtered tag dict (id ∷ ids) =
      let rest = filtered tag dict ids in
      do
        value ← ok_or (element_not_found tag) (BTreeMap.get dict id)
        values ← rest
        ok ((id, value) ∷ values)

  pub get_mapping_as_value :
      Storage P → MappingTag → BTreeSet P.Verifier → Result RuntimeError (Value P)
  unfolding filtered
  get_mapping_as_value s tag indices = do
    dict ← get_mapping s tag
    values ← filtered tag dict indices
    ok (collected_values (from_map values))

  unfoldable pub get_elem : Storage P → MappingTag → P.Verifier → Result RuntimeError (Value P)
  unfolding ok_or
  get_elem s tag id = do
    dict ← get_mapping s tag
    ok_or (element_not_found tag) (BTreeMap.get dict id)

  -- `entry(tag).or_default()`, and the insertion into what is there.
  unfoldable pub set_elem :
      Storage P → MappingTag → P.Verifier → Value P → Storage P × Result RuntimeError (Unit {0})
  unfolding stored_once
  set_elem s tag id value =
      let dict = get_or s.mappings tag [] in
      (
        record s { mappings = BTreeMap.insert s.mappings tag (BTreeMap.insert dict id value) },
        stored_once (element_already_stored tag) (BTreeMap.get dict id),
      )

  pub get_scalar_or_mapping : Storage P → P.Verifier → AnyTag → Result RuntimeError (Value P)
  get_scalar_or_mapping s index (scalar tag) = get_scalar s tag
  get_scalar_or_mapping s index (mapping tag) = get_elem s tag index

  pub get_scalar_or_mapping_args :
      Storage P
      → P.Verifier
      → BTreeMap String AnyTag
      → Result RuntimeError (BTreeMap String (Value P))
  get_scalar_or_mapping_args s index [] = ok []
  get_scalar_or_mapping_args s index ((name, tag) ∷ tags) =
      let rest = get_scalar_or_mapping_args s index tags in
      do value ← get_scalar_or_mapping s index tag; values ← rest; ok ((name, value) ∷ values)
