-- ===== src/Execution/Storage/WriteOnce.antt =====
-- A value in the storage of ayatori/src/execution/storage.rs is written once and stays.
use ayatori.Prelude.{
  ◌≡◌, ◌≢◌, ◌↔◌, ◌⊎◌, refl, Option, none, some, ite, arith, inl, inr, sym, ◌∙◌, ap, [], Bool, true,
  false,
}
use ayatori.Collections.Order.{Ord}
use ayatori.Collections.BTreeMap
use ayatori.Collections.BTreeMap.{BTreeMap, get_or, get-insert}
use ayatori.Entities.Tags.{
  ScalarTag, MappingTag, scalar_tag_ord, mapping_tag_ord, ScalarTag_discrete, MappingTag_discrete,
}
use ayatori.Entities.Errors.{
  Result, ok, err, ◌>>=◌, RuntimeError, mapping_not_found, element_not_found,
  element_already_stored,
}
use ayatori.Entities.Params.{SessionParameters}
use ayatori.Entities.Value.{Value}
use ayatori.Execution.Storage.{
  Storage, ok_or, stored_once, get_scalar, set_scalar, get_mapping, get_elem, set_elem,
}

-- The test that a value was read.
unfoldable pub is_ok : {A : Type 0} → Result RuntimeError A → Bool
is_ok (ok a) = true
is_ok (err e) = false

stored_once_iff :
    {A : Type 0} (e f : RuntimeError) (found : Option A)
    → (stored_once e found ≡ ok tt) ↔ (is_ok (ok_or f found) ≡ false)
unfolding stored_once ok_or is_ok
stored_once_iff e f none = (λ h. refl, λ h. refl)
stored_once_iff e f (some a) = (λ h. absurd (ground arith), λ h. absurd (ground arith))

ok_or_iff :
    {A : Type 0} (f : RuntimeError) (found : Option A) (a : A)
    → (ok_or f found ≡ ok a) ↔ (found ≡ some a)
unfolding ok_or
ok_or_iff f none a = (λ h. absurd (ground arith), λ h. absurd (ground arith))
ok_or_iff f (some b) a = (λ h. ground arith, λ h. ap ok (ground arith))

ok_or-ite :
    {A : Type 0} {C : Type 0} (f : RuntimeError) (d : Dec C) (a : A) (found : Option A)
    → ok_or f (ite d (some a) found) ≡ ite d (ok a) (ok_or f found)
unfolding ok_or
ok_or-ite f (yes p) a found = refl
ok_or-ite f (no p) a found = refl

module _ {P : SessionParameters} where
  -- What is read after a scalar was set: that value under its tag, and under another tag what was
  -- there before. Setting succeeds exactly when the tag had no value.
  pub get_scalar-set_scalar :
      (s : Storage P) (t u : ScalarTag) (v : Value P)
      → (get_scalar (set_scalar s t v).0 u ≡ ite (ScalarTag_discrete u t) (ok v) (get_scalar s u))
        × (((set_scalar s t v).1 ≡ ok tt) ↔ (is_ok (get_scalar s t) ≡ false))
  unfolding get_scalar set_scalar
  get_scalar-set_scalar s t u v = (
    ap (ok_or _) (get-insert s.scalars t u v) ∙ ok_or-ite _ (ScalarTag_discrete u t) _ _,
    stored_once_iff _ _ _,
  )

module _ {P : SessionParameters} ⦃o : Ord P.Verifier⦄ where
  found : Storage P → MappingTag → P.Verifier → Option (Value P)
  found s t i = BTreeMap.get (get_or s.mappings t []) i

  read_iff :
      (e f : RuntimeError) (dict : Option (BTreeMap P.Verifier (Value P))) (i : P.Verifier)
      (v : Value P)
      → ((ok_or e dict >>= λ d. ok_or f (BTreeMap.get d i)) ≡ ok v)
        ↔ (BTreeMap.get (elim dict [ none ↦ [] | some d ↦ d ]) i ≡ some v)
  unfolding ok_or BTreeMap.get
  read_iff e f none i v = (λ h. absurd (ground arith), λ h. absurd (ground arith))
  read_iff e f (some d) i v = ok_or_iff f (BTreeMap.get d i) v

  found_iff :
      (s : Storage P) (t : MappingTag) (i : P.Verifier) (v : Value P)
      → (get_elem s t i ≡ ok v) ↔ (found s t i ≡ some v)
  unfolding get_elem get_mapping found get_or
  found_iff s t i v = read_iff _ _ (BTreeMap.get s.mappings t) i v

  unread_iff :
      (e f : RuntimeError) (dict : Option (BTreeMap P.Verifier (Value P))) (i : P.Verifier)
      → is_ok (ok_or e dict >>= λ d. ok_or f (BTreeMap.get d i))
        ≡ is_ok (ok_or f (BTreeMap.get (elim dict [ none ↦ [] | some d ↦ d ]) i))
  unfolding ok_or is_ok BTreeMap.get
  unread_iff e f none i = refl
  unread_iff e f (some d) i = refl

  set_elem_iff :
      (s : Storage P) (t : MappingTag) (i : P.Verifier) (v : Value P)
      → ((set_elem s t i v).1 ≡ ok tt) ↔ (is_ok (get_elem s t i) ≡ false)
  unfolding set_elem get_elem get_mapping get_or
  set_elem_iff s t i v =
      let e =
        unread_iff (mapping_not_found t) (element_not_found t) (BTreeMap.get s.mappings t) i in
      let r =
        stored_once_iff (element_already_stored t) (element_not_found t)
          (BTreeMap.get (get_or s.mappings t []) i) in
      (λ h. e ∙ r.0 h, λ h. r.1 (sym e ∙ h))

  found-set_elem :
      (s : Storage P) (t u : MappingTag) (i j : P.Verifier) (v : Value P)
      → found (set_elem s t i v).0 u j
        ≡ ite (MappingTag_discrete u t) (ite (o.dec j i) (some v) (found s u j)) (found s u j)
  unfolding found set_elem get_or
  found-set_elem s t u i j v = elim (MappingTag_discrete u t) [
    | yes p ↦ ground (
      arith,
      get-insert s.mappings t u (BTreeMap.insert (get_or s.mappings t []) i v),
      get-insert (get_or s.mappings t []) i j v,
      ap (BTreeMap.get s.mappings) p,
    )
    | no p ↦
        ground (arith, get-insert s.mappings t u (BTreeMap.insert (get_or s.mappings t []) i v))
  ]

  -- What is read after an element was set: that value under its tag and party, and elsewhere the
  -- values that were there before. Setting succeeds exactly when there was no value.
  pub get_elem-set_elem :
      (s : Storage P) (t : MappingTag) (i : P.Verifier) (v : Value P)
      → (get_elem (set_elem s t i v).0 t i ≡ ok v)
        × (((set_elem s t i v).1 ≡ ok tt) ↔ (is_ok (get_elem s t i) ≡ false))
        × ((u : MappingTag) (j : P.Verifier) (w : Value P)
            → (u ≢ t) ⊎ (j ≢ i)
            → (get_elem (set_elem s t i v).0 u j ≡ ok w) ↔ (get_elem s u j ≡ ok w))
  get_elem-set_elem s t i v = (
    (found_iff (set_elem s t i v).0 t i v).1 (ground (arith, found-set_elem s t t i i v)),
    set_elem_iff s t i v,
    λ u j w apart.
        let same : found (set_elem s t i v).0 u j ≡ found s u j = elim apart [
          | inl h ↦ ground (arith, found-set_elem s t u i j v)
          | inr h ↦ ground (arith, found-set_elem s t u i j v)
        ] in
        (
          λ h. (found_iff s u j w).1 (sym same ∙ (found_iff (set_elem s t i v).0 u j w).0 h),
          λ h. (found_iff (set_elem s t i v).0 u j w).1 (same ∙ (found_iff s u j w).0 h),
        ),
  )

  -- An element is read from the mappings alone.
  get_elem-scalars :
      (s : Storage P) (scalars : BTreeMap ScalarTag (Value P)) (t : MappingTag) (i : P.Verifier)
      → get_elem (record s { scalars = scalars }) t i ≡ get_elem s t i
  unfolding get_elem get_mapping
  get_elem-scalars s scalars t i = refl

  pub mappings-set_scalar :
      (s : Storage P) (t : ScalarTag) (v : Value P) (u : MappingTag) (i : P.Verifier)
      → get_elem (set_scalar s t v).0 u i ≡ get_elem s u i
  unfolding set_scalar
  mappings-set_scalar s t v u i = get_elem-scalars s _ u i
