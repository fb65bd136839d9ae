-- ===== src/Execution/Storage/Additions.antt =====
-- ayatori/src/execution/storage.rs: setting an element keeps the stored elements and adds no other than
-- that one.
use ayatori.Prelude.{◌≡◌, ◌⊎◌, Option, some, false, arith, inl, inr, ◌∙◌, sym, subst}
use ayatori.Collections.Order.{Ord}
use ayatori.Entities.Tags.{MappingTag, MappingTag_discrete}
use ayatori.Entities.Errors.{ok_injective, Result, ok, RuntimeError}
use ayatori.Entities.Params.{SessionParameters}
use ayatori.Entities.Value.{Value}
use ayatori.Execution.Storage.{Storage, get_elem, set_elem}
use ayatori.Execution.Storage.WriteOnce.{is_ok, get_elem-set_elem}

not_read : {A : Type 0} {r : Result RuntimeError A} {a : A} → is_ok r ≡ false → ¬ (r ≡ ok a)
unfolding is_ok
not_read h e = ground arith

same_element :
    {A B C : Type 0} {a a' : A} {b b' : B} {c c' : C}
    → a ≡ a'
    → b ≡ b'
    → c ≡ c'
    → Path (Option (A × B × C)) (some (a, b, c)) (some (a', b', c'))
same_element p q r = cc

module _ {P : SessionParameters} ⦃o : Ord P.Verifier⦄ where
  pub set_elem-keeps :
      (s : Storage P) (tag t : MappingTag) (id i : P.Verifier) (value w : Value P)
      → (set_elem s tag id value).1 ≡ ok tt
      → get_elem s t i ≡ ok w
      → get_elem (set_elem s tag id value).0 t i ≡ ok w
  set_elem-keeps s tag t id i value w stored g =
      let facts = get_elem-set_elem s tag id value in
      let unread = facts.1.0 stored in
      elim (MappingTag_discrete t tag) [
        | no n ↦ (facts.2 t i w (inl n)).1 g
        | yes p ↦ elim (o.dec i id) [
          | no n ↦ (facts.2 t i w (inr n)).1 g
          | yes q ↦ absurd (
              not_read unread
                (subst (λ x. get_elem s x id ≡ ok w) p (subst (λ x. get_elem s t x ≡ ok w) q g)))
        ]
      ]

  pub set_elem-adds :
      (s : Storage P) (tag t : MappingTag) (id i : P.Verifier) (value w : Value P)
      → get_elem (set_elem s tag id value).0 t i ≡ ok w
      → (get_elem s t i ≡ ok w)
        ⊎ Path (Option (MappingTag × P.Verifier × Value P)) (some (tag, id, value)) (some (t, i, w))
  set_elem-adds s tag t id i value w g =
      let facts = get_elem-set_elem s tag id value in
      elim (MappingTag_discrete t tag) [
        | no n ↦ inl ((facts.2 t i w (inl n)).0 g)
        | yes p ↦ elim (o.dec i id) [
          | no n ↦ inl ((facts.2 t i w (inr n)).0 g)
          | yes q ↦ inr (
              same_element (sym p) (sym q) (
                ok_injective (
                  sym facts.0
                  ∙ subst (λ x. get_elem (set_elem s tag id value).0 x id ≡ ok w) p
                      (subst (λ x. get_elem (set_elem s tag id value).0 t x ≡ ok w) q g))))
        ]
      ]
