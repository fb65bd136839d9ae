-- ===== src/Flat/Ruleset/Progress.antt =====
-- When a ruleset of ayatori/src/flat_representation/ruleset.rs has an action to give.
use ayatori.Prelude.{
  ◌≡◌, refl, Bool, false, List, [], ◌∷◌, Option, none, some, arith, All, ap, Option-cases, inl, inr,
  ◌∙◌, subst,
}
use ayatori.Collections.Order.{Ord}
use ayatori.Entities.Params.{SessionParameters}
use ayatori.Flat.Actions.{Action}
use ayatori.Flat.Rules.Scalar
use ayatori.Flat.Rules.Collect
use ayatori.Flat.Rules.Mapping
use ayatori.Flat.Rules.SendBc
use ayatori.Flat.Rules.SendDm
use ayatori.Flat.Ruleset.{
  Ruleset, extract_first, pop_first, pop_scalar_action, pop_collect_action, pop_mapping_action,
  pop_bc_send_action, pop_dm_send_action, or_else, pop_action,
}

unsatisfied :
    {A : Type 0} (test : A → Bool) (xs : List A)
    → (extract_first test xs).1 ≡ none
    → All (λ x. test x ≡ false) xs
unfolding extract_first
unsatisfied test [] h = tt
unsatisfied test (x ∷ xs) h = (ground arith, unsatisfied test xs (ground arith))

unfired :
    {A B : Type 0} (pop : A → A × Option B) (xs : List A)
    → (pop_first pop xs).1 ≡ none
    → All (λ x. (pop x).1 ≡ none) xs
unfolding pop_first
unfired pop [] h = tt
unfired pop (x ∷ xs) h = elim (Option-cases (pop x).1) [
  | inl e ↦ (e, unfired pop xs (ground arith))
  | inr (b, e) ↦ absurd (ground arith)
]

module _ {P : SessionParameters} ⦃o : Ord P.Verifier⦄ where
  -- No rule of any kind can fire.
  abbrev pub IsIdle : Ruleset P → Type 0
  IsIdle r =
      All (λ rule. Scalar.is_satisfied rule ≡ false) r.scalar_rules
      × All (λ rule. Collect.is_satisfied rule ≡ false) r.collect_rules
      × All (λ rule. (Mapping.pop_satisfied rule).1 ≡ none) r.mapping_rules
      × All (λ rule. SendBc.is_satisfied rule ≡ false) r.send_bc_rules
      × All (λ rule. (SendDm.pop_satisfied rule).1 ≡ none) r.send_dm_rules

  -- An attempt that pops nothing leaves the ruleset, and its list of rules has none to fire.
  scalar_idle :
      (r : Ruleset P)
      → (pop_scalar_action r).1 ≡ none
      → ((pop_scalar_action r).0 ≡ r)
        × All (λ rule. Scalar.is_satisfied rule ≡ false) r.scalar_rules
  unfolding pop_scalar_action
  scalar_idle r h = elim (Option-cases (extract_first Scalar.is_satisfied r.scalar_rules).1) [
    | inl e ↦ (rw (e, pop_scalar_action) refl, unsatisfied Scalar.is_satisfied r.scalar_rules e)
    | inr (rule, e) ↦ absurd (ground arith)
  ]

  collect_idle :
      (r : Ruleset P)
      → (pop_collect_action r).1 ≡ none
      → ((pop_collect_action r).0 ≡ r)
        × All (λ rule. Collect.is_satisfied rule ≡ false) r.collect_rules
  unfolding pop_collect_action
  collect_idle r h = elim (Option-cases (extract_first Collect.is_satisfied r.collect_rules).1) [
    | inl e ↦ (rw (e, pop_collect_action) refl, unsatisfied Collect.is_satisfied r.collect_rules e)
    | inr (rule, e) ↦ absurd (ground arith)
  ]

  mapping_idle :
      (r : Ruleset P)
      → (pop_mapping_action r).1 ≡ none
      → ((pop_mapping_action r).0 ≡ r)
        × All (λ rule. (Mapping.pop_satisfied rule).1 ≡ none) r.mapping_rules
  unfolding pop_mapping_action
  mapping_idle r h = elim (Option-cases (pop_first Mapping.pop_satisfied r.mapping_rules).1) [
    | inl e ↦ (rw (e, pop_mapping_action) refl, unfired Mapping.pop_satisfied r.mapping_rules e)
    | inr (rule, e) ↦ absurd (ground arith)
  ]

  bc_send_idle :
      (r : Ruleset P)
      → (pop_bc_send_action r).1 ≡ none
      → ((pop_bc_send_action r).0 ≡ r)
        × All (λ rule. SendBc.is_satisfied rule ≡ false) r.send_bc_rules
  unfolding pop_bc_send_action
  bc_send_idle r h = elim (Option-cases (extract_first SendBc.is_satisfied r.send_bc_rules).1) [
    | inl e ↦ (rw (e, pop_bc_send_action) refl, unsatisfied SendBc.is_satisfied r.send_bc_rules e)
    | inr (rule, e) ↦ absurd (ground arith)
  ]

  dm_send_idle :
      (r : Ruleset P)
      → (pop_dm_send_action r).1 ≡ none
      → ((pop_dm_send_action r).0 ≡ r)
        × All (λ rule. (SendDm.pop_satisfied rule).1 ≡ none) r.send_dm_rules
  unfolding pop_dm_send_action
  dm_send_idle r h = elim (Option-cases (pop_first SendDm.pop_satisfied r.send_dm_rules).1) [
    | inl e ↦ (rw (e, pop_dm_send_action) refl, unfired SendDm.pop_satisfied r.send_dm_rules e)
    | inr (rule, e) ↦ absurd (ground arith)
  ]

  or_else-none :
      (popped : Ruleset P × Option (Action P)) (attempt : Ruleset P → Ruleset P × Option (Action P))
      → (or_else popped attempt).1 ≡ none
      → (popped.1 ≡ none)
        × ((attempt popped.0).1 ≡ none)
        × (or_else popped attempt ≡ attempt popped.0)
  unfolding or_else
  or_else-none (r, none) attempt h = (refl, h, refl)
  or_else-none (r, some action) attempt h = absurd (ground arith)

  -- A ruleset that gives no action has no rule that can fire.
  pub pop_action-IsIdle : (r : Ruleset P) → (pop_action r).1 ≡ none → IsIdle r
  unfolding pop_action
  pop_action-IsIdle r h =
      let p1 = pop_scalar_action r in
      let p2 = or_else p1 pop_collect_action in
      let p3 = or_else p2 pop_mapping_action in
      let p4 = or_else p3 pop_bc_send_action in
      let s5 = or_else-none p4 pop_dm_send_action h in
      let s4 = or_else-none p3 pop_bc_send_action s5.0 in
      let s3 = or_else-none p2 pop_mapping_action s4.0 in
      let s2 = or_else-none p1 pop_collect_action s3.0 in
      let i1 = scalar_idle r s2.0 in
      let i2 = collect_idle p1.0 s2.1 in
      let i3 = mapping_idle p2.0 s3.1 in
      let i4 = bc_send_idle p3.0 s4.1 in
      let i5 = dm_send_idle p4.0 s5.1 in
      let e2 : p2.0 ≡ r = ap (λ p. p.0) s2.2 ∙ (i2.0 ∙ i1.0) in
      let e3 : p3.0 ≡ r = ap (λ p. p.0) s3.2 ∙ (i3.0 ∙ e2) in
      let e4 : p4.0 ≡ r = ap (λ p. p.0) s4.2 ∙ (i4.0 ∙ e3) in
      (
        i1.1,
        subst (λ q. All (λ rule. Collect.is_satisfied rule ≡ false) q.collect_rules) i1.0 i2.1,
        subst (λ q. All (λ rule. (Mapping.pop_satisfied rule).1 ≡ none) q.mapping_rules) e2 i3.1,
        subst (λ q. All (λ rule. SendBc.is_satisfied rule ≡ false) q.send_bc_rules) e3 i4.1,
        subst (λ q. All (λ rule. (SendDm.pop_satisfied rule).1 ≡ none) q.send_dm_rules) e4 i5.1,
      )
