-- ===== src/Flat/Ruleset/Changes.antt =====
-- Which change of state an update of ayatori/src/flat_representation/ruleset.rs reports.
use ayatori.Prelude.{◌≡◌, ◌≢◌, ◌⊎◌, inl, inr, refl, sym, ap, List-cases, arith, if_pos}
use ayatori.Collections.Order.{Ord}
use ayatori.Entities.Tags.{FullName, FullName_discrete, ScalarTag}
use ayatori.Entities.Params.{SessionParameters}
use ayatori.Flat.Ruleset.{
  Ruleset, not_changed, reached_output, impossible_to_collect, reached, impossible_collects,
  changed_by_collects, update_with_scalar_ready, update_with_banned_party,
}

reached_other :
    (output_tag : FullName) (tag : ScalarTag)
    → ScalarTag.computed output_tag ≢ tag
    → reached output_tag tag ≡ not_changed
unfolding reached
reached_other output_tag (ScalarTag.computed name) n = elim (FullName_discrete name output_tag) [
  | yes p ↦ absurd (n (ap ScalarTag.computed (sym p)))
  | no m ↦ ground (arith, m)
]
reached_other output_tag tag n = refl

module _ {P : SessionParameters} where
  pub change_at_output :
      (r : Ruleset P)
      → (update_with_scalar_ready r (ScalarTag.computed r.output_tag)).1 ≡ reached_output
  unfolding update_with_scalar_ready reached
  change_at_output r =
      if_pos (FullName_discrete r.output_tag r.output_tag) refl reached_output not_changed

  pub no_change_elsewhere :
      (r : Ruleset P) (tag : ScalarTag)
      → ScalarTag.computed r.output_tag ≢ tag
      → (update_with_scalar_ready r tag).1 ≡ not_changed
  unfolding update_with_scalar_ready
  no_change_elsewhere r tag n = reached_other r.output_tag tag n

module _ {P : SessionParameters} ⦃o : Ord P.Verifier⦄ where
  pub change_at_ban :
      (r : Ruleset P) (id : P.Verifier)
      → ((update_with_banned_party r id).1 ≡ not_changed)
        ⊎ ((update_with_banned_party r id).1
            ≡ impossible_to_collect
                (impossible_collects (update_with_banned_party r id).0.collect_rules))
  unfolding update_with_banned_party changed_by_collects
  change_at_ban r id =
      elim (List-cases (impossible_collects (update_with_banned_party r id).0.collect_rules)) [
        | inl e ↦ inl (rw e refl)
        | inr (x, xs, e) ↦ inr (rw e refl)
      ]
