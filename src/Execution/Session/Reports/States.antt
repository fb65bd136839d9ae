-- ===== src/Execution/Session/Reports/States.antt =====
-- The states and the report that the user of a session sees, in ayatori/src/execution/session.rs.
use ayatori.Prelude.{◌≡◌, ◌⊎◌, refl, arith, inl, inr, subst, List}
use ayatori.Collections.Order.{Ord}
use ayatori.Entities.Tags.{AnyTag, ScalarTag}
use ayatori.Entities.Errors.{ok, Result-cases, SpuriousError}
use ayatori.Entities.Params.{SessionParameters}
use ayatori.Flat.Ruleset.{impossible_collects}
use ayatori.Execution.Update.{SessionUpdate, spurious_error}
use ayatori.Execution.Session.{
  Session, AddSessionUpdate, state_did_not_change, impossible_to_collect,
  message_attributable_error, with_update_inner,
}
use ayatori.Execution.Session.Reports.{
  SessionState, SessionOutcome, SessionReport, in_progress, in_progress_with_message_error,
  reached_output, unfinishable, make_report, state_of, with_update,
}
use ayatori.Execution.Session.Reports.Outcomes.{IsOutputKept, IsOutputStored}

module _ {P : SessionParameters} (Output : Type 0) where
  -- The session that a state shows or has ended, by its report.
  abbrev pub Shows : SessionState P Output → Session P → Type 0
  Shows (in_progress s) s' = s ≡ s'
  Shows (in_progress_with_message_error s e) s' = s ≡ s'
  Shows (reached_output s) s' = s ≡ s'
  Shows (unfinishable report) s' =
      (outcome : SessionOutcome Output) × (report ≡ make_report s' outcome)

  state_of-Shows : (s : Session P) (change : AddSessionUpdate) → Shows (state_of (s, change)) s
  unfolding state_of
  state_of-Shows s state_did_not_change = refl
  state_of-Shows s AddSessionUpdate.reached_output = refl
  state_of-Shows s (impossible_to_collect tags) = (_, refl)
  state_of-Shows s (message_attributable_error e) = refl
  state_of-Shows s (AddSessionUpdate.spurious_error t e) = (_, refl)

  -- An update that is taken leads to a state that shows the updated session, or to the report of its
  -- errors and bans where the session has ended.
  pub with_update-Shows :
      ⦃o : Ord P.Verifier⦄
      → (s : Session P) (update : SessionUpdate P) (state : SessionState P Output)
      → with_update s update ≡ ok state
      → (s' : Session P) × (change : AddSessionUpdate) × (with_update_inner s update
          ≡ ok (s', change))
        × Shows state s'
  unfolding with_update
  with_update-Shows s update state h = elim (Result-cases (with_update_inner s update)) [
    | inr (e, r) ↦ absurd (ground arith)
    | inl ((s', change), r) ↦
        let e : state_of (s', change) ≡ state = ground arith in
        (s', change, r, subst (λ x. Shows x s') e (state_of-Shows s' change))
  ]

module _ {P : SessionParameters} ⦃o : Ord P.Verifier⦄ (Output : Type 0) where
  -- The report of a session that has ended with an outcome.
  abbrev IsReport : SessionReport P Output → Session P → SessionOutcome Output → Type 0
  IsReport report s outcome =
      (report.outcome ≡ outcome)
      × (report.provable_errors ≡ s.provable_errors)
      × (report.attributable_errors ≡ s.attributable_errors)
      × (report.external_bans ≡ s.external_bans)

  -- What a state tells of the session and the update that it comes from.
  unfoldable pub IsExplained : Session P → SessionUpdate P → SessionState P Output → Type 0
  IsExplained s update (in_progress s') =
      (with_update_inner s update ≡ ok (s', state_did_not_change)) × IsOutputKept s s'
  IsExplained s update (reached_output s') =
      (with_update_inner s update ≡ ok (s', AddSessionUpdate.reached_output)) × IsOutputStored s s'
  IsExplained s update (in_progress_with_message_error s' e) =
      (with_update_inner s update ≡ ok (s', message_attributable_error e)) × (s' ≡ s)
  IsExplained s update (unfinishable report) =
      ((tag : AnyTag) × (e : SpuriousError) × (update ≡ spurious_error tag e)
        × IsReport report s (SessionOutcome.spurious_error tag e))
      ⊎ ((s' : Session P) × (tags : List ScalarTag) × (with_update_inner s update
            ≡ ok (s', impossible_to_collect tags))
          × (tags ≡ impossible_collects s'.rules.collect_rules)
          × IsReport report s' (SessionOutcome.unfinishable tags))
