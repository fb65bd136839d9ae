-- ===== src/Execution/Session/Reports/Outcomes.antt =====
-- What the changes of state in ayatori/src/execution/session.rs tell of a session: whether its output
-- was stored, which collections became impossible, and which errors there were.
use ayatori.Prelude.{◌≡◌, refl, sym, ap, ◌∙◌, subst, inl, inr, arith, false, if_pos, if_neg}
use ayatori.Entities.Tags.{ScalarTag, ScalarTag_discrete}
use ayatori.Entities.Errors.{Result, ok, RuntimeError, ok_injective, Result-cases}
use ayatori.Entities.Params.{SessionParameters}
use ayatori.Entities.Value.{Value}
use ayatori.Flat.Ruleset.{RulesetStateChange, impossible_collects, update_with_scalar_ready}
use ayatori.Flat.Ruleset.Changes.{change_at_output, no_change_elsewhere}
use ayatori.Execution.Storage.{get_scalar, set_scalar}
use ayatori.Execution.Storage.WriteOnce.{is_ok, get_scalar-set_scalar}
use ayatori.Execution.Update.{SessionUpdate, spurious_error}
use ayatori.Execution.Session.{
  Session, AddSessionUpdate, state_did_not_change, reached_output, impossible_to_collect,
  message_attributable_error, from_state_change, add_scalar,
}

module _ {P : SessionParameters} where
  -- What is stored for the output of the first session, in the storage of the second.
  abbrev pub output_in : Session P → Session P → Result RuntimeError (Value P)
  output_in s s' = get_scalar s'.storage (ScalarTag.computed s.rules.output_tag)

  abbrev pub IsOutputKept : Session P → Session P → Type 0
  IsOutputKept s s' = output_in s s' ≡ output_in s s

  -- The output was not stored in the first session, and is in the second.
  abbrev pub IsOutputStored : Session P → Session P → Type 0
  IsOutputStored s s' =
      (is_ok (output_in s s) ≡ false) × (value : Value P) × (output_in s s' ≡ ok value)

  -- What a change of state tells of an update and the sessions before and after it.
  unfoldable pub IsDue : Session P → SessionUpdate P → Session P → AddSessionUpdate → Type 0
  IsDue s update s' state_did_not_change = IsOutputKept s s'
  IsDue s update s' reached_output = IsOutputStored s s'
  IsDue s update s' (impossible_to_collect tags) =
      (tags ≡ impossible_collects s'.rules.collect_rules) × IsOutputKept s s'
  IsDue s update s' (message_attributable_error e) = s' ≡ s
  IsDue s update s' (AddSessionUpdate.spurious_error tag e) =
      (update ≡ spurious_error tag e) × (s' ≡ s)

  unfoldable pub IsDueAfter :
      Session P → SessionUpdate P → Result RuntimeError (Session P × AddSessionUpdate) → Type 0
  IsDueAfter s update r =
      (s' : Session P) (change : AddSessionUpdate) → r ≡ ok (s', change) → IsDue s update s' change

  pub given-IsDue :
      (s : Session P) (update : SessionUpdate P) (given : Session P × AddSessionUpdate)
      → IsDue s update given.0 given.1
      → IsDueAfter s update (ok given)
  unfolding IsDueAfter
  given-IsDue s update given d s' change h = subst (λ g. IsDue s update g.0 g.1) (ok_injective h) d

  -- The session with a scalar stored, and the change that its rules report.
  scalar_stored-IsDue :
      (s s' : Session P) (update : SessionUpdate P) (tag : ScalarTag) (value : Value P)
      → (set_scalar s.storage tag value).1 ≡ ok tt
      → s'.storage ≡ (set_scalar s.storage tag value).0
      → IsDue s update s' (from_state_change (update_with_scalar_ready s.rules tag).1)
  unfolding IsDue from_state_change
  scalar_stored-IsDue s s' update tag value stored kept =
      let output = ScalarTag.computed s.rules.output_tag in
      let facts = get_scalar-set_scalar s.storage tag output value in
      let read = ap (λ x. get_scalar x output) kept ∙ facts.0 in
      elim (ScalarTag_discrete output tag) [
        | no n ↦ rw (no_change_elsewhere s.rules tag n) (
            read
            ∙ if_neg (ScalarTag_discrete output tag) n (ok value) (get_scalar s.storage output))
        | yes p ↦
            let change =
              subst
                (λ t. (update_with_scalar_ready s.rules t).1 ≡ RulesetStateChange.reached_output) p
                (change_at_output s.rules) in
            rw change (
              subst (λ t. is_ok (get_scalar s.storage t) ≡ false) (sym p) (facts.1.0 stored),
              value,
              read
                  ∙ if_pos (ScalarTag_discrete output tag) p (ok value)
                      (get_scalar s.storage output),
            )
      ]

  pub add_scalar-IsDue :
      (s : Session P) (update : SessionUpdate P) (tag : ScalarTag) (value : Value P)
      → IsDueAfter s update (add_scalar s tag value)
  unfolding add_scalar IsDueAfter
  add_scalar-IsDue s update tag value s' change h =
      elim (Result-cases (set_scalar s.storage tag value).1) [
        | inr (e, stored) ↦ absurd (ground arith)
        | inl (u, stored) ↦
            given-IsDue s update
              (
                record s {
                  rules = (update_with_scalar_ready s.rules tag).0;
                  storage = (set_scalar s.storage tag value).0;
                },
                from_state_change (update_with_scalar_ready s.rules tag).1,
              )
              (scalar_stored-IsDue s _ update tag value stored refl) s' change (rw stored at h)
      ]
