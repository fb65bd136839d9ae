-- ===== src/Execution/Evidence/Termination.antt =====
-- ayatori/src/execution/evidence.rs: the verification of evidence comes to an end, on fuel that is more
-- than the work of the replay.
use ayatori.Prelude.{ℕ, ◌≡◌, refl, ◌<◌, List, none, some}
use ayatori.Collections.Order.{Ord}
use ayatori.Entities.Errors.{Result, ok, err, RuntimeError}
use ayatori.Entities.Params.{Bytes, SessionParameters}
use ayatori.Entities.Message.{SignedValue}
use ayatori.Entities.Value.{EvidenceVerdict}
use ayatori.Graph.Constructors.Call.{ExecutableProtocol}
use ayatori.Execution.Session.{Session}
use ayatori.Execution.Session.Build.{new_with_reproduction_subtree}
use ayatori.Execution.Session.Reproduction.Termination.{
  replay_work, run_evidence_verification_session-total,
}
use ayatori.Execution.Evidence.{
  EvidenceKind, sender_error, sender_error_with_reveal, conflicting_messages, third_party_error,
  Evidence,
}
use ayatori.Execution.Evidence.Verify.{
  replay, verify_sender_error, verify_sender_error_with_reveal, verify_kind, verify,
}

module _ {P : SessionParameters} ⦃o : Ord P.Verifier⦄ (protocol : ExecutableProtocol P) where
  -- The work of the replay in the session, if it could be made.
  work_after : Bytes → Result RuntimeError (Session P) → List (SignedValue P) → ℕ
  work_after message_id (err e) signed_values = 0
  work_after message_id (ok s) signed_values = replay_work message_id s signed_values

  -- The work of the replay of the values that the evidence holds, in the session that is made for it.
  pub verification_work : Bytes → Evidence P → protocol.SharedData → ℕ
  unfolding work_after
  verification_work message_id e shared_data = elim e.kind [
    | sender_error k ↦
        work_after message_id
          (new_with_reproduction_subtree protocol e.session_id k.failed_at k.reported_by
            e.guilty_party shared_data none)
          k.signed_values
    | sender_error_with_reveal k ↦
        work_after message_id
          (new_with_reproduction_subtree protocol e.session_id k.failed_at k.reported_by
            e.guilty_party shared_data (some k.error.associated_data))
          k.signed_values
    | conflicting_messages k ↦ 0
    | third_party_error k ↦ 0
  ]

  replay-total :
      (fuel : ℕ) (message_id : Bytes) (session : Result RuntimeError (Session P))
      (reported_by guilty_party : P.Verifier) (signed_values : List (SignedValue P))
      → work_after message_id session signed_values < fuel
      → (result : Result RuntimeError EvidenceVerdict) × (replay protocol fuel message_id session
            reported_by guilty_party signed_values
          ≡ some result)
  unfolding replay work_after
  replay-total fuel message_id (err e) reported_by guilty_party signed_values h = (err e, refl)
  replay-total fuel message_id (ok session) reported_by guilty_party signed_values h =
      run_evidence_verification_session-total fuel message_id session reported_by guilty_party
        signed_values h

  -- The verification of any evidence, for any protocol, gives a verdict or an error, on more fuel than the
  -- work of its replay: the values to check and the actions pending in the session that is made for it.
  pub verify-total :
      (fuel : ℕ) (message_id : Bytes) (e : Evidence P) (shared_data : protocol.SharedData)
      → verification_work message_id e shared_data < fuel
      → (result : Result RuntimeError EvidenceVerdict) × (verify protocol fuel message_id e
            shared_data
          ≡ some result)
  unfolding verify verify_kind verify_sender_error verify_sender_error_with_reveal verification_work
  verify-total fuel message_id e shared_data = by_kind e.kind
    where
      by_kind :
          (kind : EvidenceKind P)
          → verification_work message_id (record e { kind = kind }) shared_data < fuel
          → (result : Result RuntimeError EvidenceVerdict) × (verify_kind protocol fuel message_id
                kind e.session_id e.guilty_party shared_data
              ≡ some result)
      by_kind (sender_error k) h =
          replay-total fuel message_id
            (new_with_reproduction_subtree protocol e.session_id k.failed_at k.reported_by
              e.guilty_party shared_data none)
            k.reported_by e.guilty_party k.signed_values h
      by_kind (sender_error_with_reveal k) h =
          replay-total fuel message_id
            (new_with_reproduction_subtree protocol e.session_id k.failed_at k.reported_by
              e.guilty_party shared_data (some k.error.associated_data))
            k.reported_by e.guilty_party k.signed_values h
      by_kind (conflicting_messages k) h = (_, refl)
      by_kind (third_party_error k) h = (_, refl)
