-- ===== src/Execution/Preprocess/Acceptance.antt =====
-- Which received values pass the checks of `PreprocessMessageTask` in
-- ayatori/src/execution/task.rs.
use ayatori.Prelude.{◌≡◌, ◌⊎◌, String, true, arith, Bool-cases, inl, inr, ◌∙◌, ap}
use ayatori.Collections.Order.{Ord}
use ayatori.Collections.BTreeSet.{BTreeSet, contains}
use ayatori.Entities.Tags.{MappingTag}
use ayatori.Entities.Errors.{Result, ok}
use ayatori.Entities.Params.{Bytes_discrete, SessionParameters}
use ayatori.Entities.Message.{SignedValue, VerifiedValue, VerificationError, verify_inner, verify}
use ayatori.Entities.Message.Signing.{stamp, verify-cases}
use ayatori.Entities.Value.{verified_value}
use ayatori.Execution.Update.{SessionUpdate, message_error, preprocessed}
use ayatori.Execution.Preprocess.{
  PreprocessMessageTask, destination_is_local, verified_update, execute,
}

module _ {P : SessionParameters} ⦃o : Ord P.Verifier⦄ where
  -- The sender is a participant, the destination a local one where there is one, the session is this
  -- one, and the signature is correct.
  abbrev pub IsAcceptable : PreprocessMessageTask P → Type 0
  IsAcceptable t =
      (contains t.session_data.participants t.signed_value.source ≡ true)
      × (destination_is_local t.session_data.local_participants t.signed_value.metadata.destination
          ≡ true)
      × (t.signed_value.metadata.session_id ≡ t.session_data.id)
      × (verify_inner t.signed_value ≡ ok tt)

  -- A received value that is acceptable is handed on to be stored under its own name and sender, with
  -- the identifier of its message. Any other value is reported as an error of that message, whatever
  -- the check is that it fails.
  pub execute-cases :
      (t : PreprocessMessageTask P)
      → (IsAcceptable t
          × (execute t
              ≡ preprocessed
                  (MappingTag.remote_signed t.signed_value.metadata.name)
                  t.signed_value.source
                  (verified_value (stamp t.signed_value t.message_id))))
        ⊎ ((¬ IsAcceptable t)
            × ((description : String) × (execute t ≡ message_error t.message_id description)))
  unfolding execute verified_update stamp
  execute-cases t = elim (Bool-cases (contains t.session_data.participants s.source)) [
    | inr e ↦
        inr (λ h. ground (arith, h.0), ("A sender is not one of the participants", ground arith))
    | inl e ↦ elim (Bool-cases (destination_is_local locals s.metadata.destination)) [
      | inr f ↦ inr (
        λ h. ground (arith, h.1),
        ("A destination is not one of the local participants", ground arith),
      )
      | inl f ↦ elim (Bytes_discrete s.metadata.session_id t.session_data.id) [
        | no n ↦ inr (λ h. n h.2, ("Invalid session ID", ground arith))
        | yes p ↦ elim (verify-cases s t.message_id) [
          | inl v ↦ inl ((e, f, p, v.0), to_verified e f p ∙ ap update v.1)
          | inr v ↦ inr (
            λ h. ground (arith, h.3, v.0),
            ("Verification error for a message", to_verified e f p ∙ ap update v.1),
          )
        ]
      ]
    ]
  ]
    where
      s : SignedValue P
      s = t.signed_value

      locals : BTreeSet P.Verifier
      locals = t.session_data.local_participants

      update : Result VerificationError (VerifiedValue P) → SessionUpdate P
      update r = verified_update t.message_id s.source r

      to_verified :
          contains t.session_data.participants s.source ≡ true
          → destination_is_local locals s.metadata.destination ≡ true
          → s.metadata.session_id ≡ t.session_data.id
          → execute t ≡ update (verify s t.message_id)
      to_verified e f p = ground arith
