-- ===== src/Execution/Session/Authentic.antt =====
-- The received values that a session of ayatori/src/execution/session.rs has stored are those that
-- their senders signed for it.
use ayatori.Prelude.{◌≡◌, ◌≢◌, ◌⊎◌, some, arith, inl, inr, true, ◌∙◌, ap, sym, subst}
use ayatori.Collections.Order.{Ord}
use ayatori.Entities.Tags.{FullName, MappingTag}
use ayatori.Entities.Errors.{ok}
use ayatori.Entities.Params.{SessionParameters}
use ayatori.Entities.Message.{VerifiedValue, unverify}
use ayatori.Entities.Message.Signing.{stamp}
use ayatori.Entities.Value.{Value, verified_value}
use ayatori.Execution.Storage.{get_elem}
use ayatori.Execution.Update.{
  SessionData, SessionUpdate, no_action_needed, sent_bc, sent_dm, received, computed_scalar,
  computed_mapping_element, preprocessed, runtime_error, spurious_error, sender_error,
  sender_error_with_reveal, third_party_error, message_error, external_ban, merged_scalars,
  collected,
}
use ayatori.Execution.Compute.Internal.{internal, is_own}
use ayatori.Execution.Task.{DeterministicTask, execute}
use ayatori.Execution.Task.Internal.{execute-internal, execute-preprocess_message}
use ayatori.Execution.Preprocess.{PreprocessMessageTask}
use ayatori.Execution.Preprocess
use ayatori.Execution.Preprocess.Acceptance.{execute-cases}
use ayatori.Execution.Session.{Session, AddSessionUpdate, with_update_inner}
use ayatori.Execution.Session.Messages.{IsAuthentic}
use ayatori.Execution.Session.Elements.{writes, with_update_inner-Extends}

module _ {P : SessionParameters} ⦃o : Ord P.Verifier⦄ where
  abbrev pub IsAuthenticValue : SessionData P → FullName → P.Verifier → Value P → Type 0
  IsAuthenticValue session_data name id value =
      (v : VerifiedValue P) × (value ≡ verified_value v) × IsAuthentic session_data name id v

  -- Every value that is stored as a message of a party is authentic.
  abbrev pub StoresAuthentic : Session P → Type 0
  StoresAuthentic s =
      (name : FullName) (id : P.Verifier) (value : Value P)
      → get_elem s.storage (MappingTag.remote_signed name) id ≡ ok value
      → IsAuthenticValue s.session_data name id value

  -- The result of a check of a received value in this session, or an update that carries no message.
  abbrev pub IsGenuine : Session P → SessionUpdate P → Type 0
  IsGenuine s update =
      ((t : PreprocessMessageTask P) × (t.session_data ≡ s.session_data)
        × (Preprocess.execute t ≡ update))
      ⊎ ((name : FullName) (id : P.Verifier) (value : Value P)
          → writes update ≢ some (MappingTag.remote_signed name, id, value))

  -- What the check of a received value hands on to be stored is authentic.
  checked_value :
      (t : PreprocessMessageTask P) (name : FullName) (id : P.Verifier) (value : Value P)
      → writes (Preprocess.execute t) ≡ some (MappingTag.remote_signed name, id, value)
      → IsAuthenticValue t.session_data name id value
  unfolding writes stamp unverify
  checked_value t name id value h = elim (execute-cases t) [
    | inr e ↦ absurd (ground (arith, e.1.1))
    | inl e ↦
        let same = sym (ap writes e.1) ∙ h in
        (
          stamp t.signed_value t.message_id,
          ground arith,
          (e.0.3, ground arith, ground arith, e.0.2),
        )
  ]

  -- When all the messages that a session has stored are authentic, they still are after any update
  -- that is the result of a check of a received value or carries no message.
  pub with_update_inner-StoresAuthentic :
      (s s' : Session P) (update : SessionUpdate P) (change : AddSessionUpdate)
      → IsGenuine s update
      → with_update_inner s update ≡ ok (s', change)
      → StoresAuthentic s
      → StoresAuthentic s'
  with_update_inner-StoresAuthentic s s' update change genuine h authentic name id value g =
      let extends = with_update_inner-Extends s s' update change h in
      elim (extends.2 (MappingTag.remote_signed name) id value g) [
        | inl old ↦
            subst (λ d. IsAuthenticValue d name id value) (sym extends.0)
              (authentic name id value old)
        | inr written ↦ elim genuine [
          | inr n ↦ absurd (n name id value written)
          | inl (t, same_session, executed) ↦
              subst (λ d. IsAuthenticValue d name id value) (same_session ∙ sym extends.0)
                (checked_value t name id value (ap writes executed ∙ written))
        ]
      ]

  own_writes :
      (u : SessionUpdate P) (name : FullName) (id : P.Verifier) (value : Value P)
      → internal u ≡ true
      → writes u ≢ some (MappingTag.remote_signed name, id, value)
  unfolding writes internal is_own
  own_writes no_action_needed name id value h = ground arith
  own_writes (sent_bc n) name id value h = ground arith
  own_writes (sent_dm n i) name id value h = ground arith
  own_writes (received i m) name id value h = ground arith
  own_writes (computed_scalar t v) name id value h = ground arith
  own_writes (preprocessed t i v) name id value h = ground arith
  own_writes (runtime_error e) name id value h = ground arith
  own_writes (spurious_error t e) name id value h = ground arith
  own_writes (sender_error t i e on_error) name id value h = ground arith
  own_writes (sender_error_with_reveal t i e on_error) name id value h = ground arith
  own_writes (third_party_error t e) name id value h = ground arith
  own_writes (message_error i d) name id value h = ground arith
  own_writes (external_ban i reason) name id value h = ground arith
  own_writes (merged_scalars n v) name id value h = ground arith
  own_writes (collected t v) name id value h = ground arith
  own_writes (computed_mapping_element (MappingTag.computed n) i v) name id value h = ground arith
  own_writes (computed_mapping_element (MappingTag.sent n) i v) name id value h = ground arith
  own_writes (computed_mapping_element (MappingTag.received n) i v) name id value h = ground arith
  own_writes (computed_mapping_element (MappingTag.local_signed n) i v) name id value h =
      ground arith
  own_writes (computed_mapping_element (MappingTag.remote_signed n) i v) name id value h =
      ground arith

  -- The update of a task without random bytes keeps all the stored messages authentic, when a check of
  -- a received value among those tasks is one that was made for this session.
  pub execute-StoresAuthentic :
      (s s' : Session P) (task : DeterministicTask P) (change : AddSessionUpdate)
      → ((t : PreprocessMessageTask P)
          → task ≡ DeterministicTask.preprocess_message t
          → t.session_data ≡ s.session_data)
      → with_update_inner s (execute task) ≡ ok (s', change)
      → StoresAuthentic s
      → StoresAuthentic s'
  execute-StoresAuthentic s s' task change ours h =
      with_update_inner-StoresAuthentic s s' (execute task) change genuine h
    where
      genuine : IsGenuine s (execute task)
      genuine = elim (execute-internal task) [
        | inl (t, e) ↦ inl (t, ours t e, sym (ap execute e ∙ execute-preprocess_message t))
        | inr internal_update ↦
            inr (λ name id value. own_writes (execute task) name id value internal_update)
      ]
