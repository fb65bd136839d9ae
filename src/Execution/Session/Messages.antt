-- ===== src/Execution/Session/Messages.antt =====
-- Received values in ayatori/src/execution/session.rs: what a session stores of them, and what it
-- does when a value is received twice.
use ayatori.Prelude.{◌≡◌, ◌≢◌, ◌↔◌, refl, true, false, some, arith, inl, inr, ◌∙◌, ap, sym}
use ayatori.Collections.Order.{Ord}
use ayatori.Collections.BTreeMap
use ayatori.Collections.BTreeMap.{get-insert}
use ayatori.Entities.Tags.{FullName, MappingTag}
use ayatori.Entities.Errors.{ok}
use ayatori.Entities.Params.{SessionParameters}
use ayatori.Entities.Message.{VerifiedValue, verify_inner, unverify}
use ayatori.Entities.Message.Signing.{stamp}
use ayatori.Entities.Value.{verified_value, valid, downcast_verified}
use ayatori.Execution.Storage.{get_elem}
use ayatori.Execution.Update.{SessionData, preprocessed}
use ayatori.Execution.Preprocess.{PreprocessMessageTask}
use ayatori.Execution.Preprocess
use ayatori.Execution.Preprocess.Acceptance.{IsAcceptable, execute-cases}
use ayatori.Execution.Evidence.{
  Evidence, EvidenceKind, new_evidence, new_conflicting, verify_conflicting,
}
use ayatori.Execution.Evidence.Conflicts.{verify_conflicting_iff}
use ayatori.Execution.Session.{
  Session, AddSessionUpdate, message_attributable_error, duplicate_messages, conflict,
  received_again, try_add_verified_value, register_provable_error, with_update_inner,
}

module _ {P : SessionParameters} ⦃o : Ord P.Verifier⦄ where
  -- A stored value was received from this party under this name in this session, and its signature is
  -- correct.
  abbrev pub IsAuthentic : SessionData P → FullName → P.Verifier → VerifiedValue P → Type 0
  IsAuthentic session_data name id v =
      (verify_inner (unverify v) ≡ ok tt)
      × (v.source ≡ id)
      × (v.metadata.name ≡ name)
      × (v.metadata.session_id ≡ session_data.id)

  received_again-update :
      (s : Session P) (tag : MappingTag) (id : P.Verifier) (v w : VerifiedValue P)
      → get_elem s.storage tag id ≡ ok (verified_value v)
      → with_update_inner s (preprocessed tag id (verified_value w)) ≡ ok (received_again s id v w)
  unfolding with_update_inner try_add_verified_value downcast_verified
  received_again-update s tag id v w h = rw (h, with_update_inner, try_add_verified_value) refl

  accepted-update :
      (t : PreprocessMessageTask P)
      → IsAcceptable t
      → Preprocess.execute t
        ≡ preprocessed
            (MappingTag.remote_signed t.signed_value.metadata.name)
            t.signed_value.source
            (verified_value (stamp t.signed_value t.message_id))
  accepted-update t a = elim (execute-cases t) [ inl e ↦ e.1 | inr e ↦ absurd (e.0 a) ]

  recorded-provable :
      (s : Session P) (e : Evidence P)
      → BTreeMap.get (register_provable_error s e).0.provable_errors e.guilty_party ≡ some e
  unfolding register_provable_error
  recorded-provable s e =
      ground (arith, get-insert s.provable_errors e.guilty_party e.guilty_party e)

  received_again-conflict :
      (s : Session P) (id : P.Verifier) (v w : VerifiedValue P)
      → conflict v w ≡ true
      → received_again s id v w
        ≡ register_provable_error s (
            new_evidence s.session_data.id id
              (EvidenceKind.conflicting_messages (new_conflicting v w)))
  unfolding received_again
  received_again-conflict s id v w h = ground arith

  conflict-different :
      (v w : VerifiedValue P) → conflict v w ≡ true → v.metadata ≡ w.metadata → v.value ≢ w.value
  unfolding conflict
  conflict-different v w h m q = ground arith

  -- When a value is received under a name and from a sender that a value is stored for, and its
  -- metadata or its bytes differ, the session records evidence against the sender. Those who are
  -- given the evidence accept it exactly when the metadata of the two values are equal.
  pub conflict_is_recorded :
      (s : Session P) (t : PreprocessMessageTask P) (v : VerifiedValue P)
      → t.session_data ≡ s.session_data
      → IsAcceptable t
      → get_elem s.storage
          (MappingTag.remote_signed t.signed_value.metadata.name)
          t.signed_value.source
        ≡ ok (verified_value v)
      → IsAuthentic s.session_data t.signed_value.metadata.name t.signed_value.source v
      → conflict v (stamp t.signed_value t.message_id) ≡ true
      → let e = new_conflicting v (stamp t.signed_value t.message_id) in
        ((s' : Session P) × (change : AddSessionUpdate) × (with_update_inner s
              (Preprocess.execute t)
            ≡ ok (s', change))
          × (BTreeMap.get s'.provable_errors t.signed_value.source
              ≡ some (
                  new_evidence s.session_data.id t.signed_value.source
                    (EvidenceKind.conflicting_messages e))))
        × ((verify_conflicting e s.session_data.id t.signed_value.source ≡ ok valid)
            ↔ (v.metadata ≡ t.signed_value.metadata))
  unfolding new_evidence new_conflicting unverify stamp
  conflict_is_recorded s t v same_session a stored authentic differ = (
    (
      (register_provable_error s evidence).0,
      (register_provable_error s evidence).1,
      ap (with_update_inner s) (accepted-update t a)
          ∙ received_again-update s tag id v w stored
          ∙ ap ok registered,
      recorded-provable s evidence,
    ),
    (
      λ h. ((verify_conflicting_iff _ s.session_data.id id).0 h).2,
      λ m.
          (verify_conflicting_iff _ s.session_data.id id).1
            (sym authentic.1, refl, m, authentic.3, authentic.0, a.3, λ q. different m q),
    ),
  )
    where
      tag : MappingTag
      tag = MappingTag.remote_signed t.signed_value.metadata.name

      id : P.Verifier
      id = t.signed_value.source

      w : VerifiedValue P
      w = stamp t.signed_value t.message_id

      evidence : Evidence P
      evidence =
          new_evidence s.session_data.id id
            (EvidenceKind.conflicting_messages (new_conflicting v w))

      registered : received_again s id v w ≡ register_provable_error s evidence
      registered = received_again-conflict s id v w differ

      different : v.metadata ≡ t.signed_value.metadata → v.value ≢ t.signed_value.value
      different m q = conflict-different v w differ m q

  received_again-duplicate :
      (s : Session P) (id : P.Verifier) (v w : VerifiedValue P)
      → conflict v w ≡ false
      → received_again s id v w
        ≡ (s, message_attributable_error (duplicate_messages v.message_id v.message_id))
  unfolding received_again
  received_again-duplicate s id v w h = ground arith

  -- When the same value is received again, with equal metadata and bytes, the session stays as it is
  -- and reports the duplicate, and both of the identifiers that it reports are that of the message
  -- that came first.
  pub duplicate_is_reported :
      (s : Session P) (t : PreprocessMessageTask P) (v : VerifiedValue P)
      → IsAcceptable t
      → get_elem s.storage
          (MappingTag.remote_signed t.signed_value.metadata.name)
          t.signed_value.source
        ≡ ok (verified_value v)
      → conflict v (stamp t.signed_value t.message_id) ≡ false
      → with_update_inner s (Preprocess.execute t)
        ≡ ok (s, message_attributable_error (duplicate_messages v.message_id v.message_id))
  duplicate_is_reported s t v a stored equal =
      ap (with_update_inner s) (accepted-update t a)
      ∙ received_again-update s _ t.signed_value.source v (stamp t.signed_value t.message_id) stored
      ∙ ap ok (received_again-duplicate s t.signed_value.source v _ equal)
