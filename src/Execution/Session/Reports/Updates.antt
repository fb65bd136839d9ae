-- ===== src/Execution/Session/Reports/Updates.antt =====
-- That each update of a session in ayatori/src/execution/session.rs reports the change of state that is due.
use ayatori.Prelude.{String, ◌≡◌, refl, sym, ap, inl, inr, arith, List, Bool-cases}
use ayatori.Collections.Order.{Ord}
use ayatori.Entities.Tags.{ScalarTag, MappingTag}
use ayatori.Entities.Errors.{ok, Result-cases}
use ayatori.Entities.Params.{SessionParameters}
use ayatori.Entities.Message.{SignedValue, VerifiedValue}
use ayatori.Entities.Value.{Value, downcast_verified}
use ayatori.Flat.Actions.{OnError, collect_evidence, escalate}
use ayatori.Flat.Ruleset.{impossible_collects, update_with_banned_party, update_with_element_ready}
use ayatori.Flat.Ruleset.Changes.{change_at_ban}
use ayatori.Execution.Storage.{Storage, get_scalar, get_elem, set_elem}
use ayatori.Execution.Update.{
  SessionUpdate, no_action_needed, sent_bc, sent_dm, received, computed_scalar,
  computed_mapping_element, preprocessed, runtime_error, spurious_error, sender_error,
  sender_error_with_reveal, third_party_error, message_error, external_ban, merged_scalars,
  collected,
}
use ayatori.Execution.Evidence.{Evidence, EvidenceKind, new_evidence, new_conflicting}
use ayatori.Execution.Session.{
  Session, AddSessionUpdate, state_did_not_change, message_attributable_error, invalid_message,
  duplicate_messages, from_state_change, add_element, add_message, register_provable_error,
  register_attributable_error, register_banned_party, received_again, try_add_verified_value,
  collect_values, sender_failed, conflict, with_update_inner,
}
use ayatori.Execution.Session.Reports.Outcomes.{IsDue, IsDueAfter, given-IsDue, add_scalar-IsDue}

module _ {P : SessionParameters} ⦃o : Ord P.Verifier⦄ where
  get_scalar-set_elem :
      (s : Storage P) (tag : MappingTag) (id : P.Verifier) (value : Value P) (t : ScalarTag)
      → get_scalar (set_elem s tag id value).0 t ≡ get_scalar s t
  unfolding set_elem get_scalar
  get_scalar-set_elem s tag id value t = refl

  add_element-IsDue :
      (s : Session P) (update : SessionUpdate P) (tag : MappingTag) (id : P.Verifier)
      (value : Value P)
      → IsDueAfter s update (add_element s tag id value)
  unfolding add_element IsDueAfter IsDue
  add_element-IsDue s update tag id value s' change h =
      elim (Result-cases (set_elem s.storage tag id value).1) [
        | inr (e, stored) ↦ absurd (ground arith)
        | inl (u, stored) ↦
            given-IsDue s update
              (
                record s {
                  rules = update_with_element_ready s.rules tag id;
                  storage = (set_elem s.storage tag id value).0;
                },
                state_did_not_change,
              )
              (get_scalar-set_elem s.storage tag id value (ScalarTag.computed s.rules.output_tag))
              s' change (rw stored at h)
      ]

  -- The session after a party is banned, and the change that its rules report.
  banned-IsDue :
      (s s' : Session P) (update : SessionUpdate P) (id : P.Verifier)
      → s'.rules ≡ (update_with_banned_party s.rules id).0
      → s'.storage ≡ s.storage
      → IsDue s update s' (from_state_change (update_with_banned_party s.rules id).1)
  unfolding IsDue from_state_change
  banned-IsDue s s' update id banned kept =
      let same = ap (λ x. get_scalar x (ScalarTag.computed s.rules.output_tag)) kept in
      elim (change_at_ban s.rules id) [
        | inl e ↦ rw e same
        | inr e ↦ rw e (ap (λ r. impossible_collects r.collect_rules) (sym banned), same)
      ]

  provable-IsDue :
      (s : Session P) (update : SessionUpdate P) (e : Evidence P)
      → IsDueAfter s update (ok (register_provable_error s e))
  unfolding register_provable_error
  provable-IsDue s update e =
      given-IsDue s update (register_provable_error s e)
        (banned-IsDue s _ update e.guilty_party refl refl)

  attributable-IsDue :
      (s : Session P) (update : SessionUpdate P) (id : P.Verifier) (tag : MappingTag)
      → IsDueAfter s update (ok (register_attributable_error s id tag))
  unfolding register_attributable_error
  attributable-IsDue s update id tag =
      given-IsDue s update (register_attributable_error s id tag)
        (banned-IsDue s _ update id refl refl)

  ban-IsDue :
      (s : Session P) (update : SessionUpdate P) (id : P.Verifier) (reason : String)
      → IsDueAfter s update (ok (register_banned_party s id reason))
  unfolding register_banned_party
  ban-IsDue s update id reason =
      given-IsDue s update (register_banned_party s id reason)
        (banned-IsDue s _ update id refl refl)

  sender_failed-IsDue :
      (s : Session P) (update : SessionUpdate P) (tag : MappingTag) (id : P.Verifier)
      (on_error : OnError) (kind : List (SignedValue P) → EvidenceKind P)
      → IsDueAfter s update (sender_failed s tag id on_error kind)
  unfolding sender_failed IsDueAfter
  sender_failed-IsDue s update tag id escalate kind s' change h =
      attributable-IsDue s update id tag s' change h
  sender_failed-IsDue s update tag id (collect_evidence names) kind s' change h =
      elim (Result-cases (collect_values s.storage id names)) [
        | inr (e, c) ↦ absurd (ground arith)
        | inl (values, c) ↦
            provable-IsDue s update (new_evidence s.session_data.id id (kind values)) s' change
              (ground arith)
      ]

  received_again-IsDue :
      (s : Session P) (update : SessionUpdate P) (id : P.Verifier) (v w : VerifiedValue P)
      → IsDueAfter s update (ok (received_again s id v w))
  unfolding received_again IsDueAfter IsDue
  received_again-IsDue s update id v w s' change h = elim (Bool-cases (conflict v w)) [
    | inl e ↦
        provable-IsDue s update
          (new_evidence s.session_data.id id
            (EvidenceKind.conflicting_messages (new_conflicting v w)))
          s' change (rw e at h)
    | inr e ↦
        given-IsDue s update
          (s, message_attributable_error (duplicate_messages v.message_id v.message_id)) refl s'
          change (rw e at h)
  ]

  preprocessed-IsDue :
      (s : Session P) (update : SessionUpdate P) (tag : MappingTag) (id : P.Verifier)
      (value : Value P)
      → IsDueAfter s update (try_add_verified_value s tag id value)
  unfolding try_add_verified_value IsDueAfter
  preprocessed-IsDue s update tag id value s' change h =
      elim (Result-cases (get_elem s.storage tag id)) [
        | inr (e, r) ↦ add_element-IsDue s update tag id value s' change (ground arith)
        | inl (old, r) ↦ elim (Result-cases (downcast_verified old)) [
          | inr (e, d) ↦ absurd (ground arith)
          | inl (v, d) ↦ elim (Result-cases (downcast_verified value)) [
            | inr (e, f) ↦ absurd (ground arith)
            | inl (w, f) ↦ received_again-IsDue s update id v w s' change (ground arith)
          ]
        ]
      ]

  pub with_update_inner-IsDue :
      (s : Session P) (update : SessionUpdate P) (s' : Session P) (change : AddSessionUpdate)
      → with_update_inner s update ≡ ok (s', change)
      → IsDue s update s' change
  unfolding with_update_inner IsDue IsDueAfter add_message
  with_update_inner-IsDue s no_action_needed s' c h = given-IsDue s _ _ refl s' c h
  with_update_inner-IsDue s (sent_bc store_in) s' c h = add_scalar-IsDue s _ _ _ s' c h
  with_update_inner-IsDue s (sent_dm store_in id) s' c h = add_element-IsDue s _ _ id _ s' c h
  with_update_inner-IsDue s (received id message) s' c h =
      given-IsDue s (received id message) (add_message s id message) refl s' c h
  with_update_inner-IsDue s (computed_scalar store_in v) s' c h =
      add_scalar-IsDue s _ store_in v s' c h
  with_update_inner-IsDue s (computed_mapping_element store_in id v) s' c h =
      add_element-IsDue s _ store_in id v s' c h
  with_update_inner-IsDue s (preprocessed store_in id v) s' c h =
      preprocessed-IsDue s _ store_in id v s' c h
  with_update_inner-IsDue s (runtime_error e) s' c h = absurd (ground arith)
  with_update_inner-IsDue s (spurious_error store_in e) s' c h =
      given-IsDue s (spurious_error store_in e) (s, AddSessionUpdate.spurious_error store_in e)
        (refl, refl) s' c h
  with_update_inner-IsDue s (sender_error store_in id e on_error) s' c h =
      sender_failed-IsDue s _ store_in id on_error _ s' c h
  with_update_inner-IsDue s (sender_error_with_reveal store_in id e on_error) s' c h =
      sender_failed-IsDue s _ store_in id on_error _ s' c h
  with_update_inner-IsDue s (third_party_error store_in e) s' c h = provable-IsDue s _ _ s' c h
  with_update_inner-IsDue s (message_error id description) s' c h =
      given-IsDue s (message_error id description)
        (s, message_attributable_error (invalid_message id description)) refl s' c h
  with_update_inner-IsDue s (external_ban id reason) s' c h = ban-IsDue s _ id reason s' c h
  with_update_inner-IsDue s (merged_scalars store_in v) s' c h = add_scalar-IsDue s _ _ v s' c h
  with_update_inner-IsDue s (collected store_in v) s' c h = add_scalar-IsDue s _ store_in v s' c h
