-- ===== src/Execution/Session/Elements.antt =====
-- The elements that a session of ayatori/src/execution/session.rs stores, from one update to the
-- next.
use ayatori.Prelude.{
  String, Bool-cases, ◌≡◌, ◌⊎◌, refl, List, Option, none, some, arith, inl, inr, ◌∙◌, ap, sym,
  subst,
}
use ayatori.Collections.Order.{Ord}
use ayatori.Entities.Tags.{ScalarTag, MappingTag}
use ayatori.Entities.Errors.{ok_injective, Result, ok, Result-cases, RuntimeError}
use ayatori.Entities.Params.{MessageId, SessionParameters}
use ayatori.Entities.Message.{SignedValue, VerifiedValue, Message}
use ayatori.Entities.Value.{Value, unit_value, downcast_verified}
use ayatori.Flat.Actions.{OnError, collect_evidence, escalate}
use ayatori.Execution.Storage.{get_elem, set_elem, set_scalar}
use ayatori.Execution.Storage.Additions.{set_elem-keeps, set_elem-adds}
use ayatori.Execution.Storage.WriteOnce.{mappings-set_scalar}
use ayatori.Execution.Update.{
  SessionUpdate, no_action_needed, sent_bc, sent_dm, received, computed_scalar,
  computed_mapping_element, preprocessed, runtime_error, spurious_error, sender_error,
  sender_error_with_reveal, third_party_error, message_error, external_ban, merged_scalars,
  collected,
}
use ayatori.Execution.Evidence.{Evidence, EvidenceKind, new_evidence, new_conflicting}
use ayatori.Execution.Session.{
  Session, AddSessionUpdate, add_scalar, add_element, add_message, register_provable_error,
  register_attributable_error, register_banned_party, received_again, try_add_verified_value,
  collect_values, sender_failed, conflict, with_update_inner,
}

module _ {P : SessionParameters} ⦃o : Ord P.Verifier⦄ where
  -- The element that an update carries.
  unfoldable pub writes : SessionUpdate P → Option (MappingTag × P.Verifier × Value P)
  writes (sent_dm store_in destination) = some (MappingTag.sent store_in, destination, unit_value)
  writes (computed_mapping_element store_in index result) = some (store_in, index, result)
  writes (preprocessed store_in source value) = some (store_in, source, value)
  writes _ = none

  -- The later session has the elements of the earlier one and at most this one more.
  abbrev pub Extends : Session P → Session P → Option (MappingTag × P.Verifier × Value P) → Type 0
  Extends s s' written =
      (s'.session_data ≡ s.session_data)
      × ((t : MappingTag) (i : P.Verifier) (w : Value P)
          → get_elem s.storage t i ≡ ok w
          → get_elem s'.storage t i ≡ ok w)
      × ((t : MappingTag) (i : P.Verifier) (w : Value P)
          → get_elem s'.storage t i ≡ ok w
          → (get_elem s.storage t i ≡ ok w) ⊎ (written ≡ some (t, i, w)))

  -- The session of a result that is given.
  abbrev Gives : Result RuntimeError (Session P × AddSessionUpdate) → Session P → Type 0
  Gives r s' = (change : AddSessionUpdate) × (r ≡ ok (s', change))

  same_storage :
      (s s' : Session P) (written : Option (MappingTag × P.Verifier × Value P))
      → s'.session_data ≡ s.session_data
      → s'.storage ≡ s.storage
      → Extends s s' written
  same_storage s s' written d e = (
    d,
    λ t i w h. subst (λ x. get_elem x t i ≡ ok w) (sym e) h,
    λ t i w h. inl (subst (λ x. get_elem x t i ≡ ok w) e h),
  )

  add_scalar-Extends :
      (s s' : Session P) (tag : ScalarTag) (value : Value P)
      → Gives (add_scalar s tag value) s'
      → Extends s s' none
  unfolding add_scalar
  add_scalar-Extends s s' tag value (change, h) =
      elim (Result-cases (set_scalar s.storage tag value).1) [
        | inr (e, stored) ↦ absurd (ground arith)
        | inl (u, stored) ↦
            let kept : s'.storage ≡ (set_scalar s.storage tag value).0 = ground arith in
            let same : (t : MappingTag) (i : P.Verifier)
                → get_elem s'.storage t i ≡ get_elem s.storage t i =
              λ t i. ap (λ x. get_elem x t i) kept ∙ mappings-set_scalar s.storage tag value t i in
            (ground arith, λ t i w g. same t i ∙ g, λ t i w g. inl (sym (same t i) ∙ g))
      ]

  add_element-Extends :
      (s s' : Session P) (tag : MappingTag) (id : P.Verifier) (value : Value P)
      → Gives (add_element s tag id value) s'
      → Extends s s' (some (tag, id, value))
  unfolding add_element
  add_element-Extends s s' tag id value (change, h) =
      elim (Result-cases (set_elem s.storage tag id value).1) [
        | inr (e, stored) ↦ absurd (ground arith)
        | inl (u, stored) ↦
            let kept : s'.storage ≡ (set_elem s.storage tag id value).0 = ground arith in
            (
              ground arith,
              λ t i w g.
                  subst (λ x. get_elem x t i ≡ ok w) (sym kept)
                    (set_elem-keeps s.storage tag t id i value w stored g),
              λ t i w g.
                  set_elem-adds s.storage tag t id i value w
                    (subst (λ x. get_elem x t i ≡ ok w) kept g),
            )
      ]

  given_storage :
      (s s' : Session P) (given : Session P × AddSessionUpdate)
      (written : Option (MappingTag × P.Verifier × Value P))
      → given.0.session_data ≡ s.session_data
      → given.0.storage ≡ s.storage
      → Gives (ok given) s'
      → Extends s s' written
  given_storage s s' given written d e (change, h) =
      let same : given.0 ≡ s' = ap (λ p. p.0) (ok_injective h) in
      same_storage s s' written (ap (λ x. x.session_data) (sym same) ∙ d)
        (ap (λ x. x.storage) (sym same) ∙ e)

  add_message-Extends :
      (s s' : Session P) (id : MessageId) (message : Message P)
      → Gives (ok (add_message s id message)) s'
      → Extends s s' none
  unfolding add_message
  add_message-Extends s s' id message g =
      given_storage s s' (add_message s id message) none refl refl g

  provable-Extends :
      (s s' : Session P) (e : Evidence P) (written : Option (MappingTag × P.Verifier × Value P))
      → Gives (ok (register_provable_error s e)) s'
      → Extends s s' written
  unfolding register_provable_error
  provable-Extends s s' e written g =
      given_storage s s' (register_provable_error s e) written refl refl g

  attributable-Extends :
      (s s' : Session P) (id : P.Verifier) (tag : MappingTag)
      → Gives (ok (register_attributable_error s id tag)) s'
      → Extends s s' none
  unfolding register_attributable_error
  attributable-Extends s s' id tag g =
      given_storage s s' (register_attributable_error s id tag) none refl refl g

  ban-Extends :
      (s s' : Session P) (id : P.Verifier) (reason : String)
      → Gives (ok (register_banned_party s id reason)) s'
      → Extends s s' none
  unfolding register_banned_party
  ban-Extends s s' id reason g =
      given_storage s s' (register_banned_party s id reason) none refl refl g

  sender_failed-Extends :
      (s s' : Session P) (tag : MappingTag) (id : P.Verifier) (on_error : OnError)
      (kind : List (SignedValue P) → EvidenceKind P)
      → Gives (sender_failed s tag id on_error kind) s'
      → Extends s s' none
  unfolding sender_failed
  sender_failed-Extends s s' tag id escalate kind g = attributable-Extends s s' id tag g
  sender_failed-Extends s s' tag id (collect_evidence names) kind (change, h) =
      elim (Result-cases (collect_values s.storage id names)) [
        | inr (e, c) ↦ absurd (ground arith)
        | inl (values, c) ↦
            provable-Extends s s' (new_evidence s.session_data.id id (kind values)) none
              (change, ground arith)
      ]

  received_again-Extends :
      (s s' : Session P) (id : P.Verifier) (v w : VerifiedValue P)
      (written : Option (MappingTag × P.Verifier × Value P))
      → Gives (ok (received_again s id v w)) s'
      → Extends s s' written
  unfolding received_again
  received_again-Extends s s' id v w written g = elim (Bool-cases (conflict v w)) [
    | inl e ↦
        provable-Extends s s'
          (new_evidence s.session_data.id id
            (EvidenceKind.conflicting_messages (new_conflicting v w)))
          written (g.0, ground (arith, g.1))
    | inr e ↦ given_storage s s' (received_again s id v w) written (ground arith) (ground arith) g
  ]

  preprocessed-Extends :
      (s s' : Session P) (tag : MappingTag) (id : P.Verifier) (value : Value P)
      → Gives (try_add_verified_value s tag id value) s'
      → Extends s s' (some (tag, id, value))
  unfolding try_add_verified_value
  preprocessed-Extends s s' tag id value (change, h) =
      elim (Result-cases (get_elem s.storage tag id)) [
        | inr (e, r) ↦ add_element-Extends s s' tag id value (change, ground arith)
        | inl (old, r) ↦ elim (Result-cases (downcast_verified old)) [
          | inr (e, d) ↦ absurd (ground arith)
          | inl (v, d) ↦ elim (Result-cases (downcast_verified value)) [
            | inr (e, f) ↦ absurd (ground arith)
            | inl (w, f) ↦ received_again-Extends s s' id v w _ (change, ground arith)
          ]
        ]
      ]

  -- Whatever the update, a session that takes it keeps its identifier and participants and every
  -- element that it has stored, and stores at most the one element that the update carries.
  pub with_update_inner-Extends :
      (s s' : Session P) (update : SessionUpdate P) (change : AddSessionUpdate)
      → with_update_inner s update ≡ ok (s', change)
      → Extends s s' (writes update)
  unfolding with_update_inner writes
  with_update_inner-Extends s s' no_action_needed c h = given_storage s s' _ none refl refl (c, h)
  with_update_inner-Extends s s' (sent_bc store_in) c h = add_scalar-Extends s s' _ _ (c, h)
  with_update_inner-Extends s s' (sent_dm store_in id) c h = add_element-Extends s s' _ id _ (c, h)
  with_update_inner-Extends s s' (received id message) c h =
      add_message-Extends s s' id message (c, h)
  with_update_inner-Extends s s' (computed_scalar store_in v) c h =
      add_scalar-Extends s s' store_in v (c, h)
  with_update_inner-Extends s s' (computed_mapping_element store_in id v) c h =
      add_element-Extends s s' store_in id v (c, h)
  with_update_inner-Extends s s' (preprocessed store_in id v) c h =
      preprocessed-Extends s s' store_in id v (c, h)
  with_update_inner-Extends s s' (runtime_error e) c h = absurd (ground arith)
  with_update_inner-Extends s s' (spurious_error store_in e) c h =
      given_storage s s' _ none refl refl (c, h)
  with_update_inner-Extends s s' (sender_error store_in id e on_error) c h =
      sender_failed-Extends s s' store_in id on_error _ (c, h)
  with_update_inner-Extends s s' (sender_error_with_reveal store_in id e on_error) c h =
      sender_failed-Extends s s' store_in id on_error _ (c, h)
  with_update_inner-Extends s s' (third_party_error store_in e) c h =
      provable-Extends s s' _ none (c, h)
  with_update_inner-Extends s s' (message_error id description) c h =
      given_storage s s' _ none refl refl (c, h)
  with_update_inner-Extends s s' (external_ban id reason) c h = ban-Extends s s' id reason (c, h)
  with_update_inner-Extends s s' (merged_scalars store_in v) c h =
      add_scalar-Extends s s' _ v (c, h)
  with_update_inner-Extends s s' (collected store_in v) c h =
      add_scalar-Extends s s' store_in v (c, h)
