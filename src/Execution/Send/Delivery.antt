-- ===== src/Execution/Send/Delivery.antt =====
-- What the two forms of a `SendTask` of ayatori/src/execution/task.rs deliver.
use ayatori.Prelude.{
  ◌≡◌, refl, true, false, if◌then◌else◌, List, [], ◌∷◌, ◌++◌, none, some, arith, inl, inr, ap, ◌∙◌,
  sym,
}
use ayatori.Collections.Order.{Ord}
use ayatori.Collections.BTreeSet.{BTreeSet, contains, IsDistinct}
use ayatori.Collections.BTreeMap
use ayatori.Collections.BTreeMap.{BTreeMap, get_or, insert, get-insert}
use ayatori.Entities.Tags.{ScalarTag}
use ayatori.Entities.Errors.{ok, Result-cases, ◌>>=◌}
use ayatori.Entities.Params.{SessionParameters}
use ayatori.Entities.Message.{SignedValue, Message, new_message}
use ayatori.Entities.Value.{signed_value, downcast_signed, downcast_signed-ok}
use ayatori.Flat.Actions.{SendBcAction}
use ayatori.Execution.Storage.{Storage, get_scalar}
use ayatori.Execution.Update.{SessionUpdate, sent_bc}
use ayatori.Execution.Send.{
  SendTask, broadcast_message, into_update, from_send_bc_action, into_messages, push_to_all,
  push_broadcasts, into_dms,
}

module _ {P : SessionParameters} ⦃o : Ord P.Verifier⦄ where
  get-push_to_all :
      (m : BTreeMap P.Verifier (List (SignedValue P))) (ids : BTreeSet P.Verifier)
      (value : SignedValue P) (j : P.Verifier)
      → IsDistinct ids
      → BTreeMap.get (push_to_all m ids value) j
        ≡ (if contains ids j then some (get_or m j [] ++ value ∷ []) else BTreeMap.get m j)
  unfolding push_to_all contains get_or
  get-push_to_all m [] value j d = refl
  get-push_to_all m (id ∷ ids) value j d =
      let pushed = get_or m id [] ++ value ∷ [] in
      let rest = get-push_to_all (insert m id pushed) ids value j d.1 in
      let inserted = get-insert m id j pushed in
      elim (o.dec j id) [
        | yes p ↦ ground (
          arith,
          rest,
          inserted,
          ap (contains ids) p,
          d.0,
          ap (λ i. some (get_or m i [] ++ value ∷ [])) p,
        )
        | no n ↦ ground (arith, rest, inserted)
      ]

  get-into_messages :
      (m : BTreeMap P.Verifier (List (SignedValue P))) (messages : BTreeMap P.Verifier (Message P))
      (j : P.Verifier)
      → into_messages m ≡ ok messages
      → (BTreeMap.get m j ≡ none → BTreeMap.get messages j ≡ none)
        × ((values : List (SignedValue P))
            → BTreeMap.get m j ≡ some values
            → (message : Message P) × (new_message values ≡ ok message)
              × (BTreeMap.get messages j ≡ some message))
  unfolding into_messages BTreeMap.get
  get-into_messages [] messages j h = (λ e. ground arith, λ values e. absurd (ground arith))
  get-into_messages ((id, values) ∷ m) messages j h = elim (Result-cases (new_message values)) [
    | inr (e, f) ↦ absurd (ground arith)
    | inl (message, f) ↦ elim (Result-cases (into_messages m)) [
      | inr (e, g) ↦ absurd (ground arith)
      | inl (others, g) ↦
          let ih = get-into_messages m others j g in
          let made : messages ≡ (id, message) ∷ others = ground arith in
          let at = ap (λ x. BTreeMap.get x j) made in
          elim (o.dec j id) [
            | yes p ↦ (
              λ e. absurd (ground arith),
              λ vs e.
                  let same : values ≡ vs = ground arith in
                  (message, ap new_message (sym same) ∙ f, ground arith),
            )
            | no n ↦ (
              λ e. ground (arith, ih.0 (ground arith)),
              λ vs e.
                  let (sent, made_of, found) = ih.1 vs (ground arith) in
                  (sent, made_of, ground arith),
            )
          ]
    ]
  ]

  -- A broadcast task carries one value, which was stored as signed, for the destinations of its action.
  broadcast_of :
      (s : Storage P) (action : SendBcAction P) (task : SendTask P)
      → from_send_bc_action s action ≡ ok task
      → (v : SignedValue P) × (get_scalar s (ScalarTag.local_signed action.to_send)
          ≡ ok (signed_value v))
        × (task ≡ record {
          kind = broadcast_message action.store_in;
          direct_messages = [];
          broadcast_messages = (action.destinations, v) ∷ [];
        })
  unfolding from_send_bc_action
  broadcast_of s action task h =
      elim (Result-cases (get_scalar s (ScalarTag.local_signed action.to_send))) [
        | inr (e, f) ↦ absurd (ground arith)
        | inl (value, f) ↦ elim (Result-cases (downcast_signed value)) [
          | inr (e, g) ↦ absurd (ground arith)
          | inl (v, g) ↦ (v, f ∙ ap ok (downcast_signed-ok value v g), ground arith)
        ]
      ]

  -- When a broadcast is sent as direct messages, every destination is sent one message with the value
  -- that was signed for it, nobody else is sent any, and the update to be given back to the session is
  -- that the broadcast was sent.
  pub into_dms-from_send_bc_action :
      (s : Storage P) (action : SendBcAction P) (task : SendTask P) (update : SessionUpdate P)
      (dms : BTreeMap P.Verifier (Message P))
      → IsDistinct action.destinations
      → from_send_bc_action s action ≡ ok task
      → into_dms task ≡ ok (update, dms)
      → (update ≡ sent_bc action.store_in)
        × ((j : P.Verifier) → contains action.destinations j ≡ false → BTreeMap.get dms j ≡ none)
        × ((j : P.Verifier)
            → contains action.destinations j ≡ true
            → (v : SignedValue P) × (message : Message P) × (get_scalar s
                  (ScalarTag.local_signed action.to_send)
                ≡ ok (signed_value v))
              × (new_message (v ∷ []) ≡ ok message)
              × (BTreeMap.get dms j ≡ some message))
  unfolding into_dms push_broadcasts into_update BTreeMap.get get_or
  into_dms-from_send_bc_action s action task update dms distinct made h =
      let (v, stored, is_broadcast) = broadcast_of s action task made in
      let pushed = push_to_all [] action.destinations v in
      let opened : into_dms task ≡ (into_messages pushed >>= λ m. ok (sent_bc action.store_in, m)) =
        ap into_dms is_broadcast in
      elim (Result-cases (into_messages pushed)) [
        | inr (e, f) ↦ absurd (ground arith)
        | inl (messages, f) ↦
            let same : dms ≡ messages = ground arith in
            let at = λ (j : P.Verifier). get-into_messages pushed messages j f in
            let given = λ (j : P.Verifier). get-push_to_all [] action.destinations v j distinct in
            (
              ground arith,
              λ j out. ap (λ m. BTreeMap.get m j) same ∙ (at j).0 (ground (arith, given j)),
              λ j in_it.
                  let (message, made_of, found) = (at j).1 (v ∷ []) (ground (arith, given j)) in
                  (v, message, stored, made_of, ap (λ m. BTreeMap.get m j) same ∙ found),
            )
      ]
