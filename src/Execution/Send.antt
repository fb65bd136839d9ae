-- ===== src/Execution/Send.antt =====
-- ayatori/src/execution/task.rs: `SendTask`, a task to send messages, and the two forms in which the
-- messages are handed to the transport.
pub mod Delivery
use ayatori.Prelude.{List, [], ◌∷◌, ◌++◌, map}
use ayatori.Collections.Order.{Ord}
use ayatori.Collections.BTreeSet.{BTreeSet}
use ayatori.Collections.BTreeMap.{BTreeMap, get_or, insert}
use ayatori.Entities.Tags.{FullName, ScalarTag, MappingTag}
use ayatori.Entities.Errors.{Result, ok, err, ◌>>=◌, RuntimeError}
use ayatori.Entities.Params.{SessionParameters}
use ayatori.Entities.Message.{SignedValue, Message, new_message}
use ayatori.Entities.Value.{downcast_signed}
use ayatori.Flat.Actions.{SendBcAction, SendDmAction}
use ayatori.Execution.Storage.{Storage, get_scalar, get_elem}
use ayatori.Execution.Update.{SessionUpdate, sent_bc, sent_dm}

pub data SendTaskKind (P : SessionParameters) : Type 0 where
  broadcast_message : FullName → SendTaskKind P
  direct_message : FullName → P.Verifier → SendTaskKind P

pub record SendTask (P : SessionParameters) : Type 0 where
  pub kind : SendTaskKind P
  pub direct_messages : BTreeMap P.Verifier (SignedValue P)
  pub broadcast_messages : List (BTreeSet P.Verifier × SignedValue P)

module _ {P : SessionParameters} where
  unfoldable pub into_update : SendTaskKind P → SessionUpdate P
  into_update (broadcast_message store_in) = sent_bc store_in
  into_update (direct_message store_in destination) = sent_dm store_in destination

  unfoldable pub from_send_bc_action : Storage P → SendBcAction P → Result RuntimeError (SendTask P)
  from_send_bc_action s action = do
    value ← get_scalar s (ScalarTag.local_signed action.to_send)
    signed_value ← downcast_signed value
    ok (record {
      kind = broadcast_message action.store_in;
      direct_messages = [];
      broadcast_messages = (action.destinations, signed_value) ∷ [];
    })

  pub from_send_dm_action :
      ⦃o : Ord P.Verifier⦄ → Storage P → SendDmAction P → Result RuntimeError (SendTask P)
  from_send_dm_action s action = do
    value ← get_elem s (MappingTag.local_signed action.to_send) action.destination
    signed_value ← downcast_signed value
    ok (record {
      kind = direct_message action.store_in action.destination;
      direct_messages = (action.destination, signed_value) ∷ [];
      broadcast_messages = [];
    })

  -- Each list of values as one message; the first error is returned.
  unfoldable pub into_messages :
      {A : Type 0} → List (A × List (SignedValue P)) → Result RuntimeError (List (A × Message P))
  into_messages [] = ok []
  into_messages ((a, values) ∷ rest) =
      let messages = into_messages rest in
      do message ← new_message values; others ← messages; ok ((a, message) ∷ others)

  pub into_bcs_and_dms :
      SendTask P
      → Result RuntimeError (
          SessionUpdate P
          × List (BTreeSet P.Verifier × Message P)
          × BTreeMap P.Verifier (Message P))
  unfolding into_messages
  into_bcs_and_dms t = do
    dms ← into_messages (map (λ e. (e.0, e.1 ∷ [])) t.direct_messages)
    bcs ← into_messages (map (λ e. (e.0, e.1 ∷ [])) t.broadcast_messages)
    ok (into_update t.kind, bcs, dms)

module _ {P : SessionParameters} ⦃o : Ord P.Verifier⦄ where
  -- `entry(destination).or_default().push(value)` for each destination.
  unfoldable pub push_to_all :
      BTreeMap P.Verifier (List (SignedValue P))
      → List P.Verifier
      → SignedValue P
      → BTreeMap P.Verifier (List (SignedValue P))
  push_to_all m [] value = m
  push_to_all m (id ∷ ids) value =
      push_to_all (insert m id (get_or m id [] ++ value ∷ [])) ids value

  unfoldable pub push_broadcasts :
      BTreeMap P.Verifier (List (SignedValue P))
      → List (BTreeSet P.Verifier × SignedValue P)
      → BTreeMap P.Verifier (List (SignedValue P))
  unfolding push_to_all
  push_broadcasts m [] = m
  push_broadcasts m ((destinations, value) ∷ rest) =
      push_broadcasts (push_to_all m destinations value) rest

  unfoldable pub into_dms :
      SendTask P → Result RuntimeError (SessionUpdate P × BTreeMap P.Verifier (Message P))
  unfolding into_messages push_broadcasts
  into_dms t =
      let result =
        push_broadcasts (map (λ e. (e.0, e.1 ∷ [])) t.direct_messages) t.broadcast_messages in
      do dms ← into_messages result; ok (into_update t.kind, dms)
