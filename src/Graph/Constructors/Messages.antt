-- ===== src/Graph/Constructors/Messages.antt =====
-- ayatori/src/graph_representation/constructors.rs: the channels of a message and the nodes of their ends.
-- An adapter of the message's type stands for the type.
use ayatori.Prelude.{suc, String, true, false, Bool, none, some}
use ayatori.Collections.Order.{Ord}
use ayatori.Collections.BTreeSet.{BTreeSet}
use ayatori.Entities.Tags.{new_name}
use ayatori.Entities.Params.{SessionParameters}
use ayatori.Entities.Value.{SerdeAdapter}
use ayatori.Entities.Function.{default_serialize_and_sign, default_deserialize}
use ayatori.Graph.AnyNode.{
  NodeId, AnyNode, serialize_and_sign_bc, serialize_and_sign_dm, deserialize_and_check, send_bc,
  send_dm, receive, no_nodes,
}

-- `BroadcastMessageOut`, `BroadcastMessageIn`, `DirectMessageOut` and `DirectMessageIn`.
pub record Channel (P : SessionParameters) : Type 0 where
  pub name : String
  pub serde_adapter : SerdeAdapter P

module _ {P : SessionParameters} where
  unfoldable pub broadcast_message : SerdeAdapter P → String → Channel P × Channel P
  broadcast_message adapter name = (
    record { name = name; serde_adapter = adapter },
    record { name = name; serde_adapter = adapter },
  )

  unfoldable pub direct_message : SerdeAdapter P → String → Channel P × Channel P
  direct_message adapter name = (
    record { name = name; serde_adapter = adapter },
    record { name = name; serde_adapter = adapter },
  )

  -- `send` of a broadcast.
  unfoldable pub send_to_all : Channel P → NodeId → AnyNode P → BTreeSet P.Verifier → AnyNode P
  send_to_all out i value destinations =
      send_bc (suc i) (new_name (out.name))
        (serialize_and_sign_bc i (new_name (out.name))
          (λ rng args. default_serialize_and_sign rng none args) value (out.serde_adapter)
          (new_name (out.name)))
        destinations no_nodes

  -- `send` of a direct message.
  unfoldable pub send_to_each : Channel P → NodeId → AnyNode P → AnyNode P
  send_to_each out i value =
      send_dm (suc i) (new_name (out.name))
        (serialize_and_sign_dm i (new_name (out.name))
          (λ rng id args. default_serialize_and_sign rng (some id) args) value (out.serde_adapter)
          (new_name (out.name)))
        no_nodes

module _ {P : SessionParameters} ⦃o : Ord P.Verifier⦄ where
  -- `receive_split`, of a direct message where the flag is set and of a broadcast where it is not.
  unfoldable pub received_split : Bool → Channel P → NodeId → AnyNode P × AnyNode P
  received_split is_direct channel i =
      let remote = receive i (new_name (channel.name)) (new_name (channel.name)) in
      (
        remote,
        deserialize_and_check (suc i) (new_name (channel.name))
            (λ args. default_deserialize args is_direct) remote (channel.serde_adapter)
            (new_name (channel.name)),
      )

  unfoldable pub receive_split_bc : Channel P → NodeId → AnyNode P × AnyNode P
  receive_split_bc channel i = received_split false channel i

  unfoldable pub receive_split_dm : Channel P → NodeId → AnyNode P × AnyNode P
  receive_split_dm channel i = received_split true channel i

  unfoldable pub receive_bc : Channel P → NodeId → AnyNode P
  receive_bc channel i = (receive_split_bc channel i).1

  unfoldable pub receive_dm : Channel P → NodeId → AnyNode P
  receive_dm channel i = (receive_split_dm channel i).1
