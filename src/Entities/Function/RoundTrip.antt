-- ===== src/Entities/Function/RoundTrip.antt =====
-- From the signing of a value to its deserialization, by the functions of
-- ayatori/src/graph_representation/constructors.rs.
use ayatori.Prelude.{◌≡◌, Bool, true, false, Option, arith, ap, ◌∙◌, inl, inr}
use ayatori.Collections.Order.{Ord}
use ayatori.Collections.BTreeSet.{BTreeSet, contains}
use ayatori.Entities.Errors.{Result, ok, err, Result-cases, RuntimeError}
use ayatori.Entities.Params.{MessageId, SessionParameters, Bytes}
use ayatori.Entities.Message.{SignedValue, VerifiedValue, new_signed, verify}
use ayatori.Entities.Message.Signing.{SignaturesAreAccepted, stamp, verify-cases, verify-new_signed}
use ayatori.Entities.Value.{
  Value, signed_value, verified_value, SerdeAdapter, SerializeArgs, DeserializeArgs,
  downcast_verified,
}
use ayatori.Entities.Function.{
  is_some, signed_result, default_serialize_and_sign, deserialize_verified, default_deserialize,
}

module _ {P : SessionParameters} ⦃o : Ord P.Verifier⦄ where
  -- What is serialized is deserialized to the value that it was made from.
  abbrev pub RoundTrips : SerdeAdapter P → Type 0
  RoundTrips adapter =
      (value : Value P) (bytes : Bytes)
      → adapter.serialize value ≡ ok bytes
      → adapter.deserialize bytes ≡ ok value

  abbrev pub received_args :
      SerializeArgs P → BTreeSet P.Verifier → SignedValue P → MessageId → DeserializeArgs P
  received_args args senders s message_id = record {
    serde_adapter = args.serde_adapter;
    value = verified_value (stamp s message_id);
    expected_senders = senders;
  }

  deserialize_as :
      (args : DeserializeArgs P) (expect : Bool) (v : VerifiedValue P) (value : Value P)
      → is_some v.metadata.destination ≡ expect
      → contains args.expected_senders v.source ≡ true
      → args.serde_adapter.deserialize v.value ≡ ok value
      → deserialize_verified args expect v ≡ ok value
  unfolding deserialize_verified
  deserialize_as args true v value d c h = ground arith
  deserialize_as args false v value d c h = ground arith

  signed_result-ok :
      (signed : Result RuntimeError (SignedValue P) × P.Rng) (s : SignedValue P)
      → (signed_result signed).0 ≡ ok (signed_value s)
      → signed.0 ≡ ok s
  unfolding signed_result
  signed_result-ok (ok t, rng) s h = ground arith
  signed_result-ok (err e, rng) s h = absurd (ground arith)

  serialized-signed :
      (rng : P.Rng) (destination : Option P.Verifier) (args : SerializeArgs P) (s : SignedValue P)
      → (default_serialize_and_sign rng destination args).0 ≡ ok (signed_value s)
      → (bytes : Bytes) × (args.serde_adapter.serialize args.value ≡ ok bytes)
        × ((new_signed P rng args.signer args.session_id args.message_name destination bytes).0
            ≡ ok s)
  unfolding default_serialize_and_sign
  serialized-signed rng destination args s h =
      elim (Result-cases (args.serde_adapter.serialize args.value)) [
        | inr (e, f) ↦ absurd (ground arith)
        | inl (bytes, f) ↦ (
          bytes,
          f,
          signed_result-ok
              (new_signed P rng args.signer args.session_id args.message_name destination bytes) s
              (ground arith),
        )
      ]

  -- A value that a party serializes and signs, for a destination or for all, is deserialized to the
  -- same value by a party that expects a message of that form from the signer, whatever the message
  -- that it comes in; provided that the signature scheme accepts its own signatures and the
  -- serialization can be undone.
  pub default_deserialize-serialize_and_sign :
      (rng : P.Rng) (destination : Option P.Verifier) (args : SerializeArgs P)
      (senders : BTreeSet P.Verifier) (message_id : MessageId) (s : SignedValue P)
      → SignaturesAreAccepted P
      → RoundTrips args.serde_adapter
      → contains senders (P.verifying_key args.signer) ≡ true
      → (default_serialize_and_sign rng destination args).0 ≡ ok (signed_value s)
      → (verify s message_id ≡ ok (stamp s message_id))
        × (default_deserialize (received_args args senders s message_id) (is_some destination)
            ≡ ok args.value)
  unfolding default_deserialize downcast_verified stamp
  default_deserialize-serialize_and_sign rng destination args senders message_id s accepted back
        member h =
      let (bytes, serialized, signed) = serialized-signed rng destination args s h in
      let facts =
        verify-new_signed rng args.signer args.session_id args.message_name destination bytes s
          accepted signed in
      (
        elim (verify-cases s message_id) [
          | inl v ↦ v.1
          | inr v ↦ absurd (ground (arith, v.0, facts.0))
        ],
        deserialize_as (received_args args senders s message_id) (is_some destination)
            (stamp s message_id) args.value (ap (λ m. is_some m.destination) facts.3)
            (ap (contains senders) facts.1 ∙ member)
            (ap args.serde_adapter.deserialize facts.2 ∙ back args.value bytes serialized),
      )
