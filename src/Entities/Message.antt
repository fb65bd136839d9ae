-- ===== src/Entities/Message.antt =====
-- ayatori/src/entities/message.rs: values that are signed together with their metadata, and the
-- messages that carry them.
pub mod Signing
use ayatori.Prelude.{
  Bool, true, false, List, [], ◌∷◌, ◌++◌, Option, none, some, if◌then◌else◌, ite, length,
}
use ayatori.Entities.Tags.{FullName}
use ayatori.Entities.Errors.{
  Result, ok, err, ◌>>=◌, ◌>>◌, RuntimeError, signing_failed, different_session_ids,
}
use ayatori.Entities.Params.{
  Bytes, SessionId, MessageId, Bytes_discrete, ascii, to_be_bytes, ValueMetadata, SessionParameters,
}

pub data VerificationError : Type 0 where
  runtime : RuntimeError → VerificationError
  signature_mismatch : VerificationError

pub record SignedValue (P : SessionParameters) : Type 0 where
  pub signature : P.Signature
  pub source : P.Verifier
  pub metadata : ValueMetadata P.Verifier
  pub value : Bytes

pub record SignedHash (P : SessionParameters) : Type 0 where
  pub signature : P.Signature
  pub source : P.Verifier
  pub metadata : ValueMetadata P.Verifier
  pub hash : Bytes

pub record VerifiedValue (P : SessionParameters) : Type 0 where
  pub signature : P.Signature
  pub source : P.Verifier
  pub metadata : ValueMetadata P.Verifier
  pub value : Bytes
  pub message_id : MessageId

pub record Message (P : SessionParameters) : Type 0 where
  pub session_id : SessionId
  pub values : List (SignedValue P)

module _ (P : SessionParameters) where
  unfoldable pub hash_serialized_value : Bytes → Bytes
  hash_serialized_value value =
      P.digest (ascii "SerializedValueDigest" ++ (to_be_bytes 16 (length value) ++ value))

  -- What the digest is updated with, or `none` where the metadata cannot be serialized.
  unfoldable pub update_with_hash_and_metadata : Bytes → ValueMetadata P.Verifier → Option Bytes
  update_with_hash_and_metadata value_hash metadata = elim (P.serialize_metadata metadata) [
    | none ↦ none
    | some serialized ↦ some (
        ascii "SignedValueDigest"
        ++ (to_be_bytes 16 (length serialized) ++ (serialized ++ value_hash)))
  ]

  unfoldable pub update_with_value_and_metadata : Bytes → ValueMetadata P.Verifier → Option Bytes
  update_with_value_and_metadata value metadata =
      update_with_hash_and_metadata (hash_serialized_value value) metadata

  -- Every error of the verifier, a failure to serialize too, is a mismatch.
  unfoldable pub verify_signature :
      P.Verifier → Option Bytes → P.Signature → Result VerificationError (Unit {0})
  verify_signature source none signature = err signature_mismatch
  verify_signature source (some input) signature =
      if P.verify_digest source input signature then ok tt else err signature_mismatch

  unfoldable pub sign_input : P.Signer → P.Rng → Option Bytes → Option P.Signature × P.Rng
  sign_input signer rng none = (none, rng)
  sign_input signer rng (some input) = P.try_sign_digest signer rng input

  unfoldable pub signed_with :
      P.Signer
      → ValueMetadata P.Verifier
      → Bytes
      → Option P.Signature
      → Result RuntimeError (SignedValue P)
  signed_with signer metadata value none = err signing_failed
  signed_with signer metadata value (some signature) = ok (record {
    signature = signature;
    source = P.verifying_key signer;
    metadata = metadata;
    value = value;
  })

  unfoldable pub new_signed :
      P.Rng
      → P.Signer
      → SessionId
      → FullName
      → Option P.Verifier
      → Bytes
      → Result RuntimeError (SignedValue P) × P.Rng
  unfolding sign_input signed_with
  new_signed rng signer session_id name destination value =
      let metadata : ValueMetadata P.Verifier = record {
        name = name;
        destination = destination;
        session_id = session_id;
      } in
      let (signature, rng') =
        sign_input signer rng (update_with_value_and_metadata value metadata) in
      (signed_with signer metadata value signature, rng')

module _ {P : SessionParameters} where
  unfoldable pub verify_inner : SignedValue P → Result VerificationError (Unit {0})
  verify_inner s =
      verify_signature P s.source (update_with_value_and_metadata P s.value s.metadata) s.signature

  pub verify_and_unpack : SignedValue P → Result VerificationError Bytes
  verify_and_unpack s = do verify_inner s; ok s.value

  unfoldable pub verify : SignedValue P → MessageId → Result VerificationError (VerifiedValue P)
  verify s message_id = do
    verify_inner s
    ok (record {
      signature = s.signature;
      source = s.source;
      metadata = s.metadata;
      value = s.value;
      message_id = message_id;
    })

  pub verify_hash : SignedHash P → Result VerificationError (Unit {0})
  verify_hash h =
      verify_signature P h.source (update_with_hash_and_metadata P h.hash h.metadata) h.signature

  pub is_signature_correct : SignedHash P → Bool
  is_signature_correct h = elim (verify_hash h) [ ok _ ↦ true | err _ ↦ false ]

  pub payload_hash_matches : VerifiedValue P → SignedHash P → Bool
  payload_hash_matches v h =
      ite (Bytes_discrete (hash_serialized_value P v.value) h.hash) true false

  unfoldable pub unverify : VerifiedValue P → SignedValue P
  unverify v = record {
    signature = v.signature;
    source = v.source;
    metadata = v.metadata;
    value = v.value;
  }

  pub to_signed_hash : VerifiedValue P → SignedHash P
  to_signed_hash v = record {
    signature = v.signature;
    source = v.source;
    metadata = v.metadata;
    hash = hash_serialized_value P v.value;
  }

  -- Whether all the values belong to this session.
  unfoldable pub all_in_session : SessionId → List (SignedValue P) → Bool
  all_in_session id [] = true
  all_in_session id (v ∷ vs) =
      ite (Bytes_discrete id v.metadata.session_id) (all_in_session id vs) false

  -- `all_equal_value` fails on no values, and on values of two sessions.
  unfoldable pub new_message : List (SignedValue P) → Result RuntimeError (Message P)
  unfolding all_in_session
  new_message [] = err different_session_ids
  new_message (v ∷ vs) =
      if all_in_session v.metadata.session_id vs
      then ok (record { session_id = v.metadata.session_id; values = v ∷ vs })
      else err different_session_ids

  pub into_values : Message P → List (SignedValue P)
  into_values m = m.values

  -- `WireMessage` is the list of the values.
  pub into_wire : Message P → List (SignedValue P)
  into_wire m = m.values

  pub from_wire : List (SignedValue P) → Result RuntimeError (Message P)
  from_wire values = new_message values
