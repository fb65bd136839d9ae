-- ===== src/Entities/Params.antt =====
-- ayatori/src/traits.rs: what a session is given. Signatures, hashes, the generator of random bytes
-- and the wire format are other packages' code, so they are the fields of `SessionParameters`; so
-- are the values of the protocol, which the session only passes around.
use ayatori.Prelude.{ℕ, zero, suc, ◌/◌, ◌%◌, ◌^◌, String, List, [], ◌∷◌, Option, Bool, ℕ_discrete}
use ayatori.Collections.Order.{Ord}
use ayatori.Entities.Tags.{FullName, FullName_discrete}
use Prim.Native.Char.{code}

abbrev pub Bytes : Type 0
Bytes = List ℕ

-- `SessionId` and `MessageId` wrap the output of the session's hash.
abbrev pub SessionId : Type 0
SessionId = Bytes

abbrev pub MessageId : Type 0
MessageId = Bytes

unfoldable pub Bytes_discrete : Discrete Bytes
unfolding ℕ_discrete
Bytes_discrete = hlevel ℕ_discrete

-- A byte string literal of the source.
abbrev pub ascii : String → Bytes
ascii String.[] = []
ascii (String.◌∷◌ c s) = code c ∷ ascii s

-- `to_be_bytes` of an integer of `w` bytes.
unfoldable pub to_be_bytes : ℕ → ℕ → Bytes
to_be_bytes zero n = []
to_be_bytes (suc w) n = (n / 256 ^ w) % 256 ∷ to_be_bytes w n

pub record ValueMetadata (PartyId : Type 0) : Type 0 where
  pub name : FullName
  pub destination : Option PartyId
  pub session_id : SessionId

unfoldable pub metadata_discrete :
    {PartyId : Type 0} → Ord PartyId → Discrete (ValueMetadata PartyId)
unfolding FullName_discrete Bytes_discrete
metadata_discrete o = hlevel (o.dec, FullName_discrete, Bytes_discrete)

pub record SessionParameters : Type 1 where
  pub Verifier : Type 0
  pub Signer : Type 0
  pub Signature : Type 0
  pub Rng : Type 0
  pub UserValue : Type 0
  -- the output of `Digest` on the bytes that it was given
  pub digest : Bytes → Bytes
  pub verifying_key : Signer → Verifier
  pub try_sign_digest : Signer → Rng → Bytes → Option Signature × Rng
  pub verify_digest : Verifier → Bytes → Signature → Bool
  pub serialize_metadata : ValueMetadata Verifier → Option Bytes
