-- ===== src/Entities/Value.antt =====
-- ayatori/src/entities/value.rs and args.rs: a type-erased value, the adapter that serializes one,
-- and the arguments of the functions that compute with them. The types that the program itself
-- stores have their own constructors, and a downcast is a test of the constructor; the types of the
-- protocol are the parameter `UserValue`.
use ayatori.Prelude.{◌≡◌, ap, arith, String, [], ◌∷◌, none, some}
use ayatori.Collections.Order.{string_ord}
use ayatori.Collections.BTreeSet.{BTreeSet}
use ayatori.Collections.BTreeMap.{BTreeMap, get}
use ayatori.Entities.Tags.{FullName}
use ayatori.Entities.Errors.{
  ok_injective, Result, ok, err, RuntimeError, wrong_type, argument_not_found,
}
use ayatori.Entities.Params.{Bytes, SessionId, SessionParameters}
use ayatori.Entities.Message.{SignedValue, VerifiedValue}

pub data EvidenceVerdict : Type 0 where
  valid : EvidenceVerdict
  invalid : String → EvidenceVerdict

mutual
  pub data Value (P : SessionParameters) : Type 0 where
    unit_value : Value P
    signed_value : SignedValue P → Value P
    verified_value : VerifiedValue P → Value P
    verdict_value : EvidenceVerdict → Value P
    user_value : P.UserValue → Value P
    -- `BTreeMap<Id, Value>`
    collected_values : Elements P → Value P
    -- `OneOrBoth<Value, Value>`
    merged_left merged_right : Value P → Value P
    merged_both : Value P → Value P → Value P

  pub data Elements (P : SessionParameters) : Type 0 where
    no_elements : Elements P
    element : P.Verifier → Value P → Elements P → Elements P

module _ {P : SessionParameters} where
  unfoldable pub from_map : BTreeMap P.Verifier (Value P) → Elements P
  from_map [] = no_elements
  from_map ((id, v) ∷ m) = element id v (from_map m)

  unfoldable pub to_map : Elements P → BTreeMap P.Verifier (Value P)
  to_map no_elements = []
  to_map (element id v m) = (id, v) ∷ to_map m

  unfoldable pub downcast_signed : Value P → Result RuntimeError (SignedValue P)
  downcast_signed (signed_value s) = ok s
  downcast_signed _ = err wrong_type

  unfoldable pub downcast_verified : Value P → Result RuntimeError (VerifiedValue P)
  downcast_verified (verified_value v) = ok v
  downcast_verified _ = err wrong_type

  unfoldable pub downcast_verdict : Value P → Result RuntimeError EvidenceVerdict
  downcast_verdict (verdict_value v) = ok v
  downcast_verdict _ = err wrong_type

  pub downcast_signed-ok :
      (value : Value P) (v : SignedValue P) → downcast_signed value ≡ ok v → value ≡ signed_value v
  unfolding downcast_signed
  downcast_signed-ok (signed_value w) v h = ap signed_value (ok_injective h)
  downcast_signed-ok unit_value v h = absurd (ground arith)
  downcast_signed-ok (verified_value w) v h = absurd (ground arith)
  downcast_signed-ok (verdict_value w) v h = absurd (ground arith)
  downcast_signed-ok (user_value u) v h = absurd (ground arith)
  downcast_signed-ok (collected_values m) v h = absurd (ground arith)
  downcast_signed-ok (merged_left l) v h = absurd (ground arith)
  downcast_signed-ok (merged_right r) v h = absurd (ground arith)
  downcast_signed-ok (merged_both l r) v h = absurd (ground arith)

-- The adapter for one type of message: `serialize` downcasts and fails on any other type.
pub record SerdeAdapter (P : SessionParameters) : Type 0 where
  pub serialize : Value P → Result RuntimeError Bytes
  pub deserialize : Bytes → Result String (Value P)

pub record SerializeArgs (P : SessionParameters) : Type 0 where
  pub signer : P.Signer
  pub session_id : SessionId
  pub message_name : FullName
  pub serde_adapter : SerdeAdapter P
  pub value : Value P

pub record DeserializeArgs (P : SessionParameters) : Type 0 where
  pub serde_adapter : SerdeAdapter P
  pub value : Value P
  pub expected_senders : BTreeSet P.Verifier

pub record Args (P : SessionParameters) : Type 0 where
  pub session_id : SessionId
  pub my_id : P.Verifier
  pub values : BTreeMap String (Value P)

pub get_value : {P : SessionParameters} → Args P → String → Result RuntimeError (Value P)
get_value a name = elim (get a.values name) [ none ↦ err (argument_not_found name) | some v ↦ ok v ]
