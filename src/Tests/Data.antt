-- ===== src/Tests/Data.antt =====
-- Concrete parameters of ayatori/src/traits.rs, and values of the session's types with them. The
-- parties are numbers, and a party's signature is its number.
use ayatori.Prelude.{ℕ, ◌+◌, String, [], ◌∷◌, none, some, ◌==◌, arith}
use ayatori.Collections.Order.{nat_ord}
use ayatori.Entities.Tags.{FullName}
use ayatori.Entities.Params.{Bytes, SessionId, ValueMetadata, SessionParameters}
use ayatori.Entities.Message.{SignedValue, VerifiedValue}
use ayatori.Entities.Message.Signing.{SignaturesAreAccepted}
use ayatori.Flat.Ruleset.{Ruleset}
use ayatori.Execution.Storage.{Storage}
use ayatori.Execution.Update.{SessionData}
use ayatori.Execution.Session.{Session}

abbrev pub params : SessionParameters
params = record {
  Verifier = ℕ;
  Signer = ℕ;
  Signature = ℕ;
  Rng = ℕ;
  UserValue = ℕ;
  digest = λ bytes. bytes;
  verifying_key = λ signer. signer;
  try_sign_digest = λ signer rng input. (some signer, rng + 1);
  verify_digest = λ verifier input signature. verifier == signature;
  serialize_metadata = λ metadata. some metadata.session_id;
}

pub params-SignaturesAreAccepted : SignaturesAreAccepted params
params-SignaturesAreAccepted signer rng input signature h = ground arith

abbrev pub name_of : String → FullName
name_of name = record { prefix = []; name = name }

abbrev pub session_id : SessionId
session_id = 7 ∷ []

abbrev pub metadata_of : String → ValueMetadata ℕ
metadata_of name = record { name = name_of name; destination = none; session_id = session_id }

-- The party's value under a name, and the same as it came in a message.
abbrev pub signed_by : ℕ → String → Bytes → SignedValue params
signed_by party name value = record {
  signature = party;
  source = party;
  metadata = metadata_of name;
  value = value;
}

abbrev pub verified_from : ℕ → String → Bytes → ℕ → VerifiedValue params
verified_from party name value message = record {
  signature = party;
  source = party;
  metadata = metadata_of name;
  value = value;
  message_id = message ∷ [];
}

abbrev pub session_data : SessionData params
session_data = record {
  id = session_id;
  participants = 1 ∷ 2 ∷ 3 ∷ [];
  local_participants = 1 ∷ [];
}

abbrev pub no_rules : Ruleset params
no_rules = record {
  output_tag = name_of "output";
  scalar_rules = [];
  collect_rules = [];
  mapping_rules = [];
  send_bc_rules = [];
  send_dm_rules = [];
  arguments = [];
}

abbrev pub session_with : Storage params → Ruleset params → Session params
session_with storage rules = record {
  rules = rules;
  storage = storage;
  signer = some 1;
  verifier = 1;
  session_data = session_data;
  provable_errors = [];
  attributable_errors = [];
  external_bans = [];
  preprocessing_tasks = [];
}
