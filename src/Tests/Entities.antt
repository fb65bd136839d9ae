-- ===== src/Tests/Entities.antt =====
-- Inputs of the theorems about ayatori/src/entities.
use ayatori.Prelude.{ℕ_discrete, ◌≡◌, ◌≢◌, ◌↔◌, All, ℕ, refl, List, [], ◌∷◌, none, true}
use ayatori.Collections.Order.{nat_ord}
use ayatori.Collections.BTreeSet.{IsDistinct, contains}
use ayatori.Entities.Errors.{ok}
use ayatori.Entities.Params.{Bytes_discrete}
use ayatori.Entities.Party.{ThresholdGroup, is_quorum_possible}
use ayatori.Entities.Party.Quorums.{HasQuorumWithout, is_quorum_possible_iff}
use ayatori.Entities.Message.{
  SignedValue, Message, verify_inner, new_signed, new_message, unverify, is_signature_correct,
  to_signed_hash, payload_hash_matches, into_wire, from_wire, update_with_value_and_metadata,
  update_with_hash_and_metadata, sign_input, signed_with, all_in_session,
}
use ayatori.Entities.Message.Signing.{
  verify-new_signed, to_signed_hash_iff, new_message_iff, from_wire-into_wire,
}
use ayatori.Tests.Data.{
  params, params-SignaturesAreAccepted, name_of, session_id, metadata_of, signed_by, verified_from,
}

abbrev two_of_three : ThresholdGroup ℕ
two_of_three = record { ids = 1 ∷ 2 ∷ 3 ∷ []; threshold = 2 }

distinct : IsDistinct two_of_three.ids
unfolding contains ℕ_discrete
distinct = (refl, (refl, (refl, tt)))

is_quorum_possible_iff_example :
    (is_quorum_possible two_of_three (2 ∷ []) ≡ true) ↔ HasQuorumWithout two_of_three (2 ∷ [])
is_quorum_possible_iff_example = is_quorum_possible_iff two_of_three (2 ∷ []) distinct

new_signed_ok :
    (new_signed params 0 1 session_id (name_of "echo") none (5 ∷ [])).0
    ≡ ok (signed_by 1 "echo" (5 ∷ []))
unfolding new_signed sign_input signed_with update_with_value_and_metadata
    update_with_hash_and_metadata
new_signed_ok = refl

verify-new_signed_example :
    (verify_inner (signed_by 1 "echo" (5 ∷ [])) ≡ ok tt)
    × ((signed_by 1 "echo" (5 ∷ [])).source ≡ 1)
    × ((signed_by 1 "echo" (5 ∷ [])).value ≡ 5 ∷ [])
    × ((signed_by 1 "echo" (5 ∷ [])).metadata ≡ metadata_of "echo")
verify-new_signed_example =
    verify-new_signed 0 1 session_id (name_of "echo") none (5 ∷ []) (signed_by 1 "echo" (5 ∷ []))
      params-SignaturesAreAccepted new_signed_ok

to_signed_hash_iff_example :
    ((is_signature_correct (to_signed_hash (verified_from 2 "echo" (5 ∷ []) 0)) ≡ true)
      ↔ (verify_inner (unverify (verified_from 2 "echo" (5 ∷ []) 0)) ≡ ok tt))
    × (payload_hash_matches
          (verified_from 2 "echo" (5 ∷ []) 0)
          (to_signed_hash (verified_from 2 "echo" (5 ∷ []) 0))
        ≡ true)
to_signed_hash_iff_example = to_signed_hash_iff (verified_from 2 "echo" (5 ∷ []) 0)

abbrev two_values : List (SignedValue params)
two_values = signed_by 2 "echo" (5 ∷ []) ∷ signed_by 3 "echo" (6 ∷ []) ∷ []

abbrev message : Message params
message = record { session_id = session_id; values = two_values }

new_message_iff_example : (new_message two_values ≡ ok message) ↔ (
    (message.values ≡ two_values)
    × (two_values ≢ [])
    × All (λ v. message.session_id ≡ v.metadata.session_id) two_values)
new_message_iff_example = new_message_iff two_values message

new_message_ok : new_message two_values ≡ ok message
unfolding new_message all_in_session Bytes_discrete
new_message_ok = refl

from_wire-into_wire_example : from_wire (into_wire message) ≡ ok message
from_wire-into_wire_example = from_wire-into_wire two_values message new_message_ok
