-- ===== src/Entities/Message/Signing.antt =====
-- Signed values and messages of ayatori/src/entities/message.rs: what a signature that is correct
-- stands for, and which values make a message.
use ayatori.Prelude.{
  ◌≡◌, ◌≢◌, ◌↔◌, ◌⊎◌, refl, Bool, true, false, List, [], ◌∷◌, Option, none, some, arith, All, ap,
  Bool-cases, inl, inr, ◌∙◌, sym, subst,
}
use ayatori.Entities.Tags.{FullName}
use ayatori.Entities.Errors.{ok_injective, Result, ok, err}
use ayatori.Entities.Params.{Bytes, SessionId, MessageId, ValueMetadata, SessionParameters}
use ayatori.Entities.Message.{
  SignedValue, VerifiedValue, Message, VerificationError, signature_mismatch,
  update_with_value_and_metadata, verify_signature, sign_input, signed_with, new_signed,
  verify_inner, verify_and_unpack, verify, verify_hash, is_signature_correct, payload_hash_matches,
  unverify, to_signed_hash, all_in_session, new_message, into_wire, from_wire,
}

-- A signature that was made with a key is accepted with its verifying key.
abbrev pub SignaturesAreAccepted : SessionParameters → Type 0
SignaturesAreAccepted P =
    (signer : P.Signer) (rng : P.Rng) (input : Bytes) (signature : P.Signature)
    → (P.try_sign_digest signer rng input).0 ≡ some signature
    → P.verify_digest (P.verifying_key signer) input signature ≡ true

is_correct : Result VerificationError (Unit {0}) → Bool
is_correct (ok u) = true
is_correct (err e) = false

is_correct_iff : (r : Result VerificationError (Unit {0})) → (is_correct r ≡ true) ↔ (r ≡ ok tt)
unfolding is_correct
is_correct_iff (ok u) = (λ h. refl, λ h. refl)
is_correct_iff (err e) = (λ h. absurd (ground arith), λ h. absurd (ground arith))

module _ (P : SessionParameters) where
  verify_signature-cases :
      (source : P.Verifier) (input : Option Bytes) (signature : P.Signature)
      → (verify_signature P source input signature ≡ ok tt)
        ⊎ (verify_signature P source input signature ≡ err signature_mismatch)
  unfolding verify_signature
  verify_signature-cases source none signature = inr refl
  verify_signature-cases source (some input) signature =
      elim (Bool-cases (P.verify_digest source input signature)) [
        | inl e ↦ inl (ground arith)
        | inr e ↦ inr (ground arith)
      ]

  signed_verifies :
      (signer : P.Signer) (rng : P.Rng) (input : Option Bytes) (signature : P.Signature)
      → SignaturesAreAccepted P
      → (sign_input P signer rng input).0 ≡ some signature
      → verify_signature P (P.verifying_key signer) input signature ≡ ok tt
  unfolding sign_input verify_signature
  signed_verifies signer rng none signature accepted h = absurd (ground arith)
  signed_verifies signer rng (some input) signature accepted h =
      ground (arith, accepted signer rng input signature h)

  signed_with-ok :
      (signer : P.Signer) (metadata : ValueMetadata P.Verifier) (value : Bytes)
      (signature : Option P.Signature) (s : SignedValue P)
      → signed_with P signer metadata value signature ≡ ok s
      → (signature ≡ some s.signature)
        × (s.source ≡ P.verifying_key signer)
        × (s.value ≡ value)
        × (s.metadata ≡ metadata)
  unfolding signed_with
  signed_with-ok signer metadata value none s h = absurd (ground arith)
  signed_with-ok signer metadata value (some signature) s h =
      let e = ok_injective h in
      (
        ap (λ t. some t.signature) e,
        ap (λ t. t.source) (sym e),
        ap (λ t. t.value) (sym e),
        ap (λ t. t.metadata) (sym e),
      )

module _ {P : SessionParameters} where
  -- A signed value with the identifier of the message that it came in.
  unfoldable pub stamp : SignedValue P → MessageId → VerifiedValue P
  stamp s message_id = record {
    signature = s.signature;
    source = s.source;
    metadata = s.metadata;
    value = s.value;
    message_id = message_id;
  }

  verify_inner-cases :
      (s : SignedValue P) → (verify_inner s ≡ ok tt) ⊎ (verify_inner s ≡ err signature_mismatch)
  unfolding verify_inner
  verify_inner-cases s =
      verify_signature-cases P s.source (update_with_value_and_metadata P s.value s.metadata)
        s.signature

  -- A verification ends in one of two ways. Where the signature is correct it gives the value as it
  -- was signed, with the identifier of the message, and otherwise it reports a mismatch.
  pub verify-cases :
      (s : SignedValue P) (m : MessageId)
      → ((verify_inner s ≡ ok tt) × (verify s m ≡ ok (stamp s m)) × (unverify (stamp s m) ≡ s))
        ⊎ ((verify_inner s ≡ err signature_mismatch) × (verify s m ≡ err signature_mismatch))
  unfolding verify stamp unverify
  verify-cases s m = elim (verify_inner-cases s) [
    | inl e ↦ inl (e, rw (e, verify) refl, refl)
    | inr e ↦ inr (e, rw (e, verify) refl)
  ]

  pub verify_and_unpack-cases :
      (s : SignedValue P)
      → ((verify_inner s ≡ ok tt) × (verify_and_unpack s ≡ ok s.value))
        ⊎ ((verify_inner s ≡ err signature_mismatch)
            × (verify_and_unpack s ≡ err signature_mismatch))
  unfolding verify_and_unpack
  verify_and_unpack-cases s = elim (verify_inner-cases s) [
    | inl e ↦ inl (e, rw (e, verify_and_unpack) refl)
    | inr e ↦ inr (e, rw (e, verify_and_unpack) refl)
  ]

  -- The signature of a value is correct exactly when it is correct for the hash of the value, and the
  -- payload matches that hash.
  pub to_signed_hash_iff :
      (v : VerifiedValue P)
      → ((is_signature_correct (to_signed_hash v) ≡ true) ↔ (verify_inner (unverify v) ≡ ok tt))
        × (payload_hash_matches v (to_signed_hash v) ≡ true)
  unfolding is_signature_correct to_signed_hash verify_inner unverify verify_hash
      payload_hash_matches update_with_value_and_metadata is_correct
  to_signed_hash_iff v = (is_correct_iff (verify_inner (unverify v)), ground arith)

  -- A value that was signed verifies, under the name, session and destination that it was signed with,
  -- as one of the signer's, when the signature scheme accepts its own signatures.
  pub verify-new_signed :
      (rng : P.Rng) (signer : P.Signer) (session_id : SessionId) (name : FullName)
      (destination : Option P.Verifier) (value : Bytes) (s : SignedValue P)
      → SignaturesAreAccepted P
      → (new_signed P rng signer session_id name destination value).0 ≡ ok s
      → (verify_inner s ≡ ok tt)
        × (s.source ≡ P.verifying_key signer)
        × (s.value ≡ value)
        × (s.metadata ≡ record { name = name; destination = destination; session_id = session_id })
  unfolding new_signed verify_inner
  verify-new_signed rng signer session_id name destination value s accepted h =
      let metadata : ValueMetadata P.Verifier = record {
        name = name;
        destination = destination;
        session_id = session_id;
      } in
      let input = update_with_value_and_metadata P value metadata in
      let parts = signed_with-ok P signer metadata value (sign_input P signer rng input).0 s h in
      let correct = signed_verifies P signer rng input s.signature accepted parts.0 in
      (ground arith, parts.1, parts.2, parts.3)

  all_in_session_iff :
      (id : SessionId) (vs : List (SignedValue P))
      → (all_in_session id vs ≡ true) ↔ All (λ v. id ≡ v.metadata.session_id) vs
  unfolding all_in_session
  all_in_session_iff id [] = (λ h. tt, λ h. refl)
  all_in_session_iff id (v ∷ vs) =
      let ih = all_in_session_iff id vs in
      (λ h. (ground arith, ih.0 (ground arith)), λ h. ground (arith, h.0, ih.1 h.1))

  abbrev MadeFrom : List (SignedValue P) → Message P → Type 0
  MadeFrom vs m = (m.values ≡ vs) × (vs ≢ []) × All (λ v. m.session_id ≡ v.metadata.session_id) vs

  -- A message is made from values exactly when there are some and they are all of one session; it has
  -- those values and the identifier of that session.
  pub new_message_iff :
      (vs : List (SignedValue P)) (m : Message P)
      → (new_message vs ≡ ok m)
        ↔ ((m.values ≡ vs) × (vs ≢ []) × All (λ v. m.session_id ≡ v.metadata.session_id) vs)
  unfolding new_message
  new_message_iff [] m = (λ h. absurd (ground arith), λ h. absurd (h.1 refl))
  new_message_iff (v ∷ vs) m = (
    λ h. elim (Bool-cases (all_in_session v.metadata.session_id vs)) [
      | inl e ↦
          subst (MadeFrom (v ∷ vs)) (ok_injective (sym (accepted e) ∙ h))
            (refl, λ c. absurd (ground arith), (refl, (all_in_session_iff _ vs).0 e))
      | inr e ↦ absurd (ground arith)
    ],
    λ h.
        let e =
          (all_in_session_iff v.metadata.session_id vs).1
            (subst (λ i. All (λ w. i ≡ w.metadata.session_id) vs) h.2.0 h.2.1) in
        accepted e
        ∙ ap ok (
            ap (λ i. record { session_id = i; values = v ∷ vs }) (sym h.2.0)
            ∙ ap (λ ws. record { session_id = m.session_id; values = ws }) (sym h.0)),
  )
    where
      accepted :
          all_in_session v.metadata.session_id vs ≡ true
          → new_message (v ∷ vs)
            ≡ ok (record { session_id = v.metadata.session_id; values = v ∷ vs })
      accepted e = ground arith

  -- A message that was received passes the same check on its way in as the one that it was made with,
  -- and is the message that was sent.
  pub from_wire-into_wire :
      (vs : List (SignedValue P)) (m : Message P)
      → new_message vs ≡ ok m
      → from_wire (into_wire m) ≡ ok m
  unfolding from_wire into_wire
  from_wire-into_wire vs m h = ap new_message ((new_message_iff vs m).0 h).0 ∙ h
