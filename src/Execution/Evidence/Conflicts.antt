-- ===== src/Execution/Evidence/Conflicts.antt =====
-- When two conflicting messages are evidence, in ayatori/src/execution/evidence.rs.
use ayatori.Prelude.{◌≡◌, ◌≢◌, ◌↔◌, arith, inl, inr, ◌∙◌, sym}
use ayatori.Collections.Order.{Ord}
use ayatori.Entities.Errors.{ok}
use ayatori.Entities.Params.{Bytes_discrete, SessionId, metadata_discrete, SessionParameters}
use ayatori.Entities.Message.{verify_inner, verify_and_unpack}
use ayatori.Entities.Message.Signing.{verify_and_unpack-cases}
use ayatori.Entities.Value.{valid}
use ayatori.Execution.Evidence.{ConflictingMessagesEvidence, compare_values, verify_conflicting}

module _ {P : SessionParameters} ⦃o : Ord P.Verifier⦄ where
  -- Both messages were signed by the guilty party, with the same metadata, in this session, for
  -- different values.
  abbrev pub IsConflict : ConflictingMessagesEvidence P → SessionId → P.Verifier → Type 0
  IsConflict e session_id guilty_party =
      (guilty_party ≡ e.first.source)
      × (guilty_party ≡ e.second.source)
      × (e.first.metadata ≡ e.second.metadata)
      × (e.first.metadata.session_id ≡ session_id)
      × (verify_inner e.first ≡ ok tt)
      × (verify_inner e.second ≡ ok tt)
      × (e.first.value ≢ e.second.value)

  compare_values_iff :
      (e : ConflictingMessagesEvidence P)
      → (compare_values (verify_and_unpack e.first) (verify_and_unpack e.second) ≡ ok valid) ↔ (
          (verify_inner e.first ≡ ok tt)
          × (verify_inner e.second ≡ ok tt)
          × (e.first.value ≢ e.second.value))
  unfolding compare_values
  compare_values_iff e = elim (verify_and_unpack-cases e.first) [
    | inr v ↦ rw v.1 (λ h. absurd (ground arith), λ c. absurd (ground (arith, c.0, v.0)))
    | inl v ↦ elim (verify_and_unpack-cases e.second) [
      | inr w ↦ rw (v.1, w.1) (λ h. absurd (ground arith), λ c. absurd (ground (arith, c.1, w.0)))
      | inl w ↦
          rw (v.1, w.1)
            (elim (Bytes_discrete e.first.value e.second.value) [
              | yes q ↦ (λ h. absurd (ground arith), λ c. absurd (c.2 q))
              | no n ↦ (λ h. (v.0, w.0, n), λ c. ground arith)
            ])
    ]
  ]

  -- Two messages are accepted as evidence exactly when they are a conflict: the guilty party signed
  -- both of them in this session, with equal metadata, and their values differ.
  pub verify_conflicting_iff :
      (e : ConflictingMessagesEvidence P) (session_id : SessionId) (guilty_party : P.Verifier)
      → (verify_conflicting e session_id guilty_party ≡ ok valid)
        ↔ IsConflict e session_id guilty_party
  unfolding verify_conflicting
  verify_conflicting_iff e session_id guilty_party = elim (o.dec guilty_party e.first.source) [
    | no n ↦ (λ h. absurd (ground arith), λ c. absurd (n c.0))
    | yes a ↦ elim (o.dec guilty_party e.second.source) [
      | no n ↦ (λ h. absurd (ground arith), λ c. absurd (n c.1))
      | yes b ↦ elim (metadata_discrete o e.first.metadata e.second.metadata) [
        | no n ↦ (λ h. absurd (ground arith), λ c. absurd (n c.2))
        | yes m ↦ elim (Bytes_discrete e.first.metadata.session_id session_id) [
          | no n ↦ (λ h. absurd (ground arith), λ c. absurd (n c.3))
          | yes i ↦
              let rest = compare_values_iff e in
              let passed : verify_conflicting e session_id guilty_party
                  ≡ compare_values (verify_and_unpack e.first) (verify_and_unpack e.second) =
                ground arith in
              (
                λ h. let r = rest.0 (sym passed ∙ h) in (a, b, m, i, r.0, r.1, r.2),
                λ c. passed ∙ rest.1 (c.4, c.5, c.6),
              )
        ]
      ]
    ]
  ]
