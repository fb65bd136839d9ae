-- ===== src/Execution/Session/Weight.antt =====
-- How many tasks a session of ayatori/src/execution/session.rs can still give.
use ayatori.Prelude.{
  ℕ, ◌+◌, ◌≤◌, ◌≡◌, refl, Bool-cases, String, List, [], ◌∷◌, map, Option, none, some, arith, inl,
  inr, ap, subst, length, length-append, length-map, taken, Option-cases,
}
use ayatori.Collections.Order.{Ord}
use ayatori.Entities.Tags.{ScalarTag, MappingTag}
use ayatori.Entities.Errors.{ok_injective, Result, ok, err, Result-cases, RuntimeError}
use ayatori.Entities.Params.{MessageId, SessionParameters}
use ayatori.Entities.Message.{SignedValue, VerifiedValue, Message, into_values}
use ayatori.Entities.Value.{Value, downcast_verified}
use ayatori.Flat.Actions.{Action, OnError, collect_evidence, escalate}
use ayatori.Flat.Ruleset.{pop_action}
use ayatori.Flat.Ruleset.Pending.{
  pending, pending-pop_action, pending-update_with_scalar_ready, pending-update_with_element_ready,
  pending-update_with_banned_party,
}
use ayatori.Execution.Storage.{get_elem, set_elem, set_scalar}
use ayatori.Execution.Update.{
  SessionUpdate, no_action_needed, sent_bc, sent_dm, received, computed_scalar,
  computed_mapping_element, preprocessed, runtime_error, spurious_error, sender_error,
  sender_error_with_reveal, third_party_error, message_error, external_ban, merged_scalars,
  collected,
}
use ayatori.Execution.Preprocess
use ayatori.Execution.Evidence.{Evidence, EvidenceKind, new_evidence, new_conflicting}
use ayatori.Execution.Task.{Task}
use ayatori.Execution.Session.Tasks.{pop_last, action_task, make_task}
use ayatori.Execution.Session.{
  Session, AddSessionUpdate, add_scalar, add_element, add_message, register_provable_error,
  register_attributable_error, register_banned_party, conflict, received_again,
  try_add_verified_value, collect_values, sender_failed, with_update_inner,
}

length-pop_last :
    {A : Type 0} (xs : List A) → length (pop_last xs).0 + taken (pop_last xs).1 ≡ length xs
unfolding pop_last taken
length-pop_last [] = refl
length-pop_last (x ∷ xs) = ground (arith, length-pop_last xs, pop_last-empty xs)
  where
    pop_last-empty :
        {A : Type 0} (xs : List A) → (pop_last xs).1 ≡ none → length (pop_last xs).0 ≡ 0
    pop_last-empty [] h = refl
    pop_last-empty (x ∷ xs) h = ground arith

module _ {P : SessionParameters} where
  -- Whether a task was made.
  unfoldable pub made : Result RuntimeError (Option (Task P)) → ℕ
  made (ok (some task)) = 1
  made (ok none) = 0
  made (err e) = 0

  -- The values that an update brings in to be checked.
  unfoldable pub incoming : SessionUpdate P → ℕ
  incoming (received id message) = length (into_values message)
  incoming _ = 0

  made_le : (r : Result RuntimeError (Option (Task P))) → made r ≤ 1
  unfolding made
  made_le (ok (some task)) = omega arith
  made_le (ok none) = omega arith
  made_le (err e) = omega arith

module _ {P : SessionParameters} ⦃o : Ord P.Verifier⦄ where
  -- The received values that are to be checked, and the actions that are pending.
  unfoldable pub weight : Session P → ℕ
  weight s = length s.preprocessing_tasks + pending s.rules

  weight-action_task :
      (s : Session P) (action : Option (Action P))
      → weight (action_task s action).0 + made (action_task s action).1 ≤ weight s + taken action
  unfolding action_task made taken
  weight-action_task s none = omega arith
  weight-action_task s (some action) = omega (arith, made_le (action_task s (some action)).1)

  -- Every task that a session makes uses up a value to be checked or a pending action.
  pub weight-make_task : (s : Session P) → weight (make_task s).0 + made (make_task s).1 ≤ weight s
  unfolding make_task weight made taken
  weight-make_task s = elim (Option-cases (pop_last s.preprocessing_tasks).1) [
    | inr (task, e) ↦ rw (e, make_task) (ground (arith, length-pop_last s.preprocessing_tasks))
    | inl e ↦
        rw (e, make_task)
          (ground (
            arith,
            weight-action_task (record s { rules = (pop_action s.rules).0 }) (pop_action s.rules).1,
            pending-pop_action s.rules,
          ))
  ]

  -- The session of a result, where there is one, has at most this weight.
  abbrev Weighs : Result RuntimeError (Session P × AddSessionUpdate) → ℕ → Type 0
  Weighs r n = (s' : Session P) (change : AddSessionUpdate) → r ≡ ok (s', change) → weight s' ≤ n

  ok-Weighs :
      (given : Session P × AddSessionUpdate) (n : ℕ) → weight given.0 ≤ n → Weighs (ok given) n
  ok-Weighs given n h s' change e = subst (λ x. weight x ≤ n) (ap (λ p. p.0) (ok_injective e)) h

  err-Weighs : (e : RuntimeError) (n : ℕ) → Weighs (err e) n
  err-Weighs e n s' change h = absurd (ground arith)

  add_scalar-Weighs :
      (s : Session P) (tag : ScalarTag) (v : Value P) → Weighs (add_scalar s tag v) (weight s)
  unfolding add_scalar weight
  add_scalar-Weighs s tag v = elim (Result-cases (set_scalar s.storage tag v).1) [
    | inr (e, stored) ↦ rw (stored, add_scalar) (err-Weighs e (weight s))
    | inl (u, stored) ↦
        rw (stored, add_scalar)
          (ok-Weighs _ (weight s) (omega (arith, pending-update_with_scalar_ready s.rules tag)))
  ]

  add_element-Weighs :
      (s : Session P) (tag : MappingTag) (id : P.Verifier) (v : Value P)
      → Weighs (add_element s tag id v) (weight s)
  unfolding add_element weight
  add_element-Weighs s tag id v = elim (Result-cases (set_elem s.storage tag id v).1) [
    | inr (e, stored) ↦ rw (stored, add_element) (err-Weighs e (weight s))
    | inl (u, stored) ↦
        rw (stored, add_element)
          (ok-Weighs _ (weight s) (omega (arith, pending-update_with_element_ready s.rules tag id)))
  ]

  add_message-Weighs :
      (s : Session P) (id : MessageId) (m : Message P)
      → Weighs (ok (add_message s id m)) (weight s + length (into_values m))
  unfolding add_message weight
  add_message-Weighs s id m = ok-Weighs (add_message s id m) _ (
      omega (
        arith,
        length-append s.preprocessing_tasks
            (map (λ v. Preprocess.new s.session_data id v) (into_values m)),
        length-map (λ v. Preprocess.new s.session_data id v) (into_values m),
      ))

  provable-Weighs :
      (s : Session P) (e : Evidence P) → Weighs (ok (register_provable_error s e)) (weight s)
  unfolding register_provable_error weight
  provable-Weighs s e =
      ok-Weighs (register_provable_error s e) _
        (omega (arith, pending-update_with_banned_party s.rules e.guilty_party))

  attributable-Weighs :
      (s : Session P) (id : P.Verifier) (tag : MappingTag)
      → Weighs (ok (register_attributable_error s id tag)) (weight s)
  unfolding register_attributable_error weight
  attributable-Weighs s id tag =
      ok-Weighs (register_attributable_error s id tag) _
        (omega (arith, pending-update_with_banned_party s.rules id))

  ban-Weighs :
      (s : Session P) (id : P.Verifier) (reason : String)
      → Weighs (ok (register_banned_party s id reason)) (weight s)
  unfolding register_banned_party weight
  ban-Weighs s id reason =
      ok-Weighs (register_banned_party s id reason) _
        (omega (arith, pending-update_with_banned_party s.rules id))

  sender_failed-Weighs :
      (s : Session P) (tag : MappingTag) (id : P.Verifier) (on_error : OnError)
      (kind : List (SignedValue P) → EvidenceKind P)
      → Weighs (sender_failed s tag id on_error kind) (weight s)
  unfolding sender_failed
  sender_failed-Weighs s tag id escalate kind = attributable-Weighs s id tag
  sender_failed-Weighs s tag id (collect_evidence names) kind =
      elim (Result-cases (collect_values s.storage id names)) [
        | inr (e, c) ↦ rw (c, sender_failed) (err-Weighs e (weight s))
        | inl (values, c) ↦
            rw (c, sender_failed)
              (provable-Weighs s (new_evidence s.session_data.id id (kind values)))
      ]

  received_again-Weighs :
      (s : Session P) (id : P.Verifier) (v w : VerifiedValue P)
      → Weighs (ok (received_again s id v w)) (weight s)
  unfolding received_again weight
  received_again-Weighs s id v w = elim (Bool-cases (conflict v w)) [
    | inl e ↦
        rw (e, received_again)
          (provable-Weighs s (
            new_evidence s.session_data.id id
              (EvidenceKind.conflicting_messages (new_conflicting v w))))
    | inr e ↦ rw (e, received_again) (ok-Weighs _ (weight s) (omega arith))
  ]

  preprocessed-Weighs :
      (s : Session P) (tag : MappingTag) (id : P.Verifier) (value : Value P)
      → Weighs (try_add_verified_value s tag id value) (weight s)
  unfolding try_add_verified_value
  preprocessed-Weighs s tag id value = elim (Result-cases (get_elem s.storage tag id)) [
    | inr (e, r) ↦ rw (r, try_add_verified_value) (add_element-Weighs s tag id value)
    | inl (old, r) ↦ elim (Result-cases (downcast_verified old)) [
      | inr (e, d) ↦ rw (r, d, try_add_verified_value) (err-Weighs e (weight s))
      | inl (v, d) ↦ elim (Result-cases (downcast_verified value)) [
        | inr (e, f) ↦ rw (r, d, f, try_add_verified_value) (err-Weighs e (weight s))
        | inl (w, f) ↦ rw (r, d, f, try_add_verified_value) (received_again-Weighs s id v w)
      ]
    ]
  ]

  no_more :
      {r : Result RuntimeError (Session P × AddSessionUpdate)} {n : ℕ}
      → Weighs r n
      → Weighs r (n + 0)
  no_more w s' change h = omega (arith, w s' change h)

  -- An update adds at most the values that it brings in to be checked.
  pub weight-with_update_inner :
      (s s' : Session P) (update : SessionUpdate P) (change : AddSessionUpdate)
      → with_update_inner s update ≡ ok (s', change)
      → weight s' ≤ weight s + incoming update
  unfolding with_update_inner incoming
  weight-with_update_inner s s' update change h = omega (arith, weighs update s' change h)
    where
      weighs :
          (update : SessionUpdate P)
          → Weighs (with_update_inner s update) (weight s + incoming update)
      weighs no_action_needed = ok-Weighs _ (weight s + 0) (omega arith)
      weighs (sent_bc n) = no_more (add_scalar-Weighs s _ _)
      weighs (sent_dm n id) = no_more (add_element-Weighs s _ id _)
      weighs (received id m) = add_message-Weighs s id m
      weighs (computed_scalar t v) = no_more (add_scalar-Weighs s t v)
      weighs (computed_mapping_element t id v) = no_more (add_element-Weighs s t id v)
      weighs (preprocessed t id v) = no_more (preprocessed-Weighs s t id v)
      weighs (runtime_error e) = err-Weighs e _
      weighs (spurious_error t e) = ok-Weighs _ (weight s + 0) (omega arith)
      weighs (sender_error t id e on_error) = no_more (sender_failed-Weighs s t id on_error _)
      weighs (sender_error_with_reveal t id e on_error) =
          no_more (sender_failed-Weighs s t id on_error _)
      weighs (third_party_error t e) = no_more (provable-Weighs s _)
      weighs (message_error id d) = ok-Weighs _ (weight s + 0) (omega arith)
      weighs (external_ban id reason) = no_more (ban-Weighs s id reason)
      weighs (merged_scalars n v) = no_more (add_scalar-Weighs s _ v)
      weighs (collected t v) = no_more (add_scalar-Weighs s t v)
