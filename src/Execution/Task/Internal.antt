-- ===== src/Execution/Task/Internal.antt =====
-- The updates that the tasks of ayatori/src/execution/task.rs give: only the check of a received
-- value brings one into the session.
use ayatori.Prelude.{◌≡◌, ◌⊎◌, refl, true, inl, inr}
use ayatori.Collections.Order.{Ord}
use ayatori.Entities.Params.{SessionParameters}
use ayatori.Execution.Compute.Internal.{
  internal, execute_scalar_unattributable-internal, execute_scalar_unattributable_optional-internal,
  execute_scalar_third_party_attributable-internal, execute_element_unattributable-internal,
  execute_element_sender_attributable-internal,
  execute_element_sender_attributable_with_reveal-internal,
  execute_element_third_party_attributable-internal, execute_deserialize_element-internal,
  execute_rng_scalar_unattributable-internal, execute_rng_element_unattributable-internal,
  execute_serialize_and_sign_scalar-internal, execute_serialize_and_sign_element-internal,
}
use ayatori.Execution.Preprocess.{PreprocessMessageTask}
use ayatori.Execution.Preprocess
use ayatori.Execution.Task.{DeterministicTask, RandomizedTask, execute, execute_randomized}

module _ {P : SessionParameters} where
  -- A task that needs no random bytes is the check of a received value, or its update brings no
  -- message into the session.
  pub execute-internal :
      ⦃o : Ord P.Verifier⦄
      → (task : DeterministicTask P)
      → ((t : PreprocessMessageTask P) × (task ≡ DeterministicTask.preprocess_message t))
        ⊎ (internal (execute task) ≡ true)
  unfolding execute internal
  execute-internal (DeterministicTask.scalar_unattributable n f a) =
      inr (execute_scalar_unattributable-internal n f a)
  execute-internal (DeterministicTask.scalar_unattributable_optional n f a) =
      inr (execute_scalar_unattributable_optional-internal n f a)
  execute-internal (DeterministicTask.scalar_third_party_attributable n f a) =
      inr (execute_scalar_third_party_attributable-internal n f a)
  execute-internal (DeterministicTask.element_unattributable n f i a) =
      inr (execute_element_unattributable-internal n f i a)
  execute-internal (DeterministicTask.element_sender_attributable n f i a e) =
      inr (execute_element_sender_attributable-internal n f i a e)
  execute-internal (DeterministicTask.element_sender_attributable_with_reveal n f i a e) =
      inr (execute_element_sender_attributable_with_reveal-internal n f i a e)
  execute-internal (DeterministicTask.element_third_party_attributable n f i a) =
      inr (execute_element_third_party_attributable-internal n f i a)
  execute-internal (DeterministicTask.deserialize_element n f i a e) =
      inr (execute_deserialize_element-internal n f i a e)
  execute-internal (DeterministicTask.preprocess_message t) = inl (t, refl)
  execute-internal (DeterministicTask.merge_scalars n v) = inr refl
  execute-internal (DeterministicTask.collect t v) = inr refl

  -- The update of a task that draws random bytes brings no message into the session.
  pub execute_randomized-internal :
      (task : RandomizedTask P) (rng : P.Rng) → internal (execute_randomized task rng).0 ≡ true
  unfolding execute_randomized
  execute_randomized-internal (RandomizedTask.scalar_unattributable n f a) rng =
      execute_rng_scalar_unattributable-internal n f a rng
  execute_randomized-internal (RandomizedTask.element_unattributable n f i a) rng =
      execute_rng_element_unattributable-internal n f i a rng
  execute_randomized-internal (RandomizedTask.serialize_and_sign_scalar n f a) rng =
      execute_serialize_and_sign_scalar-internal n f a rng
  execute_randomized-internal (RandomizedTask.serialize_and_sign_element n f i a) rng =
      execute_serialize_and_sign_element-internal n f i a rng

  pub execute-preprocess_message :
      ⦃o : Ord P.Verifier⦄
      → (t : PreprocessMessageTask P)
      → execute (DeterministicTask.preprocess_message t) ≡ Preprocess.execute t
  unfolding execute
  execute-preprocess_message t = refl
