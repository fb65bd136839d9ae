-- ===== src/Entities/Errors.antt =====
-- ayatori/src/entities/errors.rs and the `Result` that the program returns. An error's text is a
-- constructor that names the check which failed, and the context that a caller adds to the text
-- (`with_context`, `or_with_context`) is left out.
use ayatori.Prelude.{String, List, ◌≡◌, refl, ◌⊎◌, inl, inr, arith}
use ayatori.Entities.Tags.{ScalarTag, MappingTag}

pub data RuntimeError : Type 0 where
  scalar_not_found scalar_already_stored : ScalarTag → RuntimeError
  mapping_not_found element_not_found element_already_stored : MappingTag → RuntimeError
  neither_found : ScalarTag → ScalarTag → RuntimeError
  wrong_type : RuntimeError
  different_session_ids : RuntimeError
  serialization_failed signing_failed : RuntimeError
  no_signer : RuntimeError
  intersecting_names missing_arguments : List String → RuntimeError
  unexpected_state unexpected_send : RuntimeError
  argument_not_found : String → RuntimeError
  -- an error of a function of the protocol
  failed : String → RuntimeError

pub data Result (E A : Type 0) : Type 0 where
  ok : A → Result E A
  err : E → Result E A

pub ok_injective : {E A : Type 0} {a b : A} → Path (Result E A) (ok a) (ok b) → a ≡ b
ok_injective h = ground arith

pub Result-cases :
    {E A : Type 0} (r : Result E A) → ((a : A) × (r ≡ ok a)) ⊎ ((e : E) × (r ≡ err e))
Result-cases (ok a) = inl (a, refl)
Result-cases (err e) = inr (e, refl)

infixl 10 ◌>>=◌ ◌>>◌
abbrev pub ◌>>=◌ : {E A B : Type 0} → Result E A → (A → Result E B) → Result E B
ok a >>= f = f a
err e >>= f = err e

abbrev pub ◌>>◌ : {E B : Type 0} → Result E (Unit {0}) → Result E B → Result E B
m >> k = m >>= λ _. k

-- A chain succeeds where each step of it does.
pub bind-ok :
    {E A B : Type 0} (r : Result E A) (f : A → Result E B) (b : B)
    → (r >>= f) ≡ ok b
    → (a : A) × (r ≡ ok a) × (f a ≡ ok b)
bind-ok (ok a) f b h = (a, refl, h)
bind-ok (err e) f b h = ground (arith, h)

-- A spurious error, and the error of a sender, are their descriptions.
abbrev pub SpuriousError : Type 0
SpuriousError = String

abbrev pub SenderError : Type 0
SenderError = String

pub data UnattributableError : Type 0 where
  spurious : SpuriousError → UnattributableError
  runtime : RuntimeError → UnattributableError

pub data MaybeAttributableError (E : Type 0) : Type 0 where
  runtime : RuntimeError → MaybeAttributableError E
  attributable : E → MaybeAttributableError E
