-- ===== src/Collections/Order.antt =====
-- The trait `Ord`: an equality that is decided, and the test by which entries are put in order.
-- The instances are those of `derive(Ord)`: the fields in turn, and of an `enum` the variants first.
use ayatori.Prelude.{
  ℕ, Bool, true, false, ◌&&◌, ◌||◌, String, List, [], ◌∷◌, Option, none, some, ltb, ite, ℕ_discrete,
  String_discrete,
}
use Prim.Native.Char.{code}

pub record Ord (A : Type 0) : Type 0 where
  pub dec : Discrete A
  pub less : A → A → Bool

abbrev pub same : {A : Type 0} → Discrete A → A → A → Bool
same d a b = ite (d a b) true false

instance abbrev pub nat_ord : Ord ℕ
nat_ord = record { dec = ℕ_discrete; less = ltb }

-- `str` is ordered by its bytes, which for UTF-8 is the order of the code points.
unfoldable pub string_less : String → String → Bool
string_less String.[] String.[] = false
string_less String.[] (String.◌∷◌ d t) = true
string_less (String.◌∷◌ c s) String.[] = false
string_less (String.◌∷◌ c s) (String.◌∷◌ d t) =
    ltb (code c) (code d) || (same ℕ_discrete (code c) (code d) && string_less s t)

instance abbrev pub string_ord : Ord String
string_ord = record { dec = String_discrete; less = string_less }

-- The first field decides, and the rest where it is the same.
abbrev pub less_then : {A : Type 0} → Ord A → A → A → Bool → Bool
less_then o a b rest = o.less a b || (same o.dec a b && rest)

unfoldable pub list_less : {A : Type 0} → Ord A → List A → List A → Bool
list_less o [] [] = false
list_less o [] (y ∷ ys) = true
list_less o (x ∷ xs) [] = false
list_less o (x ∷ xs) (y ∷ ys) = less_then o x y (list_less o xs ys)

unfoldable pub option_less : {A : Type 0} → Ord A → Option A → Option A → Bool
option_less o none none = false
option_less o none (some y) = true
option_less o (some x) none = false
option_less o (some x) (some y) = o.less x y
