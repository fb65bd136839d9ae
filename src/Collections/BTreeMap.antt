-- ===== src/Collections/BTreeMap.antt =====
-- `alloc::collections::BTreeMap`: its entries in the order of the keys, no key twice.
pub mod Keys
use ayatori.Prelude.{
  ◌≡◌, refl, Bool, true, false, List, [], ◌∷◌, Option, none, some, ite, arith, if◌then◌else◌, map,
}
use ayatori.Collections.Order.{Ord}

abbrev pub BTreeMap : Type 0 → Type 0 → Type 0
BTreeMap K V = List (K × V)

module _ {K V : Type 0} ⦃o : Ord K⦄ where
  unfoldable pub get : BTreeMap K V → K → Option V
  get [] k = none
  get ((j, v) ∷ m) k = ite (o.dec k j) (some v) (get m k)

  unfoldable pub contains_key : BTreeMap K V → K → Bool
  contains_key [] k = false
  contains_key ((j, v) ∷ m) k = ite (o.dec k j) true (contains_key m k)

  -- The place of a new key, and a new value for a key that is there.
  unfoldable pub place : K → V → BTreeMap K V → BTreeMap K V
  place k v [] = (k, v) ∷ []
  place k v ((j, w) ∷ m) = if o.less k j then (k, v) ∷ (j, w) ∷ m else (j, w) ∷ place k v m

  unfoldable pub overwrite : K → V → BTreeMap K V → BTreeMap K V
  overwrite k v [] = []
  overwrite k v ((j, w) ∷ m) = ite (o.dec k j) ((j, v) ∷ m) ((j, w) ∷ overwrite k v m)

  unfoldable pub insert : BTreeMap K V → K → V → BTreeMap K V
  insert m k v = if contains_key m k then overwrite k v m else place k v m

  unfoldable pub remove : BTreeMap K V → K → BTreeMap K V
  remove [] k = []
  remove ((j, v) ∷ m) k = ite (o.dec k j) (remove m k) ((j, v) ∷ remove m k)

  -- `get_mut(k).map(f)`: a key that is not there is left out.
  unfoldable pub update : BTreeMap K V → K → (V → V) → BTreeMap K V
  update [] k f = []
  update ((j, v) ∷ m) k f = ite (o.dec k j) ((j, f v) ∷ m) ((j, v) ∷ update m k f)

  -- `entry(k).or_default()`, with the default as an argument.
  unfoldable pub get_or : BTreeMap K V → K → V → V
  get_or m k d = elim (get m k) [ none ↦ d | some v ↦ v ]

  get-place :
      (k j : K) (v : V) (m : BTreeMap K V)
      → contains_key m k ≡ false
      → get (place k v m) j ≡ ite (o.dec j k) (some v) (get m j)
  unfolding get place contains_key
  get-place k j v [] h = refl
  get-place k j v ((i, w) ∷ m) h = ground (arith, get-place k j v m)

  get-overwrite :
      (k j : K) (v : V) (m : BTreeMap K V)
      → contains_key m k ≡ true
      → get (overwrite k v m) j ≡ ite (o.dec j k) (some v) (get m j)
  unfolding get overwrite contains_key
  get-overwrite k j v [] h = ground arith
  get-overwrite k j v ((i, w) ∷ m) h = ground (arith, get-overwrite k j v m)

  pub get-insert :
      (m : BTreeMap K V) (k j : K) (v : V)
      → get (insert m k v) j ≡ ite (o.dec j k) (some v) (get m j)
  unfolding insert
  get-insert m k j v = ground (arith, get-place k j v m, get-overwrite k j v m)

  pub get-remove :
      (m : BTreeMap K V) (k j : K) → get (remove m k) j ≡ ite (o.dec j k) none (get m j)
  unfolding get remove
  get-remove [] k j = ground arith
  get-remove ((i, v) ∷ m) k j = ground (arith, get-remove m k j)

  pub get-update :
      (m : BTreeMap K V) (k j : K) (f : V → V)
      → get (update m k f) j
        ≡ ite (o.dec j k) (elim (get m j) [ none ↦ none | some v ↦ some (f v) ]) (get m j)
  unfolding get update
  get-update [] k j f = ground arith
  get-update ((i, v) ∷ m) k j f = ground (arith, get-update m k j f)

module _ {K V : Type 0} where
  abbrev pub keys : BTreeMap K V → List K
  keys = map (λ e. e.0)

  abbrev pub values : BTreeMap K V → List V
  values = map (λ e. e.1)
