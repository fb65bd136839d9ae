-- ===== src/Collections/BTreeMap/Keys.antt =====
-- The keys of a `BTreeMap`: none stands twice.
use ayatori.Prelude.{◌≡◌, refl, false, [], ◌∷◌, none, arith, ite}
use ayatori.Collections.Order.{Ord}
use ayatori.Collections.BTreeMap.{BTreeMap, get, contains_key, remove, update}

module _ {K V : Type 0} ⦃o : Ord K⦄ where
  abbrev pub HasDistinctKeys : BTreeMap K V → Type 0
  HasDistinctKeys [] = Unit
  HasDistinctKeys ((k, v) ∷ m) = (contains_key m k ≡ false) × HasDistinctKeys m

  pub get_of_missing : (m : BTreeMap K V) (k : K) → contains_key m k ≡ false → get m k ≡ none
  unfolding get contains_key
  get_of_missing [] k h = refl
  get_of_missing ((j, v) ∷ m) k h = ground (arith, get_of_missing m k)

  contains_key-update :
      (m : BTreeMap K V) (k j : K) (f : V → V) → contains_key (update m k f) j ≡ contains_key m j
  unfolding contains_key update
  contains_key-update [] k j f = refl
  contains_key-update ((i, v) ∷ m) k j f = ground (arith, contains_key-update m k j f)

  contains_key-remove :
      (m : BTreeMap K V) (k j : K)
      → contains_key (remove m k) j ≡ ite (o.dec j k) false (contains_key m j)
  unfolding contains_key remove
  contains_key-remove [] k j = ground arith
  contains_key-remove ((i, v) ∷ m) k j = ground (arith, contains_key-remove m k j)

  pub update-HasDistinctKeys :
      (m : BTreeMap K V) (k : K) (f : V → V) → HasDistinctKeys m → HasDistinctKeys (update m k f)
  unfolding update
  update-HasDistinctKeys [] k f d = tt
  update-HasDistinctKeys ((i, v) ∷ m) k f d =
      ground (arith, update-HasDistinctKeys m k f d.1, contains_key-update m k i f)

  pub remove-HasDistinctKeys :
      (m : BTreeMap K V) (k : K) → HasDistinctKeys m → HasDistinctKeys (remove m k)
  unfolding remove
  remove-HasDistinctKeys [] k d = tt
  remove-HasDistinctKeys ((i, v) ∷ m) k d =
      ground (arith, remove-HasDistinctKeys m k d.1, contains_key-remove m k i)
