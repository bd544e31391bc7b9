-- ===== src/Base/Maps.antt =====
-- `std::collections::HashMap` as an association list with one entry for a key. The program never
-- relies on the order of its entries.
use Prim.Native.Nat.{ℕ}
use mathlib.Core.Logic.{◌≢◌, ◌⊎◌, inl, inr}
use mathlib.Core.Bool.{Bool, true, false, ◌||◌}
use mathlib.Core.Path.{◌≡◌, refl}
use mathlib.Core.Option.{Option, none, some}
use mathlib.Core.List.{List, [], ◌∷◌}
use native.Mathlib.Omega.{arith}
use patina_rpc.Base.Tests.{Key, ◌==◌, if◌then◌else◌, nat_eq, Bool-cases}

abbrev pub Assoc {ℓ κ} : Type ℓ → Type κ → Type (ℓ ⊔ κ)
Assoc K V = List (K × V)

module _ {ℓ κ} {K : Type ℓ} {V : Type κ} ⦃e : Key K⦄ where
  unfoldable pub lookup : K → Assoc K V → Option V
  lookup k [] = none
  lookup k ((j, v) ∷ m) = if j == k then some v else lookup k m

  unfoldable pub remove : K → Assoc K V → Assoc K V
  remove k [] = []
  remove k ((j, v) ∷ m) = let rest = remove k m in if j == k then rest else (j, v) ∷ rest

  unfoldable pub insert : K → V → Assoc K V → Assoc K V
  unfolding remove
  insert k v m = (k, v) ∷ remove k m

  pub lookup-remove :
      (k j : K) (m : Assoc K V) → lookup j (remove k m) ≡ (if k == j then none else lookup j m)
  unfolding lookup remove
  lookup-remove k j [] = ground arith
  lookup-remove k j ((i, v) ∷ m) =
      ground (arith, lookup-remove k j m, e.same_iff i k, e.same_iff i j, e.same_iff k j)

  pub lookup-insert :
      (k j : K) (v : V) (m : Assoc K V)
      → lookup j (insert k v m) ≡ (if k == j then some v else lookup j m)
  unfolding lookup insert
  lookup-insert k j v m = ground (arith, lookup-remove k j m)

  -- A map in which no key is found has no entry.
  pub eq-nil_of_lookup : (m : Assoc K V) → ((k : K) → lookup k m ≡ none) → m ≡ []
  unfolding lookup
  eq-nil_of_lookup [] h = refl
  eq-nil_of_lookup ((j, v) ∷ m) h = absurd (ground (arith, h j, e.same_iff j j))

-- Maps from numbers to numbers, entry by entry.
abbrev pub Has : ℕ → ℕ → Assoc ℕ ℕ → Type 0
Has k v [] = ⊥
Has k v ((j, w) ∷ m) = ((j ≡ k) × (w ≡ v)) ⊎ Has k v m

abbrev pub has_value : ℕ → Assoc ℕ ℕ → Bool
has_value v [] = false
has_value v ((j, w) ∷ m) = (w == v) || has_value v m

pub lookup-Has : (k v : ℕ) (m : Assoc ℕ ℕ) → lookup k m ≡ some v → Has k v m
unfolding lookup
lookup-Has k v [] h = cc
lookup-Has k v ((j, w) ∷ m) h = ground (arith, lookup-Has k v m)

pub has_value_of_lookup : (k v : ℕ) (m : Assoc ℕ ℕ) → lookup k m ≡ some v → has_value v m ≡ true
unfolding lookup
has_value_of_lookup k v [] h = cc
has_value_of_lookup k v ((j, w) ∷ m) h = ground (arith, has_value_of_lookup k v m)

pub has_value-Has : (v : ℕ) (m : Assoc ℕ ℕ) → has_value v m ≡ true → (k : ℕ) × Has k v m
has_value-Has v [] h = cc
has_value-Has v ((j, w) ∷ m) h = elim (Bool-cases (w == v)) [
  | inl here ↦ (j, inl (refl, ground arith))
  | inr there ↦ let (k, e) = has_value-Has v m (ground arith) in (k, inr e)
]

pub Has-remove : (i k v : ℕ) (m : Assoc ℕ ℕ) → Has k v (remove i m) → Has k v m × (k ≢ i)
unfolding remove
Has-remove i k v [] h = absurd h
Has-remove i k v ((j, w) ∷ m) h = elim (Bool-cases (j == i)) [
  | inl hit ↦ let (a, b) = Has-remove i k v m (rw hit at h) in (inr a, b)
  | inr miss ↦ elim (rw miss at h) [
    | inl (p, q) ↦ (inl (p, q), ground arith)
    | inr t ↦ let (a, b) = Has-remove i k v m t in (inr a, b)
  ]
]
