-- ===== src/Base/Lists.antt =====
-- Lists measured by native numbers, under the library's names.
use Prim.Native.Nat.{ℕ, zero, suc, ◌+◌}
use mathlib.Core.Path.{◌≡◌, refl, ap, sym, subst}
use mathlib.Core.List.{List, [], ◌∷◌, ◌++◌, map, Memᴰ, append_assoc, append-nil}
use mathlib.Core.List.Memᴰ.{head, tail}
use mathlib.Core.Logic.{◌⊎◌, inl, inr}
use native.Mathlib.Omega.{arith}

module _ {ℓ} {A : Type ℓ} where
  abbrev pub length : List A → ℕ
  length [] = 0
  length (x ∷ xs) = suc (length xs)

  abbrev pub take : ℕ → List A → List A
  take zero xs = []
  take (suc n) [] = []
  take (suc n) (x ∷ xs) = x ∷ take n xs

  abbrev pub drop : ℕ → List A → List A
  drop zero xs = xs
  drop (suc n) [] = []
  drop (suc n) (x ∷ xs) = drop n xs

  pub length-append : (xs ys : List A) → length (xs ++ ys) ≡ length xs + length ys
  length-append [] ys = omega arith
  length-append (x ∷ xs) ys = omega (arith, length-append xs ys)

  pub take-append : (xs ys : List A) → take (length xs) (xs ++ ys) ≡ xs
  take-append [] ys = refl
  take-append (x ∷ xs) ys = ap (λ l. x ∷ l) (take-append xs ys)

  pub drop-append : (xs ys : List A) → drop (length xs) (xs ++ ys) ≡ ys
  drop-append [] ys = refl
  drop-append (x ∷ xs) ys = drop-append xs ys

  abbrev pub All {κ} : (A → Type κ) → List A → Type κ
  All P [] = Unit {κ}
  All P (x ∷ xs) = P x × All P xs

pub length-map {ℓ κ} :
    {A : Type ℓ} {B : Type κ} (f : A → B) (xs : List A) → length (map f xs) ≡ length xs
length-map f [] = refl
length-map f (x ∷ xs) = ap suc (length-map f xs)

module _ {ℓ κ} {A : Type ℓ} (P : A → Type κ) where
  pub All-append : (xs ys : List A) → All P xs → All P ys → All P (xs ++ ys)
  All-append [] ys p q = q
  All-append (x ∷ xs) ys (p, ps) q = (p, All-append xs ys ps q)

  pub All_of_All-append : (xs ys : List A) → All P (xs ++ ys) → All P xs × All P ys
  All_of_All-append [] ys q = (tt, q)
  All_of_All-append (x ∷ xs) ys (p, ps) = let (a, b) = All_of_All-append xs ys ps in ((p, a), b)

  pub All-Mem : (a : A) (xs : List A) → All P xs → Memᴰ a xs → P a
  All-Mem a [] p h = elim h [ ]
  All-Mem a (x ∷ xs) (p, ps) (head e) = subst P (sym e) p
  All-Mem a (x ∷ xs) (p, ps) (tail h) = All-Mem a xs ps h

pub List-cases {ℓ} :
    {A : Type ℓ} (xs : List A) → (xs ≡ []) ⊎ ((x : A) × (rest : List A) × (xs ≡ x ∷ rest))
List-cases [] = inl refl
List-cases (x ∷ xs) = inr (x, xs, refl)

pub Mem-append_left {ℓ} : {A : Type ℓ} (a : A) (xs ys : List A) → Memᴰ a xs → Memᴰ a (xs ++ ys)
Mem-append_left a [] ys h = elim h [ ]
Mem-append_left a (x ∷ xs) ys (head e) = head e
Mem-append_left a (x ∷ xs) ys (tail h) = tail (Mem-append_left a xs ys h)

pub Mem-append_right {ℓ} : {A : Type ℓ} (a : A) (xs ys : List A) → Memᴰ a ys → Memᴰ a (xs ++ ys)
Mem-append_right a [] ys h = h
Mem-append_right a (x ∷ xs) ys h = tail (Mem-append_right a xs ys h)

pub Mem-map {ℓ κ} :
    {A : Type ℓ} {B : Type κ} (f : A → B) (a : A) (xs : List A) → Memᴰ a xs → Memᴰ (f a) (map f xs)
Mem-map f a [] h = elim h [ ]
Mem-map f a (x ∷ xs) (head e) = head (ap f e)
Mem-map f a (x ∷ xs) (tail h) = tail (Mem-map f a xs h)

pub All-map {ℓ κ μ} :
    {A : Type ℓ} {B : Type κ} (P : B → Type μ) (f : A → B) (xs : List A)
    → ((a : A) → Memᴰ a xs → P (f a))
    → All P (map f xs)
All-map P f [] p = tt
All-map P f (x ∷ xs) p = (p x (head refl), All-map P f xs (λ a h. p a (tail h)))

pub All_mono {ℓ κ} :
    {A : Type ℓ} (P Q : A → Type κ) → ((a : A) → P a → Q a) → (xs : List A) → All P xs → All Q xs
All_mono P Q f [] p = tt
All_mono P Q f (x ∷ xs) (p, ps) = (f x p, All_mono P Q f xs ps)

-- Concatenations, nested to the right.
pub ruleset append_laws = (append_assoc, append-nil)
