-- ===== src/Envelope.antt =====
-- crates/patina-rpc/src/envelope.rs: the messages that travel over a connection. A `u64`, `u16` or
-- `u8` is a native number, a `Vec<u8>` a list of them.
use patina_rpc.Base.{
  ℕ, String, List, [], ◌∷◌, Bool, true, false, ◌≡◌, ◌↔◌, refl, arith, Key, nat_eq, string_eq, ◌==◌,
}
use mathlib.Core.Bool.{◌&&◌}

pub record RequestData : Type 0 where
  pub id : ℕ
  pub method : String
  pub payload : List ℕ

pub record ResponseData : Type 0 where
  pub id : ℕ
  pub payload : List ℕ

pub record ErrorData : Type 0 where
  pub id : ℕ
  pub code : ℕ
  pub message : String

pub data Envelope : Type 0 where
  request : RequestData → Envelope
  response : ResponseData → Envelope
  error : ErrorData → Envelope
  heartbeat : Envelope

-- The derived `PartialEq`.
abbrev pub bytes_eq : List ℕ → List ℕ → Bool
bytes_eq [] [] = true
bytes_eq (x ∷ xs) (y ∷ ys) = (x == y) && bytes_eq xs ys
bytes_eq _ _ = false

unfoldable pub eq : Envelope → Envelope → Bool
eq (request a) (request b) =
    (a.id == b.id) && (a.method == b.method) && bytes_eq a.payload b.payload
eq (response a) (response b) = (a.id == b.id) && bytes_eq a.payload b.payload
eq (error a) (error b) = (a.id == b.id) && (a.code == b.code) && (a.message == b.message)
eq heartbeat heartbeat = true
eq _ _ = false

bytes_eq_iff : (xs ys : List ℕ) → (bytes_eq xs ys ≡ true) ↔ (xs ≡ ys)
bytes_eq_iff [] [] = (λ _. refl, λ _. refl)
bytes_eq_iff [] (y ∷ ys) = (λ h. cc, λ h. cc)
bytes_eq_iff (x ∷ xs) [] = (λ h. cc, λ h. cc)
bytes_eq_iff (x ∷ xs) (y ∷ ys) = ground (arith, bytes_eq_iff xs ys)

pub eq_iff : (a b : Envelope) → (eq a b ≡ true) ↔ (a ≡ b)
unfolding eq
eq_iff (request a) (request b) =
    ground (arith, string_eq.same_iff a.method b.method, bytes_eq_iff a.payload b.payload)
eq_iff (response a) (response b) = ground (arith, bytes_eq_iff a.payload b.payload)
eq_iff (error a) (error b) = ground (arith, string_eq.same_iff a.message b.message)
eq_iff heartbeat heartbeat = (λ _. refl, λ _. refl)
eq_iff (request a) (response b) = (λ h. cc, λ h. cc)
eq_iff (request a) (error b) = (λ h. cc, λ h. cc)
eq_iff (request a) heartbeat = (λ h. cc, λ h. cc)
eq_iff (response a) (request b) = (λ h. cc, λ h. cc)
eq_iff (response a) (error b) = (λ h. cc, λ h. cc)
eq_iff (response a) heartbeat = (λ h. cc, λ h. cc)
eq_iff (error a) (request b) = (λ h. cc, λ h. cc)
eq_iff (error a) (response b) = (λ h. cc, λ h. cc)
eq_iff (error a) heartbeat = (λ h. cc, λ h. cc)
eq_iff heartbeat (request b) = (λ h. cc, λ h. cc)
eq_iff heartbeat (response b) = (λ h. cc, λ h. cc)
eq_iff heartbeat (error b) = (λ h. cc, λ h. cc)

instance abbrev pub envelope_eq : Key Envelope
envelope_eq = record { same = eq; same_iff = eq_iff }
