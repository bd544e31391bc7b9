-- ===== src/Codec/Frames.antt =====
-- What stands at the front of a byte stream that holds whole frames.
use patina_rpc.Base.{
  ℕ, ◌^◌, ◌≤◌, ◌<◌, ◌≡◌, refl, ap, List, [], ◌∷◌, ◌++◌, length, length-append, take-append,
  drop-append, arith,
}
use patina_rpc.Codec.Framing.{length_field, field_value, incomplete, too_long, frame, arrived}

abbrev pub frame_bytes : List ℕ → List ℕ
frame_bytes body = length_field (length body) ++ body

pub field_value-length_field :
    (n : ℕ) (rest : List ℕ) → n < 2 ^ 32 → field_value (length_field n ++ rest) ≡ n
field_value-length_field n rest h = omega arith

pub field_value-append : (xs ys : List ℕ) → 4 ≤ length xs → field_value (xs ++ ys) ≡ field_value xs
field_value-append [] ys h = absurd (omega arith)
field_value-append (a ∷ []) ys h = absurd (omega arith)
field_value-append (a ∷ b ∷ []) ys h = absurd (omega arith)
field_value-append (a ∷ b ∷ c ∷ []) ys h = absurd (omega arith)
field_value-append (a ∷ b ∷ c ∷ d ∷ xs) ys h = refl

-- A whole frame within the limit is found, with what follows it.
pub arrived-frame_bytes :
    (max : ℕ) (body rest : List ℕ)
    → length body ≤ max
    → length body < 2 ^ 32
    → arrived max (frame_bytes body ++ rest) ≡ frame body rest
unfolding arrived
arrived-frame_bytes max body rest fits small = ground (
  arith,
  field_value-length_field (length body) (body ++ rest) small,
  length-append body rest,
  take-append body rest,
  drop-append body rest,
)

-- A part of a frame that lacks a byte at least is no frame yet.
pub arrived-part :
    (max : ℕ) (body part : List ℕ) (x : ℕ) (more : List ℕ)
    → length body ≤ max
    → length body < 2 ^ 32
    → frame_bytes body ≡ part ++ (x ∷ more)
    → arrived max part ≡ incomplete
unfolding arrived
arrived-part max body part x more fits small e = ground (
  arith,
  ap length e,
  length-append part (x ∷ more),
  field_value-append part (x ∷ more),
  field_value-length_field (length body) body small,
  ap field_value e,
)

pub arrived_too_long :
    (max : ℕ) (bytes : List ℕ)
    → 4 ≤ length bytes
    → max < field_value bytes
    → arrived max bytes ≡ too_long
unfolding arrived
arrived_too_long max bytes full over = ground arith

pub arrived-nil : (max : ℕ) → arrived max [] ≡ incomplete
unfolding arrived
arrived-nil max = refl
