-- ===== src/Codec/Framing.antt =====
-- What the program relies on of `tokio_util::codec::LengthDelimitedCodec`, built with a length
-- field of four bytes, big endian, and a limit on the length of a frame.
use patina_rpc.Base.{
  ℕ, ◌+◌, ◌*◌, ◌/◌, ◌%◌, ◌^◌, ◌≤◌, ◌<◌, ◌≡◌, List, [], ◌∷◌, ◌++◌, Option, none, some, Result, ok,
  err, length, take, drop, ltb, if◌then◌else◌,
}
use patina_rpc.Error.{IoError, invalid_data, invalid_input}

-- The big-endian length field.
abbrev pub length_field : ℕ → List ℕ
length_field n = (n / 2 ^ 24 % 256) ∷ (n / 2 ^ 16 % 256) ∷ (n / 2 ^ 8 % 256) ∷ (n % 256) ∷ []

abbrev pub field_value : List ℕ → ℕ
field_value (a ∷ b ∷ c ∷ d ∷ bs) = ((a * 256 + b) * 256 + c) * 256 + d
field_value _ = 0

-- What a decoder finds at the front of the bytes that have arrived and belong to no earlier frame.
pub data Arrived : Type 0 where
  incomplete : Arrived
  too_long : Arrived
  frame : (body rest : List ℕ) → Arrived

unfoldable pub arrived : ℕ → List ℕ → Arrived
arrived max bytes =
    let n = field_value bytes in
    if ltb (length bytes) 4
    then incomplete
    else if ltb max n
    then too_long
    else if ltb (length bytes) (4 + n)
    then incomplete
    else frame (take n (drop 4 bytes)) (drop n (drop 4 bytes))

-- The results of `decode` and `encode`, with the codec and the buffer that they leave.
pub record Decoded (S A E : Type 0) : Type 0 where
  pub result : Result (Option A) E
  pub codec : S
  pub src : List ℕ

pub record Encoded (S E : Type 0) : Type 0 where
  pub result : Result (Unit {0}) E
  pub codec : S
  pub dst : List ℕ

-- `S` is the codec's state: between calls it may have taken a length field off the buffer already,
-- which `taken` gives.
pub record LengthDelimited (S : Type 0) : Type 0 where
  -- `builder().length_field_length(width).max_frame_length(max).new_codec()`
  pub new_codec : (width max : ℕ) → S
  pub decode : S → List ℕ → Decoded S (List ℕ) IoError
  pub encode : S → List ℕ → List ℕ → Encoded S IoError
  pub taken : S → List ℕ
  pub limit : S → ℕ
  pub new_codec-taken : (max : ℕ) → taken (new_codec 4 max) ≡ []
  pub new_codec-limit : (max : ℕ) → max < 2 ^ 32 → limit (new_codec 4 max) ≡ max
  pub decode_incomplete :
      (s : S) (src : List ℕ)
      → arrived (limit s) (taken s ++ src) ≡ incomplete
      → (taken (decode s src).codec ++ (decode s src).src ≡ taken s ++ src)
        × (limit (decode s src).codec ≡ limit s)
        × ((decode s src).result ≡ ok none)
  pub decode_too_long :
      (s : S) (src : List ℕ)
      → arrived (limit s) (taken s ++ src) ≡ too_long
      → (e : IoError) × ((decode s src).result ≡ err e) × (e.kind ≡ invalid_data)
  pub decode_frame :
      (s : S) (src body rest : List ℕ)
      → arrived (limit s) (taken s ++ src) ≡ frame body rest
      → (taken (decode s src).codec ≡ [])
        × ((decode s src).src ≡ rest)
        × (limit (decode s src).codec ≡ limit s)
        × ((decode s src).result ≡ ok (some body))
  pub encode_fits :
      (s : S) (body dst : List ℕ)
      → length body ≤ limit s
      → ((encode s body dst).result ≡ ok tt)
        × ((encode s body dst).dst ≡ dst ++ (length_field (length body) ++ body))
        × ((encode s body dst).codec ≡ s)
  pub encode_too_long :
      (s : S) (body dst : List ℕ)
      → limit s < length body
      → (e : IoError) × ((encode s body dst).result ≡ err e)
        × (e.kind ≡ invalid_input)
        × ((encode s body dst).dst ≡ dst)
        × ((encode s body dst).codec ≡ s)
