-- ===== src/Examples/Parts/Framing.antt =====
-- A length-delimited codec that keeps the bytes it has read of a frame.
use patina_rpc.Base.{
  ℕ, ◌≤◌, ◌<◌, ◌≡◌, inl, inr, refl, List, [], ◌++◌, Bool, true, false, none, some, ok, err, ltb,
  arith, length, nat_eq, Bool-cases,
}
use patina_rpc.Error.{IoError, ErrorKind, invalid_data, invalid_input}
use patina_rpc.Codec.{
  LengthDelimited, Decoded, Encoded, Arrived, arrived, incomplete, too_long, length_field,
}
use mathlib.Core.List.{append-nil}

-- The bytes that were read of a frame, and the limit.
pub record Framer : Type 0 where
  pub taken : List ℕ
  pub max : ℕ

abbrev io_error : ErrorKind → IoError
io_error k = record { kind = k; text = "frame size too big" }

abbrev decode_arrived : Arrived → List ℕ → ℕ → Decoded Framer (List ℕ) IoError
decode_arrived incomplete bytes max = record {
  result = ok none;
  codec = record { taken = bytes; max = max };
  src = [];
}
decode_arrived too_long bytes max = record {
  result = err (io_error invalid_data);
  codec = record { taken = bytes; max = max };
  src = [];
}
decode_arrived (Arrived.frame body rest) bytes max = record {
  result = ok (some body);
  codec = record { taken = []; max = max };
  src = rest;
}

abbrev encode_frame : Bool → Framer → List ℕ → List ℕ → Encoded Framer IoError
encode_frame true s body dst = record {
  result = err (io_error invalid_input);
  codec = s;
  dst = dst;
}
encode_frame false s body dst = record {
  result = ok tt;
  codec = s;
  dst = dst ++ (length_field (length body) ++ body);
}

abbrev decode_framer : Framer → List ℕ → Decoded Framer (List ℕ) IoError
decode_framer s src = decode_arrived (arrived s.max (s.taken ++ src)) (s.taken ++ src) s.max

pub decode_framer_incomplete :
    (s : Framer) (src : List ℕ)
    → arrived s.max (s.taken ++ src) ≡ incomplete
    → ((decode_framer s src).codec.taken ++ (decode_framer s src).src ≡ s.taken ++ src)
      × ((decode_framer s src).codec.max ≡ s.max)
      × ((decode_framer s src).result ≡ ok none)
decode_framer_incomplete s src e = rw e (append-nil _, refl, refl)

pub decode_framer_too_long :
    (s : Framer) (src : List ℕ)
    → arrived s.max (s.taken ++ src) ≡ too_long
    → (e : IoError) × ((decode_framer s src).result ≡ err e) × (e.kind ≡ invalid_data)
decode_framer_too_long s src e = rw e (io_error invalid_data, refl, refl)

pub decode_framer_frame :
    (s : Framer) (src body rest : List ℕ)
    → arrived s.max (s.taken ++ src) ≡ Arrived.frame body rest
    → ((decode_framer s src).codec.taken ≡ [])
      × ((decode_framer s src).src ≡ rest)
      × ((decode_framer s src).codec.max ≡ s.max)
      × ((decode_framer s src).result ≡ ok (some body))
decode_framer_frame s src body rest e = rw e (refl, refl, refl, refl)

abbrev encode_framer : Framer → List ℕ → List ℕ → Encoded Framer IoError
encode_framer s body dst = encode_frame (ltb s.max (length body)) s body dst

pub encode_framer_fits :
    (s : Framer) (body dst : List ℕ)
    → length body ≤ s.max
    → ((encode_framer s body dst).result ≡ ok tt)
      × ((encode_framer s body dst).dst ≡ dst ++ (length_field (length body) ++ body))
      × ((encode_framer s body dst).codec ≡ s)
encode_framer_fits s body dst h = elim (Bool-cases (ltb s.max (length body))) [
  | inl over ↦ absurd (ground arith)
  | inr fits ↦ rw fits (refl, refl, refl)
]

pub encode_framer_too_long :
    (s : Framer) (body dst : List ℕ)
    → s.max < length body
    → (e : IoError) × ((encode_framer s body dst).result ≡ err e)
      × (e.kind ≡ invalid_input)
      × ((encode_framer s body dst).dst ≡ dst)
      × ((encode_framer s body dst).codec ≡ s)
encode_framer_too_long s body dst h = elim (Bool-cases (ltb s.max (length body))) [
  | inl over ↦ rw over (io_error invalid_input, refl, refl, refl, refl)
  | inr fits ↦ absurd (ground arith)
]

abbrev pub framer : LengthDelimited Framer
framer = record {
  new_codec = λ width max. record { taken = []; max = max };
  decode = decode_framer;
  encode = encode_framer;
  taken = λ s. s.taken;
  limit = λ s. s.max;
  new_codec-taken = λ max. refl;
  new_codec-limit = λ max h. refl;
  decode_incomplete = decode_framer_incomplete;
  decode_too_long = decode_framer_too_long;
  decode_frame = decode_framer_frame;
  encode_fits = encode_framer_fits;
  encode_too_long = encode_framer_too_long;
}
