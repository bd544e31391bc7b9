-- ===== src/Codec/Serde.antt =====
-- What the program relies on of `bincode::serde` under `bincode::config::standard()`, for the
-- values of one serialisable type.
use mathlib.Core.List.{append-nil}
use patina_rpc.Base.{ℕ, ◌≡◌, sym, ap, ◌∙◌, List, [], ◌++◌, Result, ok, length}
use patina_rpc.Error.{EncodeError, DecodeError}

pub record Bincode (T : Type 0) : Type 0 where
  -- `encode_to_vec` and `decode_from_slice`, which also returns how many bytes it read.
  pub encode_to_vec : T → Result (List ℕ) EncodeError
  pub decode_from_slice : List ℕ → Result (T × ℕ) DecodeError
  -- What was encoded is decoded, from the front of a slice: bytes behind it are not looked at.
  pub decode-encode :
      (t : T) (bytes rest : List ℕ)
      → encode_to_vec t ≡ ok bytes
      → decode_from_slice (bytes ++ rest) ≡ ok (t, length bytes)

-- What was encoded is decoded, and nothing is left.
pub decode-encode_whole :
    {T : Type 0} (bin : Bincode T) (t : T) (bytes : List ℕ)
    → bin.encode_to_vec t ≡ ok bytes
    → bin.decode_from_slice bytes ≡ ok (t, length bytes)
decode-encode_whole bin t bytes h =
    ap bin.decode_from_slice (sym (append-nil bytes)) ∙ bin.decode-encode t bytes [] h
