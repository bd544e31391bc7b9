-- ===== src/Codec.antt =====
-- crates/patina-rpc/src/codec.rs: `WireCodec`, an `Envelope` in `bincode` behind a length prefix.
-- The two layers that it composes are third-party code, and parameters: the child `Framing` says
-- what is relied on of `LengthDelimitedCodec`, the child `Serde` what of `bincode`.
mod Framing
mod Serde
unfoldable pub use Framing.*
pub use Serde.*
pub mod Frames
pub mod RoundTrip
pub mod Refusals
pub mod Stream
pub mod Default
pub mod Tests
use patina_rpc.Base.{ℕ, ◌*◌, List, Option, none, some, Result, ok, err, ◌>>=◌, map_err}
use patina_rpc.Envelope.{Envelope}
use patina_rpc.Error.{WireError, IoError}
use Framing.{Decoded, Encoded, LengthDelimited}
use Serde.{Bincode}

abbrev pub default_max_frame_len : ℕ
default_max_frame_len = 64 * 1024 * 1024

pub record WireCodec (S : Type 0) : Type 0 where
  pub inner : S

module _ {S : Type 0} (ldc : LengthDelimited S) where
  unfoldable pub with_max_frame_length : ℕ → WireCodec S
  with_max_frame_length max = record { inner = ldc.new_codec 4 max }

  unfoldable pub new : WireCodec S
  unfolding with_max_frame_length
  new = with_max_frame_length default_max_frame_len

module _ {S : Type 0} (ldc : LengthDelimited S) (bin : Bincode Envelope) where
  -- The body of `decode` behind the framing: no frame yet, or one that is deserialised.
  unfoldable pub envelope_of : Option (List ℕ) → Result (Option Envelope) WireError
  envelope_of none = ok none
  envelope_of (some body) = do
    (envelope, _read) ← map_err WireError.decode (bin.decode_from_slice body)
    ok (some envelope)

  -- `impl Decoder for WireCodec`; `src` is what the call leaves in the buffer.
  unfoldable pub decode : WireCodec S → List ℕ → Decoded (WireCodec S) Envelope WireError
  unfolding envelope_of
  decode c src = record {
    result = map_err WireError.io framed.result >>= envelope_of;
    codec = record { inner = framed.codec };
    src = framed.src;
  }
    where
      framed : Decoded S (List ℕ) IoError
      framed = ldc.decode c.inner src

  -- `impl Encoder<Envelope> for WireCodec`
  unfoldable pub encode : WireCodec S → Envelope → List ℕ → Encoded (WireCodec S) WireError
  encode c item dst = elim (bin.encode_to_vec item) [
    | err e ↦ record { result = err (WireError.encode e); codec = c; dst = dst }
    | ok bytes ↦
        let framed = ldc.encode c.inner bytes dst in
        record {
          result = map_err WireError.io framed.result;
          codec = record { inner = framed.codec };
          dst = framed.dst;
        }
  ]
