-- ===== src/Codec/Default.antt =====
-- `WireCodec::new`, the codec of both ends of a connection (crates/patina-rpc/src/codec.rs).
use patina_rpc.Base.{ℕ, ◌*◌, ◌≡◌, List, [], arith, refl, sym, subst}
use mathlib.Core.List.{flatten}
use patina_rpc.Envelope.{Envelope}
use patina_rpc.Codec.{LengthDelimited, Bincode, new, with_max_frame_length, default_max_frame_len}
use patina_rpc.Codec.RoundTrip.{limit}
use patina_rpc.Codec.Stream.{Bodies, Receives, encode_each, Receives-encode_each}

module _ {S : Type 0} (ldc : LengthDelimited S) (bin : Bincode Envelope) where
  pub limit-new : limit ldc bin (new ldc) ≡ default_max_frame_len
  unfolding new with_max_frame_length
  limit-new = ldc.new_codec-limit default_max_frame_len (omega arith)

  -- Between two codecs as both ends of a connection make them, envelopes that `bincode` encodes
  -- in at most 64 MiB each arrive as they were sent, in their order, however the bytes are cut
  -- into chunks.
  pub new-Receives :
      (es : List Envelope) (bs parts : List (List ℕ))
      → Bodies ldc bin (64 * 1024 * 1024) es bs
      → flatten parts ≡ encode_each ldc bin (new ldc) es []
      → Receives ldc bin (new ldc) [] parts es
  unfolding new with_max_frame_length
  new-Receives es bs parts h arrive =
      Receives-encode_each ldc bin (new ldc) (new ldc) es bs parts
        (subst (λ k. Bodies ldc bin k es bs) (sym limit-new) h) (omega (arith, limit-new)) refl
        (ldc.new_codec-taken default_max_frame_len) arrive
