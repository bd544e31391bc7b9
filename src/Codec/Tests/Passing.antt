-- ===== src/Codec/Tests/Passing.antt =====
-- The unit tests of crates/patina-rpc/src/codec.rs pass, whatever libraries are below the codec.
use patina_rpc.Base.{
  ℕ, zero, suc, ◌/◌, ◌<◌, ◌≡◌, refl, sym, ap, ◌∙◌, List, [], ◌∷◌, ◌++◌, some, ok, err, length, take,
  drop, All, arith, passed, nat_eq,
}
use mathlib.Core.List.{append-nil, append_assoc}
use patina_rpc.Envelope.{Envelope, heartbeat, eq_iff, envelope_eq}
use patina_rpc.Error.{DecodeError}
use patina_rpc.Codec.{
  LengthDelimited, Bincode, WireCodec, encode, decode, new, with_max_frame_length,
  default_max_frame_len, length_field,
}
use patina_rpc.Codec.Frames.{frame_bytes, arrived-frame_bytes, arrived-part}
use patina_rpc.Codec.RoundTrip.{
  unread, limit, Encodes, encode_fits, decode_body, decode_waits, envelope_of-encoded,
}
use patina_rpc.Codec.Refusals.{decode_too_long, decode_corrupted}
use patina_rpc.Codec.Default.{limit-new}
use patina_rpc.Codec.Tests.{
  roundtrip, heartbeat_is_tiny, unit_tests, put_request, short_response, not_found, long_request,
  second_response, oversized_frame_prefix_is_rejected, corrupted_body_surfaces_decode_error,
  partial_frame_yields_none_until_complete, back_to_back_frames_decode_independently,
  roundtrip_request, roundtrip_response, roundtrip_error, roundtrip_heartbeat,
}

-- Where a list is cut before its end, its second part has an element.
cut_before_end :
    (n : ℕ) (xs : List ℕ)
    → n < length xs
    → (x : ℕ) × (more : List ℕ) × (drop n xs ≡ x ∷ more) × (xs ≡ take n xs ++ (x ∷ more))
cut_before_end n [] h = absurd (omega arith)
cut_before_end zero (x ∷ xs) h = (x, xs, refl, refl)
cut_before_end (suc n) (x ∷ xs) h =
    let (y, more, d, t) = cut_before_end n xs (omega arith) in (y, more, d, ap (λ l. x ∷ l) t)

module _ {S : Type 0} (ldc : LengthDelimited S) (bin : Bincode Envelope) where
  abbrev Sends : Envelope → List ℕ → Type 0
  Sends = Encodes ldc bin default_max_frame_len

  taken-new : ldc.taken (new ldc).inner ≡ []
  unfolding new with_max_frame_length
  taken-new = ldc.new_codec-taken default_max_frame_len

  -- What a fresh codec writes for an envelope, and that it stays as it is.
  writes_frame :
      (e : Envelope) (bytes dst : List ℕ)
      → Sends e bytes
      → ((encode ldc bin (new ldc) e dst).result ≡ ok tt)
        × ((encode ldc bin (new ldc) e dst).dst ≡ dst ++ frame_bytes bytes)
        × ((encode ldc bin (new ldc) e dst).codec ≡ new ldc)
  writes_frame e bytes dst h =
      encode_fits ldc bin (new ldc) e bytes dst (h.0, omega (arith, h.1, limit-new ldc bin))

  -- A codec with the default limit before a whole frame.
  reads_frame :
      (c : WireCodec S) (e : Envelope) (bytes src rest : List ℕ)
      → Sends e bytes
      → limit ldc bin c ≡ default_max_frame_len
      → unread ldc bin c src ≡ frame_bytes bytes ++ rest
      → let d = decode ldc bin c src in
        (d.result ≡ ok (some e))
        × (ldc.taken d.codec.inner ≡ [])
        × (d.src ≡ rest)
        × (limit ldc bin d.codec ≡ default_max_frame_len)
  reads_frame c e bytes src rest h same front =
      let (r, t, s, l) =
        decode_body ldc bin c src bytes rest
          (rw (front, same) (arrived-frame_bytes _ bytes rest h.1 (omega arith))) in
      (r ∙ envelope_of-encoded ldc bin e bytes h.0, t, s, l ∙ same)

  -- The test `roundtrip`, on any envelope that a codec with the default limit can send.
  pub roundtrip-passed :
      (e : Envelope) (bytes : List ℕ) → Sends e bytes → roundtrip ldc bin e ≡ passed
  unfolding roundtrip
  roundtrip-passed e bytes h =
      let (done, wrote, kept) = writes_frame e bytes [] h in
      let (r, _, s, _) =
        reads_frame (new ldc) e bytes (frame_bytes bytes) [] h (limit-new ldc bin)
          (rw taken-new (sym (append-nil _))) in
      rw (done, kept, wrote) (rw (r, s, (eq_iff e e).1 refl))

  tiny-passed : (tag : ℕ) → Sends heartbeat (tag ∷ []) → heartbeat_is_tiny ldc bin ≡ passed
  unfolding heartbeat_is_tiny
  tiny-passed tag h =
      let (done, wrote, _) = writes_frame heartbeat (tag ∷ []) [] h in rw (done, wrote)

  partial-passed :
      (bytes : List ℕ)
      → Sends long_request bytes
      → partial_frame_yields_none_until_complete ldc bin ≡ passed
  unfolding partial_frame_yields_none_until_complete
  partial-passed bytes h =
      let (done, wrote, kept) = writes_frame long_request bytes [] h in
      let full = frame_bytes bytes in
      let mid = length full / 2 in
      let (x, more, d, t) = cut_before_end mid full (omega arith) in
      let (none_yet, u, l) = decode_waits ldc bin (new ldc) (take mid full) (
        rw (taken-new, limit-new ldc bin)
          (arrived-part _ bytes (take mid full) x more h.1 (omega arith) t)) in
      let first = decode ldc bin (new ldc) (take mid full) in
      let joined : take mid full ++ drop mid full ≡ full = rw d (sym t) in
      let front : unread ldc bin first.codec (first.src ++ drop mid full) ≡ full ++ [] =
        sym (append_assoc (ldc.taken first.codec.inner) first.src (drop mid full))
        ∙ ap (λ l. l ++ drop mid full) u
        ∙ ap (λ l. (l ++ take mid full) ++ drop mid full) taken-new
        ∙ joined
        ∙ sym (append-nil full) in
      let (r, _, s, _) =
        reads_frame first.codec long_request bytes (first.src ++ drop mid full) [] h
          (l ∙ limit-new ldc bin) front in
      rw (done, kept, wrote) (rw none_yet (rw (r, s)))

  pair-passed :
      (tag answer : List ℕ)
      → Sends heartbeat tag
      → Sends second_response answer
      → back_to_back_frames_decode_independently ldc bin ≡ passed
  unfolding back_to_back_frames_decode_independently
  pair-passed tag answer h k =
      let (done, wrote, kept) = writes_frame heartbeat tag [] h in
      let (done', wrote', kept') = writes_frame second_response answer (frame_bytes tag) k in
      let (r, t, s, l) =
        reads_frame (new ldc) heartbeat tag (frame_bytes tag ++ frame_bytes answer)
          (frame_bytes answer) h (limit-new ldc bin) (rw taken-new) in
      let first = decode ldc bin (new ldc) (frame_bytes tag ++ frame_bytes answer) in
      let (r', _, s', _) =
        reads_frame first.codec second_response answer (frame_bytes answer) [] k l
          (rw t (sym (append-nil _))) in
      rw (done, kept, wrote)
        (rw (done', kept', wrote') (rw (r, s) (rw (r', s', (eq_iff heartbeat heartbeat).1 refl))))

  pub oversized-passed : oversized_frame_prefix_is_rejected ldc bin ≡ passed
  unfolding oversized_frame_prefix_is_rejected with_max_frame_length
  oversized-passed =
      let c = with_max_frame_length ldc 100 in
      let fresh = ldc.new_codec-taken 100 in
      let small = ldc.new_codec-limit 100 (omega arith) in
      let (e, r, kind) =
        decode_too_long ldc bin c (length_field 1000) (rw fresh (omega arith))
          (rw (fresh, small) (omega arith)) in
      rw r (rw kind)

  corrupted-passed :
      (x : DecodeError)
      → bin.decode_from_slice (0xff ∷ 0xff ∷ 0xff ∷ []) ≡ err x
      → corrupted_body_surfaces_decode_error ldc bin ≡ passed
  unfolding corrupted_body_surfaces_decode_error
  corrupted-passed x bad =
      let (r, _) =
        decode_corrupted ldc bin (new ldc) (frame_bytes (0xff ∷ 0xff ∷ 0xff ∷ []))
          (0xff ∷ 0xff ∷ 0xff ∷ []) [] x (rw taken-new) (omega (arith, limit-new ldc bin))
          (omega (arith, limit-new ldc bin)) bad in
      rw r

  -- Where `bincode` encodes the messages of the tests in at most 64 MiB each, a heartbeat in one
  -- byte, and refuses three bytes 0xff, every unit test of the codec passes.
  pub unit_tests_pass :
      (put answer missing long second : List ℕ) (tag : ℕ) (x : DecodeError)
      → Sends put_request put
      → Sends short_response answer
      → Sends not_found missing
      → Sends heartbeat (tag ∷ [])
      → Sends long_request long
      → Sends second_response second
      → bin.decode_from_slice (0xff ∷ 0xff ∷ 0xff ∷ []) ≡ err x
      → All (λ test. test ≡ passed) (unit_tests ldc bin)
  unfolding unit_tests roundtrip_request roundtrip_response roundtrip_error roundtrip_heartbeat
  unit_tests_pass put answer missing long second tag x p a m t l s bad = (
    roundtrip-passed put_request put p,
    (
      roundtrip-passed short_response answer a,
      (
        roundtrip-passed not_found missing m,
        (
          roundtrip-passed heartbeat (tag ∷ []) t,
          (
            tiny-passed tag t,
            (
              partial-passed long l,
              (pair-passed (tag ∷ []) second t s, (oversized-passed, (corrupted-passed x bad, tt))),
            ),
          ),
        ),
      ),
    ),
  )
