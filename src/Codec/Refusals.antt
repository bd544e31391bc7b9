-- ===== src/Codec/Refusals.antt =====
-- What `WireCodec` refuses, and the damage that it does not notice.
use patina_rpc.Base.{
  ℕ, ◌^◌, ◌≤◌, ◌<◌, ◌≡◌, ◌∙◌, ◌⊎◌, inl, inr, List, ◌++◌, length, arith, some, ok, err, Result-cases,
}
use patina_rpc.Envelope.{Envelope}
use patina_rpc.Error.{WireError, IoError, invalid_data, invalid_input, DecodeError, EncodeError}
use patina_rpc.Codec.{
  LengthDelimited, Bincode, field_value, Arrived, arrived, too_long, WireCodec, decode, encode,
  envelope_of,
}
use patina_rpc.Codec.Frames.{frame_bytes, arrived-frame_bytes, arrived_too_long}
use patina_rpc.Codec.RoundTrip.{unread, limit, decode_body}
use native.Mathlib.Decide.{dec_le}

module _ {S : Type 0} (ldc : LengthDelimited S) (bin : Bincode Envelope) where
  -- A length field above the limit is refused as soon as it is complete, whatever follows it.
  pub decode_too_long :
      (c : WireCodec S) (src : List ℕ)
      → 4 ≤ length (unread ldc bin c src)
      → limit ldc bin c < field_value (unread ldc bin c src)
      → (e : IoError) × ((decode ldc bin c src).result ≡ err (WireError.io e))
        × (e.kind ≡ invalid_data)
  unfolding decode
  decode_too_long c src full over =
      let here : arrived (limit ldc bin c) (unread ldc bin c src) ≡ too_long =
        arrived_too_long _ _ full over in
      let (e, r, k) = ldc.decode_too_long c.inner src here in (e, rw r, k)

  -- `encode` writes a whole frame or nothing: an envelope that `bincode` refuses, or whose encoding
  -- is above the limit, leaves the buffer as it was.
  pub encode_all_or_nothing :
      (c : WireCodec S) (e : Envelope) (dst : List ℕ)
      → let r = encode ldc bin c e dst in
        ((b : List ℕ) × (bin.encode_to_vec e ≡ ok b)
          × (length b ≤ limit ldc bin c)
          × (r.result ≡ ok tt)
          × (r.dst ≡ dst ++ frame_bytes b))
        ⊎ ((b : List ℕ) × (i : IoError) × (bin.encode_to_vec e ≡ ok b)
            × (limit ldc bin c < length b)
            × (r.result ≡ err (WireError.io i))
            × (i.kind ≡ invalid_input)
            × (r.dst ≡ dst))
        ⊎ ((x : EncodeError) × (bin.encode_to_vec e ≡ err x)
            × (r.result ≡ err (WireError.encode x))
            × (r.dst ≡ dst))
  unfolding encode
  encode_all_or_nothing c e dst = elim (Result-cases (bin.encode_to_vec e)) [
    | inr (x, bad) ↦ inr (inr (x, bad, rw (bad, encode), rw (bad, encode)))
    | inl (b, enc) ↦ elim (dec_le (length b) (limit ldc bin c)) [
      | yes fits ↦
          let (r, d, k) = ldc.encode_fits c.inner b dst fits in
          inl (b, enc, fits, rw (enc, encode) (rw r), rw (enc, encode) d)
      | no over ↦
          let (i, r, k, d, _) = ldc.encode_too_long c.inner b dst (omega arith) in
          inr (inl (b, i, enc, omega arith, rw (enc, encode) (rw r), k, rw (enc, encode) d))
    ]
  ]

  -- Of a whole frame within the limit, which is below 2 ^ 32, `decode` yields the envelope that
  -- `bincode` reads at the start of its body, whatever stands behind it, or the error with which
  -- `bincode` refuses the body; and either way the frame is gone from the buffer.
  pub decode_frame_outcomes :
      (c : WireCodec S) (src body rest : List ℕ)
      → unread ldc bin c src ≡ frame_bytes body ++ rest
      → length body ≤ limit ldc bin c
      → limit ldc bin c < 2 ^ 32
      → let r = decode ldc bin c src in
        (((e : Envelope) × (n : ℕ) × (bin.decode_from_slice body ≡ ok (e, n))
            × (r.result ≡ ok (some e)))
          ⊎ ((x : DecodeError) × (bin.decode_from_slice body ≡ err x)
              × (r.result ≡ err (WireError.decode x))))
        × (r.src ≡ rest)
  decode_frame_outcomes c src body rest at_front fits small =
      let here : arrived (limit ldc bin c) (unread ldc bin c src) ≡ Arrived.frame body rest =
        rw at_front (arrived-frame_bytes _ body rest fits (omega arith)) in
      let (r, _, s, _) = decode_body ldc bin c src body rest here in
      (
        elim (Result-cases (bin.decode_from_slice body)) [
          | inl ((e, n), good) ↦ inl (e, n, good, r ∙ unfold envelope_of in rw good)
          | inr (x, bad) ↦ inr (x, bad, r ∙ unfold envelope_of in rw bad)
        ],
        s,
      )

  -- A whole frame whose body `bincode` refuses.
  pub decode_corrupted :
      (c : WireCodec S) (src body rest : List ℕ) (x : DecodeError)
      → unread ldc bin c src ≡ frame_bytes body ++ rest
      → length body ≤ limit ldc bin c
      → limit ldc bin c < 2 ^ 32
      → bin.decode_from_slice body ≡ err x
      → ((decode ldc bin c src).result ≡ err (WireError.decode x))
        × ((decode ldc bin c src).src ≡ rest)
  decode_corrupted c src body rest x at_front fits small bad =
      let (outcome, gone) = decode_frame_outcomes c src body rest at_front fits small in
      (
        elim outcome [
          | inl (e, n, good, _) ↦ absurd (cc (good, bad))
          | inr (y, refused, r) ↦ cc (refused, bad, r)
        ],
        gone,
      )

  -- A whole frame with bytes behind the envelope.
  pub decode_trailing :
      (c : WireCodec S) (e : Envelope) (src bytes junk rest : List ℕ)
      → bin.encode_to_vec e ≡ ok bytes
      → unread ldc bin c src ≡ frame_bytes (bytes ++ junk) ++ rest
      → length (bytes ++ junk) ≤ limit ldc bin c
      → limit ldc bin c < 2 ^ 32
      → ((decode ldc bin c src).result ≡ ok (some e)) × ((decode ldc bin c src).src ≡ rest)
  decode_trailing c e src bytes junk rest enc at_front fits small =
      let (outcome, gone) = decode_frame_outcomes c src (bytes ++ junk) rest at_front fits small in
      let read = bin.decode-encode e bytes junk enc in
      (
        elim outcome [
          | inl (x, n, good, r) ↦ let same : x ≡ e = cc (good, read) in cc (r, same)
          | inr (y, refused, _) ↦ absurd (cc (refused, read))
        ],
        gone,
      )
