-- ===== src/Codec/RoundTrip.antt =====
-- `WireCodec` on the bytes that it wrote: one frame, the part of a frame, refusals, and a stream.
use patina_rpc.Base.{ℕ, ◌^◌, ◌≤◌, ◌<◌, ◌≡◌, ◌∙◌, List, [], ◌++◌, length, arith, none, some, ok}
use patina_rpc.Envelope.{Envelope}
use patina_rpc.Codec.{
  decode-encode_whole, LengthDelimited, Bincode, Arrived, arrived, incomplete, WireCodec, decode,
  encode, envelope_of,
}
use patina_rpc.Codec.Frames.{frame_bytes, arrived-frame_bytes}

module _ {S : Type 0} (ldc : LengthDelimited S) (bin : Bincode Envelope) where
  -- The bytes of the buffer and of the length field taken off it before: all that has arrived and
  -- belongs to no frame that was yielded.
  abbrev pub unread : WireCodec S → List ℕ → List ℕ
  unread c src = ldc.taken c.inner ++ src

  abbrev pub limit : WireCodec S → ℕ
  limit c = ldc.limit c.inner

  -- An envelope that the codec can send: `bincode` encodes it, within the limit.
  abbrev pub Encodes : ℕ → Envelope → List ℕ → Type 0
  Encodes max e bytes = (bin.encode_to_vec e ≡ ok bytes) × (length bytes ≤ max)

  -- What `encode` does to an envelope that it can send.
  pub encode_fits :
      (c : WireCodec S) (e : Envelope) (bytes dst : List ℕ)
      → Encodes (limit c) e bytes
      → ((encode ldc bin c e dst).result ≡ ok tt)
        × ((encode ldc bin c e dst).dst ≡ dst ++ frame_bytes bytes)
        × ((encode ldc bin c e dst).codec ≡ c)
  unfolding encode
  encode_fits c e bytes dst (enc, fits) =
      let (r, d, k) = ldc.encode_fits c.inner bytes dst fits in rw (enc, encode) (rw r, d, rw k)

  pub decode_body :
      (c : WireCodec S) (src body rest : List ℕ)
      → arrived (limit c) (unread c src) ≡ Arrived.frame body rest
      → let d = decode ldc bin c src in
        (d.result ≡ envelope_of ldc bin (some body))
        × (ldc.taken d.codec.inner ≡ [])
        × (d.src ≡ rest)
        × (limit d.codec ≡ limit c)
  unfolding decode
  decode_body c src body rest e =
      let (a, b, l, r) = ldc.decode_frame c.inner src body rest e in (rw r, a, b, l)

  pub decode_waits :
      (c : WireCodec S) (src : List ℕ)
      → arrived (limit c) (unread c src) ≡ incomplete
      → let d = decode ldc bin c src in
        (d.result ≡ ok none) × (unread d.codec d.src ≡ unread c src) × (limit d.codec ≡ limit c)
  unfolding decode
  decode_waits c src e = let (a, l, r) = ldc.decode_incomplete c.inner src e in (rw r, a, l)

  pub envelope_of-encoded :
      (e : Envelope) (bytes : List ℕ)
      → bin.encode_to_vec e ≡ ok bytes
      → envelope_of ldc bin (some bytes) ≡ ok (some e)
  unfolding envelope_of
  envelope_of-encoded e bytes h = ground (arith, decode-encode_whole bin e bytes h)

  -- An envelope that `bincode` encodes within the limit, which is below 2 ^ 32, is encoded
  -- without an error. A receiver with the same limit whose unread bytes begin with what was
  -- written yields that envelope, and keeps the bytes behind it.
  pub decode-encode :
      (c d : WireCodec S) (e : Envelope) (bytes src rest : List ℕ)
      → Encodes (limit c) e bytes
      → limit d ≡ limit c
      → limit c < 2 ^ 32
      → unread d src ≡ (encode ldc bin c e []).dst ++ rest
      → ((encode ldc bin c e []).result ≡ ok tt)
        × ((decode ldc bin d src).result ≡ ok (some e))
        × (ldc.taken (decode ldc bin d src).codec.inner ≡ [])
        × ((decode ldc bin d src).src ≡ rest)
        × (limit (decode ldc bin d src).codec ≡ limit c)
  decode-encode c d e bytes src rest enc same small arrives =
      let (done, wrote, _) = encode_fits c e bytes [] enc in
      let here : arrived (limit d) (unread d src) ≡ Arrived.frame bytes rest =
        rw (arrives, wrote, same) (arrived-frame_bytes _ bytes rest enc.1 (omega arith)) in
      let (r, t, s, l) = decode_body d src bytes rest here in
      (done, r ∙ envelope_of-encoded e bytes enc.0, t, s, l ∙ same)
