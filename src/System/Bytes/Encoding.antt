-- ===== src/System/Bytes/Encoding.antt =====
-- What `send` puts on the stream between two ends of a connection (crates/patina-rpc/src/codec.rs).
use patina_rpc.Base.{
  ℕ, ◌≡◌, refl, sym, ap, subst, ◌∙◌, inl, inr, List, [], ◌∷◌, ◌++◌, Result, ok, err, arith, length,
  Result-cases,
}
use mathlib.Core.List.{append-nil}
use native.Mathlib.Decide.{dec_le}
use patina_rpc.Envelope.{Envelope}
use patina_rpc.Error.{WireError}
use patina_rpc.Codec.{LengthDelimited, Bincode, WireCodec, encode, default_max_frame_len}
use patina_rpc.Codec.Frames.{frame_bytes}
use patina_rpc.Codec.RoundTrip.{Encodes}
use patina_rpc.Codec.Refusals.{encode_all_or_nothing}
use patina_rpc.System.Bytes.Framed.{Framed, Written, whole, refused, torn}
use patina_rpc.System.Bytes.Carried.{nil-IsTorn, HasLimit, Carries, whole-Carries, torn-Carries}

-- The envelopes that a `send` with this result puts on the way.
abbrev pub sent_out : Envelope → Result (Unit {0}) WireError → List Envelope
sent_out e (ok _) = e ∷ []
sent_out e (err _) = []

module _ {S : Type 0} (ldc : LengthDelimited S) (bin : Bincode Envelope) where
  codec-encode :
      (c : WireCodec S) (e : Envelope) (dst : List ℕ) → (encode ldc bin c e dst).codec ≡ c
  unfolding encode
  codec-encode c e dst = elim (Result-cases (bin.encode_to_vec e)) [
    | inr (x, bad) ↦ rw (bad, encode)
    | inl (b, enc) ↦ elim (dec_le (length b) (ldc.limit c.inner)) [
      | yes fits ↦ let (_, _, k) = ldc.encode_fits c.inner b dst fits in rw (enc, encode) (rw k)
      | no over ↦
          let (_, _, _, _, k) = ldc.encode_too_long c.inner b dst (omega arith) in
          rw (enc, encode) (rw k)
    ]
  ]

  -- What was encoded without an error is one whole frame.
  encoded_whole :
      (f : Framed S) (e : Envelope)
      → HasLimit ldc bin f
      → (encode ldc bin f.codec e []).result ≡ ok tt
      → (b : List ℕ) × Encodes ldc bin default_max_frame_len e b
        × ((encode ldc bin f.codec e []).dst ≡ frame_bytes b)
  encoded_whole f e same done = elim (encode_all_or_nothing ldc bin f.codec e []) [
    | inl (b, enc, fits, _, d) ↦ (b, (enc, omega (arith, fits, same)), d)
    | inr (inl (b, i, _, _, r, _, _)) ↦ absurd (cc (done, r))
    | inr (inr (x, _, r, _)) ↦ absurd (cc (done, r))
  ]

  -- The end from which it is sent is as it was.
  pub Written-same :
      {f : Framed S} {e : Envelope} {r : Result (Unit {0}) WireError} {f' : Framed S} {put : List ℕ}
      → Written ldc bin f e r f' put
      → f' ≡ f
  Written-same {f} {e = e} (whole _) = ap (λ c. record f { codec = c }) (codec-encode f.codec e [])
  Written-same {f} {e = e} (refused _) =
      ap (λ c. record f { codec = c }) (codec-encode f.codec e [])
  Written-same {f} {e = e} (torn _ _ _ _ _ _) =
      ap (λ c. record f { codec = c }) (codec-encode f.codec e [])

  -- A `send` puts the envelope on the way if it succeeds; else at most the beginning of its frame.
  pub Written-Carries :
      {f : Framed S} {e : Envelope} {r : Result (Unit {0}) WireError} {f' : Framed S} {put : List ℕ}
      {g : Framed S} {transit : List ℕ} {es : List Envelope}
      → Written ldc bin f e r f' put
      → HasLimit ldc bin f
      → Carries ldc bin g transit es []
      → (tail : List ℕ) × Carries ldc bin g (transit ++ put) (es ++ sent_out e r) tail
        × ((r ≡ ok tt) → tail ≡ [])
  Written-Carries {f} {e} {g = g} {transit = transit} {es} (whole done) same v =
      let (b, enc, d) = encoded_whole f e same done in
      (
        [],
        subst (λ put. Carries ldc bin g (transit ++ put) (es ++ (e ∷ [])) []) (sym d)
            (whole-Carries ldc bin g transit e b enc v),
        λ _. refl,
      )
  Written-Carries {g = g} {transit = transit} {es} (refused d) same v = (
    [],
    torn-Carries ldc bin g transit [] (nil-IsTorn ldc bin)
        (subst (λ l. Carries ldc bin g transit l []) (sym (append-nil es)) v),
    λ _. refl,
  )
  Written-Carries {f} {e} {g = g} {transit = transit} {es} (torn i part b rest done cut) same v =
      let (body, enc, d) = encoded_whole f e same done in
      (
        part,
        torn-Carries ldc bin g transit part
            (record { body = body; next = b; rest = rest; small = enc.1; cut = sym d ∙ cut })
            (subst (λ l. Carries ldc bin g transit l []) (sym (append-nil es)) v),
        λ h. absurd (cc),
      )
