-- ===== src/System/Bytes/Decoding.antt =====
-- What `decode` finds in the bytes that arrive at one end of a connection
-- (crates/patina-rpc/src/codec.rs).
use patina_rpc.Base.{
  ℕ, ◌≡◌, refl, sym, ap, ◌∙◌, ◌⊎◌, inl, inr, List, [], ◌∷◌, ◌++◌, Option, none, some, Result, ok,
  err, arith,
}
use mathlib.Core.List.{append_assoc, append-nil}
use patina_rpc.Envelope.{Envelope}
use patina_rpc.Error.{WireError}
use patina_rpc.Codec.{LengthDelimited, Bincode, decode, default_max_frame_len, incomplete, arrived}
use patina_rpc.Codec.Frames.{frame_bytes, arrived-frame_bytes, arrived-part}
use patina_rpc.Codec.RoundTrip.{
  unread, limit, Encodes, decode_body, decode_waits, envelope_of-encoded,
}
use patina_rpc.Codec.Stream.{append-eq-append, Bodies, frames}
use patina_rpc.System.Bytes.Framed.{Framed, after_decode, Read, yields, refuses, breaks, closes}
use patina_rpc.System.{Takes}
use patina_rpc.System.Bytes.Carried.{IsTorn, HasLimit, Carries}

cons_behind :
    (xs : List ℕ) (b : ℕ) (rest : List ℕ)
    → (c : ℕ) × (more : List ℕ) × (xs ++ (b ∷ rest) ≡ c ∷ more)
cons_behind [] b rest = (b, rest, refl)
cons_behind (x ∷ xs) b rest = (x, xs ++ (b ∷ rest), refl)

-- The envelope in what `next()` gives.
abbrev pub envelope_in : Option (Result Envelope WireError) → Option Envelope
envelope_in (some (ok e)) = some e
envelope_in (some (err _)) = none
envelope_in none = none

module _ {S : Type 0} (ldc : LengthDelimited S) (bin : Bincode Envelope) where
  -- What `decode` makes of bytes that are the beginning of a frame.
  waits_for_rest :
      (f : Framed S) (transit tail : List ℕ)
      → HasLimit ldc bin f
      → IsTorn ldc bin tail
      → unread ldc bin f.codec f.buffer ++ transit ≡ tail
      → arrived (limit ldc bin f.codec) (unread ldc bin f.codec f.buffer) ≡ incomplete
  waits_for_rest f transit tail same t e =
      let (c, more, behind) = cons_behind transit t.next t.rest in
      rw same (
        arrived-part default_max_frame_len t.body (unread ldc bin f.codec f.buffer) c more t.small
          (omega (arith, t.small))
          (t.cut
            ∙ ap (λ l. l ++ (t.next ∷ t.rest)) (sym e)
            ∙ append_assoc (unread ldc bin f.codec f.buffer) transit (t.next ∷ t.rest)
            ∙ ap (λ l. unread ldc bin f.codec f.buffer ++ l) behind))

  -- It yields the first of the envelopes.
  abbrev Yields : Framed S → List ℕ → List Envelope → List ℕ → Type 0
  Yields f transit es tail =
      (e : Envelope) × (rest : List Envelope) × (es ≡ e ∷ rest)
      × ((decode ldc bin f.codec f.buffer).result ≡ ok (some e))
      × Carries ldc bin (after_decode ldc bin f) transit rest tail

  -- It asks for more, and all is as it was; or it yields the first of the envelopes.
  abbrev pub Decodes : Framed S → List ℕ → List Envelope → List ℕ → Type 0
  Decodes f transit es tail =
      (((decode ldc bin f.codec f.buffer).result ≡ ok none)
        × Carries ldc bin (after_decode ldc bin f) transit es tail)
      ⊎ Yields f transit es tail

  waits-Decodes :
      (f : Framed S) (transit : List ℕ) (es : List Envelope) (tail : List ℕ)
      → Carries ldc bin f transit es tail
      → arrived (limit ldc bin f.codec) (unread ldc bin f.codec f.buffer) ≡ incomplete
      → Decodes f transit es tail
  waits-Decodes f transit es tail v h =
      let (r, u, l) = decode_waits ldc bin f.codec f.buffer h in
      inl (
        r,
        record {
          bodies = v.bodies;
          encoded = v.encoded;
          joins = ap (λ x. x ++ transit) u ∙ v.joins;
          is_torn = v.is_torn;
          limited = l ∙ v.limited;
        },
      )

  first_frame :
      (f : Framed S) (transit : List ℕ) (x : Envelope) (es : List Envelope) (b : List ℕ)
      (bs : List (List ℕ)) (ms : List ℕ) (tail : List ℕ)
      → Encodes ldc bin default_max_frame_len x b
      → Bodies ldc bin default_max_frame_len es bs
      → unread ldc bin f.codec f.buffer ≡ frame_bytes b ++ ms
      → ms ++ transit ≡ frames ldc bin bs ++ tail
      → IsTorn ldc bin tail
      → HasLimit ldc bin f
      → Yields f transit (x ∷ es) tail
  first_frame f transit x es b bs ms tail h hs at_front onward t same =
      let (r, taken, left, l) =
        decode_body ldc bin f.codec f.buffer b ms
          (rw (at_front, same) (arrived-frame_bytes _ b ms h.1 (omega (arith, h.1)))) in
      (
        x,
        es,
        refl,
        r ∙ envelope_of-encoded ldc bin x b h.0,
        record {
          bodies = bs;
          encoded = hs;
          joins = rw (taken, left) onward;
          is_torn = t;
          limited = l ∙ same;
        },
      )

  decodes :
      (f : Framed S) (transit : List ℕ) (es : List Envelope) (tail : List ℕ)
      (v : Carries ldc bin f transit es tail) (bs : List (List ℕ))
      → Bodies ldc bin default_max_frame_len es bs
      → unread ldc bin f.codec f.buffer ++ transit ≡ frames ldc bin bs ++ tail
      → Decodes f transit es tail
  decodes f transit [] tail v [] h e =
      waits-Decodes f transit [] tail v (waits_for_rest f transit tail v.limited v.is_torn e)
  decodes f transit [] tail v (b ∷ bs) h e = absurd h
  decodes f transit (x ∷ es) tail v [] h e = absurd h
  decodes f transit (x ∷ es) tail v (b ∷ bs) (h, hs) e =
      let joins = e ∙ append_assoc (frame_bytes b) (frames ldc bin bs) tail in
      elim (append-eq-append (unread ldc bin f.codec f.buffer) transit (frame_bytes b)
        (frames ldc bin bs ++ tail) joins) [
          | inl (ms, front, onward) ↦
              inr (first_frame f transit x es b bs ms tail h hs front onward v.is_torn v.limited)
          | inr (m, ms, part, onward) ↦ waits-Decodes f transit (x ∷ es) tail v (
              rw v.limited (
                arrived-part default_max_frame_len b (unread ldc bin f.codec f.buffer) m ms h.1
                  (omega (arith, h.1)) part))
        ]

  pub Carries-Decodes :
      (f : Framed S) (transit : List ℕ) (es : List Envelope) (tail : List ℕ)
      → Carries ldc bin f transit es tail
      → Decodes f transit es tail
  Carries-Decodes f transit es tail v = decodes f transit es tail v v.bodies v.encoded v.joins

  -- Once all its bytes have arrived, the first envelope is yielded.
  pub Carries-yields :
      (f : Framed S) (x : Envelope) (es : List Envelope) (tail : List ℕ)
      → Carries ldc bin f [] (x ∷ es) tail
      → (decode ldc bin f.codec f.buffer).result ≡ ok (some x)
  Carries-yields f x es tail v = yields_first v.bodies v.encoded v.joins
    where
      yields_first :
          (bs : List (List ℕ))
          → Bodies ldc bin default_max_frame_len (x ∷ es) bs
          → unread ldc bin f.codec f.buffer ++ [] ≡ frames ldc bin bs ++ tail
          → (decode ldc bin f.codec f.buffer).result ≡ ok (some x)
      yields_first [] h e = absurd h
      yields_first (b ∷ bs) (h, hs) e =
          let front =
            sym (append-nil (unread ldc bin f.codec f.buffer))
            ∙ e
            ∙ append_assoc (frame_bytes b) (frames ldc bin bs) tail in
          let (y, rest, first, got_it, _) =
            first_frame f [] x es b bs (frames ldc bin bs ++ tail) tail h hs front
              (append-nil (frames ldc bin bs ++ tail)) v.is_torn v.limited in
          cc (got_it, first)

  -- What `next()` gives is the first of the envelopes, or none of them.
  pub Read-Takes :
      {f f' : Framed S} {r : Option (Result Envelope WireError)} {transit : List ℕ}
      {es : List Envelope} {tail : List ℕ}
      → Read ldc bin f r f'
      → Carries ldc bin f transit es tail
      → (rest : List Envelope) × Takes (envelope_in r) es rest
        × Carries ldc bin f' transit rest tail
  Read-Takes {f} {transit = transit} {es} {tail} (yields {e} d) v =
      elim (Carries-Decodes f transit es tail v) [
        | inl (w, _) ↦ absurd (cc (w, d))
        | inr (x, rest, first, y, left) ↦
            let same : x ≡ e = cc in (rest, first ∙ ap (λ z. z ∷ rest) same, left)
      ]
  Read-Takes {f} {transit = transit} {es} {tail} (refuses d) v =
      elim (Carries-Decodes f transit es tail v) [
        | inl (w, _) ↦ absurd (cc (w, d))
        | inr (x, rest, first, y, left) ↦ absurd (cc (y, d))
      ]
  Read-Takes {es = es} (breaks i) v = (es, refl, v)
  Read-Takes {es = es} closes v = (es, refl, v)
