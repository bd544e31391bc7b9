-- ===== src/Codec/Stream.antt =====
-- A stream of envelopes, cut into chunks anywhere, as a socket delivers it.
use patina_rpc.Base.{
  append_laws, ℕ, ◌^◌, ◌<◌, ◌≡◌, refl, sym, ap, subst, ◌∙◌, ◌⊎◌, inl, inr, List, [], ◌∷◌, ◌++◌,
  arith, none, some, ok,
}
use mathlib.Core.List.{append_assoc, append-nil, flatten}
use patina_rpc.Envelope.{Envelope}
use patina_rpc.Codec.{LengthDelimited, Bincode, WireCodec, decode, encode}
use patina_rpc.Codec.Frames.{frame_bytes, arrived-frame_bytes, arrived-part, arrived-nil}
use patina_rpc.Codec.RoundTrip.{
  unread, limit, Encodes, encode_fits, decode_body, decode_waits, envelope_of-encoded,
}

-- Two ways to cut one list: the first cut lies in the second's front, or beyond it.
pub append-eq-append :
    (xs ys us vs : List ℕ)
    → xs ++ ys ≡ us ++ vs
    → ((ms : List ℕ) × (xs ≡ us ++ ms) × (ms ++ ys ≡ vs))
      ⊎ ((m : ℕ) × (ms : List ℕ) × (us ≡ xs ++ (m ∷ ms)) × (ys ≡ (m ∷ ms) ++ vs))
append-eq-append xs ys [] vs e = inl (xs, refl, e)
append-eq-append [] ys (u ∷ us) vs e = inr (u, us, refl, e)
append-eq-append (x ∷ xs) ys (u ∷ us) vs e = elim (append-eq-append xs ys us vs (cc)) [
  | inl (ms, p, q) ↦ inl (ms, cc, q)
  | inr (m, ms, p, q) ↦ inr (m, ms, cc, q)
]

append-eq-nil : (xs ys : List ℕ) → xs ++ ys ≡ [] → xs ≡ []
append-eq-nil [] ys e = refl
append-eq-nil (x ∷ xs) ys e = cc

module _ {S : Type 0} (ldc : LengthDelimited S) (bin : Bincode Envelope) where
  -- `encode` called for one envelope after the other on one buffer.
  unfoldable pub encode_each : WireCodec S → List Envelope → List ℕ → List ℕ
  encode_each c [] dst = dst
  encode_each c (e ∷ es) dst = let r = encode ldc bin c e dst in encode_each r.codec es r.dst

  -- `decode` called until it asks for more bytes: the envelopes that it yielded, and what it leaves.
  pub data Yields : WireCodec S → List ℕ → List Envelope → WireCodec S → List ℕ → Type 0 where
    waits :
        {c : WireCodec S} {src : List ℕ}
        → (decode ldc bin c src).result ≡ ok none
        → Yields c src [] (decode ldc bin c src).codec (decode ldc bin c src).src
    more :
        {c c' : WireCodec S} {src src' : List ℕ} {e : Envelope} {es : List Envelope}
        → (decode ldc bin c src).result ≡ ok (some e)
        → Yields (decode ldc bin c src).codec (decode ldc bin c src).src es c' src'
        → Yields c src (e ∷ es) c' src'

  -- Chunks that arrive one after the other, each behind what the last left.
  pub data Receives : WireCodec S → List ℕ → List (List ℕ) → List Envelope → Type 0 where
    ends : {c : WireCodec S} {src : List ℕ} → Receives c src [] []
    chunk :
        {c c' : WireCodec S} {src src' part : List ℕ} {parts : List (List ℕ)}
        {es fs : List Envelope}
        → Yields c (src ++ part) es c' src'
        → Receives c' src' parts fs
        → Receives c src (part ∷ parts) (es ++ fs)

  -- The bodies of envelopes that can all be sent.
  abbrev pub Bodies : ℕ → List Envelope → List (List ℕ) → Type 0
  Bodies max [] [] = Unit {0}
  Bodies max (e ∷ es) (b ∷ bs) = Encodes ldc bin max e b × Bodies max es bs
  Bodies max _ _ = ⊥

  abbrev pub frames : List (List ℕ) → List ℕ
  frames [] = []
  frames (b ∷ bs) = frame_bytes b ++ frames bs

  encode_each-frames :
      (c : WireCodec S) (es : List Envelope) (bs : List (List ℕ)) (dst : List ℕ)
      → Bodies (limit ldc bin c) es bs
      → encode_each c es dst ≡ dst ++ frames bs
  unfolding encode_each
  encode_each-frames c [] [] dst h = sym (append-nil dst)
  encode_each-frames c [] (b ∷ bs) dst h = absurd h
  encode_each-frames c (e ∷ es) [] dst h = absurd h
  encode_each-frames c (e ∷ es) (b ∷ bs) dst (h, hs) =
      let (_, d, k) = encode_fits ldc bin c e b dst h in
      rw (k, d)
        (encode_each-frames c es bs (dst ++ frame_bytes b) hs
          ∙ append_assoc dst (frame_bytes b) (frames bs))

  -- What has been read of a stream when it asks for more: the envelopes so far, and a buffer that
  -- goes on with the others.
  record Progress (c : WireCodec S) (src post : List ℕ) (es : List Envelope) : Type 0 where
    front : List Envelope
    back : List Envelope
    left : List (List ℕ)
    c' : WireCodec S
    src' : List ℕ
    yields : Yields c src front c' src'
    cut : es ≡ front ++ back
    bodies : Bodies (limit ldc bin c) back left
    same : limit ldc bin c' ≡ limit ldc bin c
    joins : unread ldc bin c' src' ++ post ≡ frames left
    unfinished : post ≡ [] → back ≡ []

  progress :
      (es : List Envelope) (bs : List (List ℕ)) (c : WireCodec S) (src post : List ℕ)
      → limit ldc bin c < 2 ^ 32
      → Bodies (limit ldc bin c) es bs
      → unread ldc bin c src ++ post ≡ frames bs
      → Progress c src post es
  progress [] [] c src post small h e =
      let empty = append-eq-nil (unread ldc bin c src) post e in
      let (r, u, l) = decode_waits ldc bin c src (rw empty (arrived-nil _)) in
      record {
        front = [];
        back = [];
        left = [];
        c' = _;
        src' = _;
        yields = waits r;
        cut = refl;
        bodies = tt;
        same = l;
        joins = rw u e;
        unfinished = λ _. refl;
      }
  progress [] (b ∷ bs) c src post small h e = absurd h
  progress (x ∷ es) [] c src post small h e = absurd h
  progress (x ∷ es) (b ∷ bs) c src post small (h, hs) e =
      elim (append-eq-append (unread ldc bin c src) post (frame_bytes b) (frames bs) e) [
        | inl (ms, whole, onward) ↦
            let (r, t, s, l) =
              decode_body ldc bin c src b ms
                (rw whole (arrived-frame_bytes _ b ms h.1 (omega arith))) in
            let rest = progress es bs _ _ post (rw l small) (rw l hs) (rw (t, s) onward) in
            record {
              front = x ∷ rest.front;
              back = rest.back;
              left = rest.left;
              c' = rest.c';
              src' = rest.src';
              yields = more (r ∙ envelope_of-encoded ldc bin x b h.0) rest.yields;
              cut = ap (λ l. x ∷ l) rest.cut;
              bodies = subst (λ k. Bodies k rest.back rest.left) l rest.bodies;
              same = rest.same ∙ l;
              joins = rest.joins;
              unfinished = rest.unfinished;
            }
        | inr (m, ms, part, onward) ↦
            let (r, u, l) =
              decode_waits ldc bin c src
                (arrived-part _ b (unread ldc bin c src) m ms h.1 (omega arith) part) in
            record {
              front = [];
              back = x ∷ es;
              left = b ∷ bs;
              c' = _;
              src' = _;
              yields = waits r;
              cut = refl;
              bodies = (h, hs);
              same = l;
              joins = rw u e;
              unfinished = λ none_left. cc;
            }
      ]

  receives :
      (es : List Envelope) (bs : List (List ℕ)) (c : WireCodec S) (src : List ℕ)
      (parts : List (List ℕ))
      → limit ldc bin c < 2 ^ 32
      → Bodies (limit ldc bin c) es bs
      → unread ldc bin c src ++ flatten parts ≡ frames bs
      → (flatten parts ≡ [] → es ≡ [])
      → Receives c src parts es
  unfolding flatten
  receives es bs c src [] small h e done = rw (done refl) ends
  receives es bs c src (part ∷ parts) small h e done =
      let p =
        progress es bs c (src ++ part) (flatten parts) small h
          (simp append_laws (simp append_laws at e)) in
      rw p.cut (
        chunk p.yields (
          receives p.back p.left p.c' p.src' parts (rw p.same small)
            (subst (λ k. Bodies k p.back p.left) (sym p.same) p.bodies) p.joins p.unfinished))

  none_of_frames :
      (max : ℕ) (es : List Envelope) (bs : List (List ℕ))
      → Bodies max es bs
      → frames bs ≡ []
      → es ≡ []
  none_of_frames max [] bs h e = refl
  none_of_frames max (x ∷ es) [] h e = absurd h
  none_of_frames max (x ∷ es) (b ∷ bs) h e = cc

  -- Envelopes that `bincode` encodes within the limit, which is below 2 ^ 32, are encoded one
  -- after the other; the bytes arrive in chunks, cut anywhere, at a fresh decoder with the same
  -- limit. It yields exactly these envelopes, in their order.
  pub Receives-encode_each :
      (c d : WireCodec S) (es : List Envelope) (bs parts : List (List ℕ))
      → Bodies (limit ldc bin c) es bs
      → limit ldc bin c < 2 ^ 32
      → limit ldc bin d ≡ limit ldc bin c
      → ldc.taken d.inner ≡ []
      → flatten parts ≡ encode_each c es []
      → Receives d [] parts es
  Receives-encode_each c d es bs parts h small same fresh arrive =
      let whole = arrive ∙ encode_each-frames c es bs [] h in
      receives es bs d [] parts (rw same small) (subst (λ k. Bodies k es bs) (sym same) h)
        (rw fresh whole) (λ e. none_of_frames _ es bs h (sym whole ∙ e))
