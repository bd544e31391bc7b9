-- ===== src/System/Bytes/Carried.antt =====
-- The envelopes that the bytes between two ends of a connection stand for (crates/patina-rpc/src/codec.rs
-- below crates/patina-rpc/src/client.rs and crates/patina-rpc/src/server.rs).
use patina_rpc.Base.{
  append_laws, ℕ, ◌≤◌, ◌≡◌, refl, sym, ap, ◌∙◌, List, [], ◌∷◌, ◌++◌, arith, length,
}
use mathlib.Core.List.{append_assoc, append-nil}
use patina_rpc.Envelope.{Envelope}
use patina_rpc.Codec.{LengthDelimited, Bincode, new, with_max_frame_length, default_max_frame_len}
use patina_rpc.Codec.Frames.{frame_bytes}
use patina_rpc.Codec.RoundTrip.{unread, limit, Encodes}
use patina_rpc.Codec.Default.{limit-new}
use patina_rpc.Codec.Stream.{Bodies, frames}
use patina_rpc.System.Bytes.Framed.{Framed, framed_new}

module _ {S : Type 0} (ldc : LengthDelimited S) (bin : Bincode Envelope) where
  -- The beginning of a frame that lacks a byte at least.
  pub record IsTorn (bytes : List ℕ) : Type 0 where
    pub body : List ℕ
    pub next : ℕ
    pub rest : List ℕ
    pub small : length body ≤ default_max_frame_len
    pub cut : frame_bytes body ≡ bytes ++ (next ∷ rest)

  pub nil-IsTorn : IsTorn []
  nil-IsTorn = record {
    body = [];
    next = 0;
    rest = 0 ∷ 0 ∷ 0 ∷ [];
    small = omega arith;
    cut = refl;
  }

  abbrev pub HasLimit : Framed S → Type 0
  HasLimit f = limit ldc bin f.codec ≡ default_max_frame_len

  -- What has arrived at `f`, and what is under way behind it, is the frames of the envelopes `es`,
  -- and perhaps the beginning of one more.
  pub record Carries (f : Framed S) (transit : List ℕ) (es : List Envelope) (tail : List ℕ)
      : Type 0 where
    pub bodies : List (List ℕ)
    pub encoded : Bodies ldc bin default_max_frame_len es bodies
    pub joins : unread ldc bin f.codec f.buffer ++ transit ≡ frames ldc bin bodies ++ tail
    pub is_torn : IsTorn tail
    pub limited : HasLimit f

  pub framed_new-Carries : Carries (framed_new ldc bin) [] [] []
  unfolding new with_max_frame_length
  framed_new-Carries = record {
    bodies = [];
    encoded = tt;
    joins = ap (λ l. (l ++ []) ++ []) (ldc.new_codec-taken default_max_frame_len);
    is_torn = nil-IsTorn;
    limited = limit-new ldc bin;
  }

  -- A chunk that arrives.
  pub arrives-Carries :
      (f : Framed S) (part rest : List ℕ) {es : List Envelope} {tail : List ℕ}
      → Carries f (part ++ rest) es tail
      → Carries (record f { buffer = f.buffer ++ part }) rest es tail
  arrives-Carries f part rest v = record {
    bodies = v.bodies;
    encoded = v.encoded;
    joins = simp append_laws (simp append_laws at v.joins);
    is_torn = v.is_torn;
    limited = v.limited;
  }

  Bodies-append :
      (max : ℕ) (es fs : List Envelope) (bs cs : List (List ℕ))
      → Bodies ldc bin max es bs
      → Bodies ldc bin max fs cs
      → Bodies ldc bin max (es ++ fs) (bs ++ cs)
  Bodies-append max [] fs [] cs h k = k
  Bodies-append max [] fs (b ∷ bs) cs h k = absurd h
  Bodies-append max (e ∷ es) fs [] cs h k = absurd h
  Bodies-append max (e ∷ es) fs (b ∷ bs) cs (h, hs) k = (h, Bodies-append max es fs bs cs hs k)

  frames-append :
      (bs cs : List (List ℕ)) → frames ldc bin (bs ++ cs) ≡ frames ldc bin bs ++ frames ldc bin cs
  frames-append [] cs = refl
  frames-append (b ∷ bs) cs =
      ap (λ l. frame_bytes b ++ l) (frames-append bs cs)
      ∙ sym (append_assoc (frame_bytes b) (frames ldc bin bs) (frames ldc bin cs))

  -- A whole frame that is put on a stream that ends in none that is torn.
  pub whole-Carries :
      (f : Framed S) (transit : List ℕ) (e : Envelope) (bytes : List ℕ) {es : List Envelope}
      → Encodes ldc bin default_max_frame_len e bytes
      → Carries f transit es []
      → Carries f (transit ++ frame_bytes bytes) (es ++ (e ∷ [])) []
  whole-Carries f transit e bytes {es} h v = record {
    bodies = v.bodies ++ (bytes ∷ []);
    encoded =
        Bodies-append default_max_frame_len es (e ∷ []) v.bodies (bytes ∷ []) v.encoded (h, tt);
    joins =
        sym (append_assoc (unread ldc bin f.codec f.buffer) transit (frame_bytes bytes))
        ∙ ap (λ l. l ++ frame_bytes bytes) (v.joins ∙ append-nil (frames ldc bin v.bodies))
        ∙ ap (λ l. frames ldc bin v.bodies ++ l) (sym (append-nil (frame_bytes bytes)))
        ∙ sym (frames-append v.bodies (bytes ∷ []))
        ∙ sym (append-nil (frames ldc bin (v.bodies ++ (bytes ∷ []))));
    is_torn = nil-IsTorn;
    limited = v.limited;
  }

  -- The beginning of one.
  pub torn-Carries :
      (f : Framed S) (transit part : List ℕ) {es : List Envelope}
      → IsTorn part
      → Carries f transit es []
      → Carries f (transit ++ part) es part
  torn-Carries f transit part h v = record {
    bodies = v.bodies;
    encoded = v.encoded;
    joins =
        sym (append_assoc (unread ldc bin f.codec f.buffer) transit part)
        ∙ ap (λ l. l ++ part) (v.joins ∙ append-nil (frames ldc bin v.bodies));
    is_torn = h;
    limited = v.limited;
  }
