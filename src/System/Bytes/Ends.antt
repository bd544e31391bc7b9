-- ===== src/System/Bytes/Ends.antt =====
-- What each side does at its end of the streams of bytes, in terms of envelopes
-- (crates/patina-rpc/src/client.rs, crates/patina-rpc/src/server.rs, crates/patina-rpc/src/codec.rs).
use patina_rpc.Base.{
  inl, inr, ℕ, ◌≡◌, refl, sym, ap, subst, ◌∙◌, List, [], ◌++◌, Assoc, Option, none, some, Result,
  ok, err, String, arith, nat_eq, Bool, true, false,
}
use mathlib.Core.List.{append-nil}
use patina_rpc.Envelope.{Envelope, request, response, error, heartbeat}
use patina_rpc.Runtime.{Oneshot, Mpsc, CancellationToken}
use patina_rpc.Codec.{LengthDelimited, Bincode}
use patina_rpc.Server.{Handler}
use patina_rpc.Client
use patina_rpc.Client.{
  Args, Client, enter, fetch_add, park, submit, finish, cancel, read, fire, reader_cancels, drain,
  write, writer_cancels, writer_returns, drop_client,
}
use patina_rpc.Server.Connection
use patina_rpc.Server.Connection.{
  Connection, on_frame, run_handler, reply_sent, reply_dropped, drop_future, abort_writer,
}
use patina_rpc.Server.Connection.Invariant.{is_running}
use patina_rpc.System.{Takes}
use patina_rpc.Error.{WireError}
use patina_rpc.System.Bytes.Framed.{Framed, FramedIo}
use patina_rpc.System.Bytes.Carried.{Carries, arrives-Carries}
use patina_rpc.System.Bytes.Decoding.{Carries-Decodes, Read-Takes, envelope_in}
use patina_rpc.System.Bytes.Encoding.{Written-same, Written-Carries, sent_out}

-- The writer's loop runs.
abbrev pub client_writes : Client.Writer → Bool
client_writes Client.writing = true
client_writes _ = false

module _ {O C T W D : Type 0} (oneshot : Oneshot O Envelope) (mpsc : Mpsc C Envelope)
    (tokens : CancellationToken T) (args : ℕ → Args) (channels : Mpsc D Envelope)
    (handlers : Assoc String (Handler W)) where
  -- A writer that has left its loop never comes back.
  pub client_writes_on :
      {s t : Client O C T}
      → Client.Step oneshot mpsc tokens args s t
      → client_writes t.writer ≡ true
      → client_writes s.writer ≡ true
  unfolding enter fetch_add park submit finish cancel read fire reader_cancels drain write
      writer_cancels writer_returns drop_client
  client_writes_on {s} (Client.enters k _ at) h = h
  client_writes_on {s} (Client.numbers k at) h = h
  client_writes_on {s} (Client.parks k a at) h = h
  client_writes_on {s} (Client.submits k a at) h = ground arith
  client_writes_on {s} (Client.finishes k a at) h = ground arith
  client_writes_on {s} (Client.cancels k a at) h = h
  client_writes_on (Client.reads (some (ok e)) at) h = ground arith
  client_writes_on (Client.reads (some (err _)) at) h = h
  client_writes_on (Client.reads none at) h = h
  client_writes_on (Client.fires j e at) h = h
  client_writes_on (Client.reader_stops at _) h = h
  client_writes_on (Client.reader_cancels_token at) h = h
  client_writes_on (Client.drains at) h = h
  client_writes_on (Client.writes e c r on taken) h = ap client_writes on
  client_writes_on (Client.writer_hangs_up on last) h = ap client_writes on
  client_writes_on (Client.writer_stops on seen) h = ap client_writes on
  client_writes_on (Client.writer_cancels_token on) h = absurd (cc)
  client_writes_on (Client.writer_ends on) h = absurd (cc)
  client_writes_on (Client.drops_client open_ free) h = h

  pub runs_on :
      {s t : Connection W D}
      → Connection.Step channels handlers s t
      → is_running t.writer ≡ true
      → is_running s.writer ≡ true
  unfolding on_frame run_handler reply_sent reply_dropped Connection.writer_ends drop_future
      abort_writer
  runs_on (Connection.frame (some (ok (request req))) p) h = h
  runs_on (Connection.frame (some (ok heartbeat)) p) h = h
  runs_on (Connection.frame (some (ok (response _))) p) h = h
  runs_on (Connection.frame (some (ok (error _))) p) h = h
  runs_on (Connection.frame (some (err e)) p) h = h
  runs_on (Connection.frame none p) h = h
  runs_on (Connection.run front req back at) h = h
  runs_on (Connection.send front reply back c at done) h = h
  runs_on (Connection.send_fails front reply back at done) h = h
  runs_on (Connection.writes e c r on taken) h = ap is_running on
  runs_on (Connection.write_ends on none_left) h = ap is_running on
  runs_on (Connection.join p gone) h = h
  runs_on (Connection.abort _ _) h = h
  runs_on (Connection.writer_aborted p on) h = ap is_running on
  runs_on (Connection.elsewhere w) h = h

module _ {S : Type 0} (ldc : LengthDelimited S) (bin : Bincode Envelope)
    (framed : FramedIo ldc bin) where
  -- The envelopes that the bytes in one direction stand for; the stream ends in a torn frame only
  -- if its writer has stopped.
  pub record Stands (reader : Framed S) (transit : List ℕ) (es : List Envelope) (writes : Bool)
      : Type 0 where
    pub tail : List ℕ
    pub carries : Carries ldc bin reader transit es tail
    pub clean : writes ≡ true → tail ≡ []

  -- A side that takes nothing and says nothing.
  same-Stands :
      {f f' : Framed S} {transit : List ℕ} {es : List Envelope} {writes : Bool}
      → f' ≡ f
      → Stands f transit es writes
      → Stands f' transit es writes
  same-Stands {transit = transit} {es} {writes} q v =
      subst (λ g. Stands g transit es writes) (sym q) v

  unsaid-Stands :
      {g : Framed S} {transit put : List ℕ} {es : List Envelope} {writes after : Bool}
      → put ≡ []
      → (after ≡ true → writes ≡ true)
      → Stands g transit es writes
      → Stands g (transit ++ put) (es ++ []) after
  unsaid-Stands {g} {transit} {put} {es} q on v = record {
    tail = v.tail;
    carries =
        subst (λ l. Carries ldc bin g l (es ++ []) v.tail)
          (sym (append-nil transit) ∙ ap (λ l. transit ++ l) (sym q))
          (subst (λ l. Carries ldc bin g transit l v.tail) (sym (append-nil es)) v.carries);
    clean = λ h. v.clean (on h);
  }

  pub arrives-Stands :
      {f : Framed S} {transit : List ℕ} {es : List Envelope} {writes : Bool} (part rest : List ℕ)
      → transit ≡ part ++ rest
      → Stands f transit es writes
      → Stands (record f { buffer = f.buffer ++ part }) rest es writes
  arrives-Stands {f} {es = es} part rest q v = record {
    tail = v.tail;
    carries =
        arrives-Carries ldc bin f part rest
          (subst (λ l. Carries ldc bin f l es v.tail) q v.carries);
    clean = v.clean;
  }

  pub polls-Stands :
      {f f' : Framed S} {transit : List ℕ} {es : List Envelope} {writes : Bool}
      → framed.polls f f'
      → Stands f transit es writes
      → Stands f' transit es writes
  polls-Stands {f} {transit = transit} {es} {writes} io v =
      let (d, q) = framed.polls_lem io in
      same-Stands q (record {
        tail = v.tail;
        carries = elim (Carries-Decodes ldc bin f transit es v.tail v.carries) [
          | inl (_, left) ↦ left
          | inr (e, rest, _, got_it, _) ↦ absurd (cc (got_it, d))
        ];
        clean = v.clean;
      })

  -- What one side does at its end: from the envelopes `inward` it takes what it hears, and what it
  -- says comes behind `outward`.
  abbrev pub Keeps :
      Option Envelope
      → List Envelope
      → Framed S
      → List ℕ
      → List Envelope
      → Bool
      → Framed S
      → List ℕ
      → List Envelope
      → Bool
      → Type 0
  Keeps takes said f arriving inward peer_writes g leaving outward writes =
      (rest : List Envelope) × Takes takes inward rest
      × Stands f arriving rest peer_writes
      × Stands g leaving (outward ++ said) writes

  pub read-Keeps :
      {f f' g : Framed S} {r : Option (Result Envelope WireError)} {put arriving transit : List ℕ}
      {inward outward : List Envelope} {peer_writes writes after : Bool}
      → framed.next f r f' × (put ≡ [])
      → (after ≡ true → writes ≡ true)
      → Stands f arriving inward peer_writes
      → Stands g transit outward writes
      → Keeps (envelope_in r) [] f' arriving inward peer_writes g (transit ++ put) outward after
  read-Keeps (io, q) on v u =
      let (rest, takes, left) = Read-Takes ldc bin (framed.next_lem io) v.carries in
      (rest, takes, record { tail = v.tail; carries = left; clean = v.clean }, unsaid-Stands q on u)

  pub silent-Keeps :
      {f f' g : Framed S} {put arriving transit : List ℕ} {inward outward : List Envelope}
      {peer_writes writes after : Bool}
      → (f' ≡ f) × (put ≡ [])
      → (after ≡ true → writes ≡ true)
      → Stands f arriving inward peer_writes
      → Stands g transit outward writes
      → Keeps none [] f' arriving inward peer_writes g (transit ++ put) outward after
  silent-Keeps {inward = inward} (p, q) on v u =
      (inward, refl, same-Stands p v, unsaid-Stands q on u)

  pub write-Keeps :
      {f : Framed S} {e : Envelope} {r : Result (Unit {0}) WireError} {f' : Framed S} {put : List ℕ}
      {g : Framed S} {arriving transit : List ℕ} {inward outward : List Envelope}
      {peer_writes writes after : Bool}
      → framed.send f e r f' put
      → writes ≡ true
      → (after ≡ true → r ≡ ok tt)
      → Stands f arriving inward peer_writes
      → Stands g transit outward writes
      → Keeps none (sent_out e r) f' arriving inward peer_writes g (transit ++ put) outward after
  write-Keeps {g = g} {transit = transit} {inward} {outward} io on done v u =
      let clean = subst (λ l. Carries ldc bin g transit outward l) (u.clean on) u.carries in
      let (tail, carries, whole) =
        Written-Carries ldc bin (framed.send_lem io) v.carries.limited clean in
      (
        inward,
        refl,
        same-Stands (Written-same ldc bin (framed.send_lem io)) v,
        record { tail = tail; carries = carries; clean = λ h. whole (done h) },
      )
