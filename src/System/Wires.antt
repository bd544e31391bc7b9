-- ===== src/System/Wires.antt =====
-- What each side of a connection takes in is what the other has put out, in the same order (the
-- writers, the client's reader and the dispatcher loop of crates/patina-rpc/src/client.rs and
-- crates/patina-rpc/src/server.rs).
use mathlib.Core.List.{append_assoc, append-nil, Memᴰ}
use patina_rpc.Base.{
  ℕ, ◌≡◌, refl, sym, ap, subst, ◌∙◌, List, [], ◌∷◌, ◌++◌, Assoc, none, some, ok, err, String, arith,
  nat_eq,
}
use patina_rpc.Envelope.{Envelope, RequestData, request, response, error, heartbeat}
use patina_rpc.Runtime.{Oneshot, Mpsc, CancellationToken}
use patina_rpc.Server.{Handler}
use patina_rpc.Client
use patina_rpc.Client.{
  Args, Client, enter, fetch_add, park, submit, finish, cancel, read, fire, reader_cancels, drain,
  write, writer_cancels, writer_returns, drop_client, enters, numbers, parks, submits, finishes,
  cancels, reads, fires, reader_stops, reader_cancels_token, drains, writes, writer_hangs_up,
  writer_stops, writer_cancels_token, writer_ends, drops_client,
}
use patina_rpc.Server.Connection
use patina_rpc.Server.Connection.{
  Connection, on_frame, run_handler, reply_sent, reply_dropped, drop_future, abort_writer, frame,
  run, send, send_fails, write_ends, join, abort, writer_aborted, elsewhere,
}
use patina_rpc.System.{Takes, client_said, server_heard, server_said}

-- The requests that a connection accepted, as they arrived: the oldest first.
abbrev pub arrivals : List RequestData → List Envelope
arrivals [] = []
arrivals (r ∷ rs) = arrivals rs ++ (request r ∷ [])

module _ {O C T W D : Type 0} (oneshot : Oneshot O Envelope) (mpsc : Mpsc C Envelope)
    (tokens : CancellationToken T) (args : ℕ → Args) (channels : Mpsc D Envelope)
    (handlers : Assoc String (Handler W)) where
  pub client_wire :
      {s t : Client O C T} (st : Client.Step oneshot mpsc tokens args s t)
      → t.wire ≡ s.wire ++ client_said oneshot mpsc tokens args channels handlers st
  unfolding enter fetch_add park submit finish cancel read fire reader_cancels drain write
      writer_cancels writer_returns drop_client
  client_wire {s} (enters k _ at) = sym (append-nil s.wire)
  client_wire {s} (numbers k at) = sym (append-nil s.wire)
  client_wire {s} (parks k a at) = sym (append-nil s.wire)
  client_wire {s} (submits k a at) = ground (arith, append-nil s.wire)
  client_wire {s} (finishes k a at) = ground (arith, append-nil s.wire)
  client_wire {s} (cancels k a at) = sym (append-nil s.wire)
  client_wire {s} (reads (some (ok e)) at) = ground (arith, append-nil s.wire)
  client_wire {s} (reads (some (err _)) at) = sym (append-nil s.wire)
  client_wire {s} (reads none at) = sym (append-nil s.wire)
  client_wire {s} (fires k e at) = sym (append-nil s.wire)
  client_wire {s} (reader_stops at _) = sym (append-nil s.wire)
  client_wire {s} (reader_cancels_token at) = sym (append-nil s.wire)
  client_wire {s} (drains at) = sym (append-nil s.wire)
  client_wire (writes e c (ok _) on taken) = refl
  client_wire {s} (writes e c (err _) on taken) = sym (append-nil s.wire)
  client_wire {s} (writer_hangs_up on last) = sym (append-nil s.wire)
  client_wire {s} (writer_stops on seen) = sym (append-nil s.wire)
  client_wire {s} (writer_cancels_token on) = sym (append-nil s.wire)
  client_wire {s} (writer_ends on) = sym (append-nil s.wire)
  client_wire {s} (drops_client open_ free) = sym (append-nil s.wire)

  pub server_wire :
      {s t : Connection W D} (st : Connection.Step channels handlers s t)
      → t.wire ≡ s.wire ++ server_said oneshot mpsc tokens args channels handlers st
  unfolding on_frame run_handler reply_sent reply_dropped Connection.write Connection.writer_ends
      drop_future abort_writer
  server_wire {s} (frame (some (ok (request req))) p) = sym (append-nil s.wire)
  server_wire {s} (frame (some (ok heartbeat)) p) = sym (append-nil s.wire)
  server_wire {s} (frame (some (ok (response _))) p) = sym (append-nil s.wire)
  server_wire {s} (frame (some (ok (error _))) p) = sym (append-nil s.wire)
  server_wire {s} (frame (some (err e)) p) = sym (append-nil s.wire)
  server_wire {s} (frame none p) = sym (append-nil s.wire)
  server_wire {s} (run front req back at) = sym (append-nil s.wire)
  server_wire {s} (send front reply back c at done) = sym (append-nil s.wire)
  server_wire {s} (send_fails front reply back at done) = sym (append-nil s.wire)
  server_wire {s} (Connection.writes e c (ok _) on taken) = refl
  server_wire {s} (Connection.writes e c (err _) on taken) = sym (append-nil s.wire)
  server_wire {s} (write_ends on none_left) = sym (append-nil s.wire)
  server_wire {s} (join p gone) = sym (append-nil s.wire)
  server_wire {s} (abort _ _) = sym (append-nil s.wire)
  server_wire {s} (writer_aborted _ _) = sym (append-nil s.wire)
  server_wire {s} (elsewhere w) = sym (append-nil s.wire)

  -- What a connection has accepted and not yet taken in, before and after a step, if it is given
  -- nothing but requests.
  abbrev pub IsRequest : Envelope → Type 0
  IsRequest e = (r : RequestData) × (e ≡ request r)

  pub accepts :
      {s t : Connection W D} (st : Connection.Step channels handlers s t)
      (before after : List Envelope)
      → Takes (server_heard oneshot mpsc tokens args channels handlers st) before after
      → ((e : Envelope) → Memᴰ e before → IsRequest e)
      → arrivals t.accepted ++ after ≡ arrivals s.accepted ++ before
  unfolding on_frame run_handler reply_sent reply_dropped Connection.write Connection.writer_ends
      drop_future abort_writer
  accepts {s} (frame (some (ok (request req))) p) before after h only =
      append_assoc (arrivals s.accepted) (request req ∷ []) after
      ∙ ap (λ l. arrivals s.accepted ++ l) (sym h)
  accepts {s} (frame (some (ok heartbeat)) p) before after h only =
      let (r, q) = only heartbeat (subst (Memᴰ heartbeat) (sym h) (Memᴰ.head refl)) in absurd (cc)
  accepts {s} (frame (some (ok (response x))) p) before after h only =
      let (r, q) = only (response x) (subst (Memᴰ (response x)) (sym h) (Memᴰ.head refl)) in
      absurd (cc)
  accepts {s} (frame (some (ok (error x))) p) before after h only =
      let (r, q) = only (error x) (subst (Memᴰ (error x)) (sym h) (Memᴰ.head refl)) in absurd (cc)
  accepts {s} (frame (some (err e)) p) before after h only =
      ap (λ l. arrivals s.accepted ++ l) (sym h)
  accepts {s} (frame none p) before after h only = ap (λ l. arrivals s.accepted ++ l) (sym h)
  accepts {s} (run front req back at) before after h only =
      ap (λ l. arrivals s.accepted ++ l) (sym h)
  accepts {s} (send front reply back c at done) before after h only =
      ap (λ l. arrivals s.accepted ++ l) (sym h)
  accepts {s} (send_fails front reply back at done) before after h only =
      ap (λ l. arrivals s.accepted ++ l) (sym h)
  accepts {s} (Connection.writes e c (ok _) on taken) before after h only =
      ap (λ l. arrivals s.accepted ++ l) (sym h)
  accepts {s} (Connection.writes e c (err _) on taken) before after h only =
      ap (λ l. arrivals s.accepted ++ l) (sym h)
  accepts {s} (write_ends on none_left) before after h only =
      ap (λ l. arrivals s.accepted ++ l) (sym h)
  accepts {s} (join p gone) before after h only = ap (λ l. arrivals s.accepted ++ l) (sym h)
  accepts {s} (abort _ _) before after h only = ap (λ l. arrivals s.accepted ++ l) (sym h)
  accepts {s} (writer_aborted _ _) before after h only = ap (λ l. arrivals s.accepted ++ l) (sym h)
  accepts {s} (elsewhere w) before after h only = ap (λ l. arrivals s.accepted ++ l) (sym h)
