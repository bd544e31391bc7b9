-- ===== src/Server/Connection.antt =====
-- crates/patina-rpc/src/server.rs: one accepted connection, `serve_connection_inner`. Its tasks are
-- the dispatcher loop, one worker for each request and the writer; a step of the connection is a
-- step of one of them, in any order. The writer's `rx.recv` and the `sink.send` of what it gave are
-- one step, `write`: it stands for the moment when that send is done, and until then the message
-- counts as queued. A worker runs its handler in one step, on the shared state
-- that it finds; that state changes elsewhere between any two steps.
pub mod Tally
pub mod Invariant
pub mod Answers
pub mod Shutdown
pub mod Ending
use patina_rpc.Base.{
  ◌≡◌, ◌≢◌, List, [], ◌∷◌, ◌++◌, Assoc, Option, none, some, Result, ok, err, String,
}
use patina_rpc.Envelope.{Envelope, RequestData, request, response, error, heartbeat}
use patina_rpc.Error.{WireError}
use patina_rpc.Runtime.{Mpsc, sent, refused, got, ended}
use patina_rpc.Server.{Handler, dispatch, writer_channel_capacity}

-- Where `serve_connection_inner` stands: in its loop, at `writer.await`, returned, or dropped.
pub data Phase : Type 0 where
  reading joining finished aborted : Phase

-- The writer task: in its loop, or at its end: after the last message (`drained`), after a failed
-- send (`broken`), or dropped by the runtime after
-- `AbortOnDrop` aborted it (`killed`).
pub data Writer : Type 0 where
  running drained broken killed : Writer

-- A spawned task: before its handler has run, and before its reply is in the channel.
pub data Worker : Type 0 where
  working : RequestData → Worker
  replying : Envelope → Worker

-- The lists of accepted requests and of lost replies are kept for the statements alone.
pub record Connection (W C : Type 0) : Type 0 where
  pub phase : Phase
  pub writer : Writer
  pub workers : List Worker
  pub channel : C
  pub wire : List Envelope
  pub world : W
  pub accepted : List RequestData
  pub lost : List Envelope

module _ {W C : Type 0} (mpsc : Mpsc C Envelope) (handlers : Assoc String (Handler W)) where
  unfoldable pub init : W → Connection W C
  init w = record {
    phase = reading;
    writer = running;
    workers = [];
    channel = mpsc.channel writer_channel_capacity;
    wire = [];
    world = w;
    accepted = [];
    lost = [];
  }

  -- The loop is left, and its own sender dropped.
  abbrev pub leave_loop : Connection W C → Connection W C
  leave_loop s = record s { phase = joining; channel = mpsc.drop_tx s.channel }

  -- One round of the loop, on what `read.next()` gives.
  unfoldable pub on_frame : Option (Result Envelope WireError) → Connection W C → Connection W C
  on_frame (some (ok (request req))) s = record s {
    workers = working req ∷ s.workers;
    channel = mpsc.clone_tx s.channel;
    accepted = req ∷ s.accepted;
  }
  on_frame (some (ok heartbeat)) s = s
  on_frame (some (ok (response _))) s = s
  on_frame (some (ok (error _))) s = s
  on_frame (some (err e)) s = leave_loop s
  on_frame none s = leave_loop s

  -- The worker between `front` and `back` runs its handler.
  unfoldable pub run_handler :
      List Worker → RequestData → List Worker → Connection W C → Connection W C
  run_handler front req back s =
      let (reply, w) = dispatch handlers req s.world in
      record s { workers = front ++ (replying reply ∷ back); world = w }

  -- It has sent its reply, and `c` is what the channel became; or it drops the reply. Its sender goes.
  unfoldable pub reply_sent : List Worker → List Worker → C → Connection W C → Connection W C
  reply_sent front back c s = record s { workers = front ++ back; channel = mpsc.drop_tx c }

  unfoldable pub reply_dropped :
      List Worker → Envelope → List Worker → Connection W C → Connection W C
  reply_dropped front reply back s = record s {
    workers = front ++ back;
    channel = mpsc.drop_tx s.channel;
    lost = reply ∷ s.lost;
  }

  -- The writer takes a message and `sink.send` succeeds, or fails and ends the loop.
  unfoldable pub write :
      Envelope → C → Result (Unit {0}) WireError → Connection W C → Connection W C
  write e c (ok _) s = record s { channel = c; wire = s.wire ++ (e ∷ []) }
  write e c (err _) s = record s {
    channel = mpsc.drop_rx c;
    writer = broken;
    lost = e ∷ (mpsc.queue c ++ s.lost);
  }

  unfoldable pub writer_ends : Connection W C → Connection W C
  writer_ends s = record s { channel = mpsc.drop_rx s.channel; writer = drained }

  -- The future is dropped before it returned: its sender goes, if it still has it. `AbortOnDrop` then
  -- asks the runtime to abort the writer; the task itself goes on until the runtime drops it.
  abbrev pub without_loop : Phase → C → C
  without_loop reading c = mpsc.drop_tx c
  without_loop _ c = c

  unfoldable pub drop_future : Connection W C → Connection W C
  drop_future s = record s { phase = aborted; channel = without_loop s.phase s.channel }

  -- The runtime drops the writer that was to be aborted, where it waits, and its receiver with it.
  unfoldable pub abort_writer : Connection W C → Connection W C
  abort_writer s = record s {
    writer = killed;
    channel = mpsc.drop_rx s.channel;
    lost = mpsc.queue s.channel ++ s.lost;
  }

  pub data Step (s : Connection W C) : Connection W C → Type 0 where
    frame : (f : Option (Result Envelope WireError)) → s.phase ≡ reading → Step s (on_frame f s)
    run :
        (front : List Worker) (req : RequestData) (back : List Worker)
        → s.workers ≡ front ++ (working req ∷ back)
        → Step s (run_handler front req back s)
    send :
        (front : List Worker) (reply : Envelope) (back : List Worker) (c : C)
        → s.workers ≡ front ++ (replying reply ∷ back)
        → mpsc.send reply s.channel ≡ sent c
        → Step s (reply_sent front back c s)
    send_fails :
        (front : List Worker) (reply : Envelope) (back : List Worker)
        → s.workers ≡ front ++ (replying reply ∷ back)
        → mpsc.send reply s.channel ≡ refused
        → Step s (reply_dropped front reply back s)
    writes :
        (e : Envelope) (c : C) (r : Result (Unit {0}) WireError)
        → s.writer ≡ running
        → mpsc.recv s.channel ≡ got e c
        → Step s (write e c r s)
    write_ends : s.writer ≡ running → mpsc.recv s.channel ≡ ended → Step s (writer_ends s)
    join : s.phase ≡ joining → s.writer ≢ running → Step s (record s { phase = finished })
    abort : s.phase ≢ finished → s.phase ≢ aborted → Step s (drop_future s)
    writer_aborted : s.phase ≡ aborted → s.writer ≡ running → Step s (abort_writer s)
    elsewhere : (w : W) → Step s (record s { world = w })

  pub data Reach (w : W) : Connection W C → Type 0 where
    start : Reach w (init w)
    next : {s t : Connection W C} → Reach w s → Step s t → Reach w t
