-- ===== src/Server/Connection/Ending/Measure.antt =====
-- How many steps the tasks of a connection have left (crates/patina-rpc/src/server.rs).
use patina_rpc.Base.{
  ℕ, ◌+◌, ◌*◌, ◌≤◌, ◌<◌, ◌≡◌, ◌⊎◌, inl, inr, refl, ap, List, [], ◌∷◌, ◌++◌, Assoc, Result, ok, err,
  String, length, length-append, arith, nat_eq,
}
use patina_rpc.Envelope.{Envelope}
use patina_rpc.Error.{WireError}
use patina_rpc.Runtime.{Mpsc, got}
use patina_rpc.Server.{Handler, dispatch}
use patina_rpc.Server.Connection.{
  Phase, reading, joining, finished, Writer, running, Worker, working, replying, Connection,
  leave_loop, run_handler, reply_sent, reply_dropped, write, writer_ends, Step, frame, run, send,
  send_fails, writes, write_ends, join, abort, writer_aborted, elsewhere,
}
use patina_rpc.Server.Connection.Invariant.{Inv}

-- What is left to do, in steps.
abbrev worker_steps : Worker → ℕ
worker_steps (working req) = 3
worker_steps (replying e) = 2

abbrev workers_steps : List Worker → ℕ
workers_steps [] = 0
workers_steps (x ∷ xs) = worker_steps x + workers_steps xs

abbrev writer_steps : Writer → ℕ
writer_steps running = 1
writer_steps _ = 0

abbrev pub loop_steps : Phase → ℕ
loop_steps reading = 1
loop_steps joining = 1
loop_steps _ = 0

writer_steps-le : (w : Writer) → writer_steps w ≤ 1
writer_steps-le w = ground arith

workers_steps-append :
    (xs ys : List Worker) → workers_steps (xs ++ ys) ≡ workers_steps xs + workers_steps ys
workers_steps-append [] ys = omega arith
workers_steps-append (x ∷ xs) ys = omega (arith, workers_steps-append xs ys)

workers_steps-le : (xs : List Worker) → workers_steps xs ≤ 3 * length xs
workers_steps-le [] = omega arith
workers_steps-le (working req ∷ xs) = omega (arith, workers_steps-le xs)
workers_steps-le (replying e ∷ xs) = omega (arith, workers_steps-le xs)

module _ {W C : Type 0} (mpsc : Mpsc C Envelope) (handlers : Assoc String (Handler W)) where
  unfoldable pub steps_left : Connection W C → ℕ
  steps_left s =
      workers_steps s.workers
      + length (mpsc.queue s.channel)
      + writer_steps s.writer
      + loop_steps s.phase

  -- A step of one of the connection's tasks: it is not aborted, and nothing else in the program
  -- moves.
  abbrev pub IsOfTask : {s t : Connection W C} → Step mpsc handlers s t → Type 0
  IsOfTask (abort _ _) = ⊥
  IsOfTask (writer_aborted _ _) = ⊥
  IsOfTask (elsewhere _) = ⊥
  IsOfTask _ = Unit {0}

  -- The writer has taken a message, or can take one, and is to send it: it makes its next step when
  -- that `sink.send` is done, however it ends.
  abbrev pub IsSending : Connection W C → Type 0
  IsSending s =
      (e : Envelope) × (c : C) × (s.writer ≡ running)
      × (mpsc.recv s.channel ≡ got e c)
      × ((r : Result (Unit {0}) WireError) → Step mpsc handlers s (write mpsc handlers e c r s))

  -- A step that waits for no socket: of the loop, of a worker, or the end of the writer.
  abbrev pub IsUnhindered : {s t : Connection W C} → Step mpsc handlers s t → Type 0
  IsUnhindered (writes _ _ _ _ _) = ⊥
  IsUnhindered st = IsOfTask st

  -- Each step of a task lowers what is left, once the loop is over.
  pub lowers :
      {s t : Connection W C} (st : Step mpsc handlers s t)
      → IsOfTask st
      → s.phase ≡ joining
      → (steps_left t < steps_left s) × ((t.phase ≡ joining) ⊎ (t.phase ≡ finished))
  unfolding steps_left run_handler reply_sent reply_dropped write writer_ends
  lowers (frame f p) own at = absurd (cc)
  lowers {s} (run front req back at) own p = (
    omega (
      arith,
      ap workers_steps at,
      workers_steps-append front (working req ∷ back),
      workers_steps-append front (replying (dispatch handlers req s.world).0 ∷ back),
    ),
    inl p,
  )
  lowers {s} (send front reply back c at done) own p = (
    omega (
      arith,
      ap workers_steps at,
      workers_steps-append front (replying reply ∷ back),
      workers_steps-append front back,
      ap length (mpsc.drop_tx_lem c).0,
      ap length (mpsc.send_lem reply s.channel c done).0,
      length-append (mpsc.queue s.channel) (reply ∷ []),
    ),
    inl p,
  )
  lowers {s} (send_fails front reply back at done) own p = (
    omega (
      arith,
      ap workers_steps at,
      workers_steps-append front (replying reply ∷ back),
      workers_steps-append front back,
      ap length (mpsc.drop_tx_lem s.channel).0,
    ),
    inl p,
  )
  lowers {s} (writes e c (ok _) on taken) own p =
      (omega (arith, ap length (mpsc.recv_got e s.channel c taken).0), inl p)
  lowers {s} (writes e c (err _) on taken) own p = (
    omega
        (arith, ap length (mpsc.recv_got e s.channel c taken).0, ap length (mpsc.drop_rx_lem c).0),
    inl p,
  )
  lowers {s} (write_ends on none_left) own p =
      (omega (arith, ap writer_steps on, ap length (mpsc.drop_rx_lem s.channel).0), inl p)
  lowers (join p gone) own at = (omega (arith, ap loop_steps p), inr refl)
  lowers (abort _ _) own at = elim own [ ]
  lowers (writer_aborted _ _) own at = elim own [ ]
  lowers (elsewhere _) own at = elim own [ ]

  pub left_enough :
      (s : Connection W C)
      → Inv mpsc s
      → steps_left (leave_loop mpsc handlers s) ≤ 3 * length s.workers + 130
  unfolding steps_left
  left_enough s v = omega (
    arith,
    workers_steps-le s.workers,
    ap length (mpsc.drop_tx_lem s.channel).0,
    v.bounded,
    writer_steps-le s.writer,
  )
