-- ===== src/Client/Ending/Steps.antt =====
-- The steps of a client's two tasks and those of its calls (crates/patina-rpc/src/client.rs), and how
-- many the tasks have left once the reader is out of its loop.
use patina_rpc.Base.{
  ℕ, ◌+◌, ◌≤◌, ◌<◌, ◌≡◌, inl, inr, refl, ap, [], ◌∷◌, length, length-append, ok, err, nat_eq, arith,
}
use patina_rpc.Envelope.{Envelope}
use patina_rpc.Runtime.{Oneshot, Mpsc, CancellationToken}
use patina_rpc.Client.{
  Reader, reading, firing, leaving, draining, Writer, writing, stopping, cancelled, done, Args,
  Client, enter, fetch_add, park, request_of, submit, finish, cancel, read, fire, reader_cancels,
  drain, write, writer_cancels, writer_returns, drop_client, Step, enters, numbers, parks, submits,
  finishes, cancels, reads, fires, reader_stops, reader_cancels_token, drains, writes,
  writer_hangs_up, writer_stops, writer_cancels_token, writer_ends, drops_client,
}
use patina_rpc.Client.Closing.{Sent-cases}

abbrev pub reader_steps : Reader → ℕ
reader_steps leaving = 2
reader_steps draining = 1
reader_steps _ = 0

abbrev pub writer_steps : Writer → ℕ
writer_steps writing = 3
writer_steps stopping = 2
writer_steps cancelled = 1
writer_steps done = 0

-- Out of its loop.
abbrev pub HasLeft : Reader → Type 0
HasLeft reading = ⊥
HasLeft (firing _ _) = ⊥
HasLeft _ = Unit {0}

module _ {O C T : Type 0} (oneshot : Oneshot O Envelope) (mpsc : Mpsc C Envelope)
    (tokens : CancellationToken T) (args : ℕ → Args) where
  -- A step of a call, or of the owner of the client; the others are the reader's and the writer's.
  abbrev pub IsOfCall : {s t : Client O C T} → Step oneshot mpsc tokens args s t → Type 0
  IsOfCall (enters _ _ _) = Unit {0}
  IsOfCall (numbers _ _) = Unit {0}
  IsOfCall (parks _ _ _) = Unit {0}
  IsOfCall (submits _ _ _) = Unit {0}
  IsOfCall (finishes _ _ _) = Unit {0}
  IsOfCall (cancels _ _ _) = Unit {0}
  IsOfCall (drops_client _ _) = Unit {0}
  IsOfCall _ = ⊥

  abbrev pub IsOfTask : {s t : Client O C T} → Step oneshot mpsc tokens args s t → Type 0
  IsOfTask st = ¬ IsOfCall st

  abbrev pub queued : Client O C T → ℕ
  queued s = length (mpsc.queue s.outbound)

  unfoldable pub steps_left : Client O C T → ℕ
  steps_left s = queued s + writer_steps s.writer + reader_steps s.reader

  -- A step of a task lowers what is left, once the reader is out of its loop.
  pub task-lowers :
      {s t : Client O C T} (st : Step oneshot mpsc tokens args s t)
      → IsOfTask st
      → HasLeft s.reader
      → (steps_left t < steps_left s) × HasLeft t.reader × (t.issued ≡ s.issued)
  unfolding steps_left read fire reader_cancels drain write writer_cancels writer_returns
  task-lowers (enters _ _ _) own left = absurd (own tt)
  task-lowers (numbers _ _) own left = absurd (own tt)
  task-lowers (parks _ _ _) own left = absurd (own tt)
  task-lowers (submits _ _ _) own left = absurd (own tt)
  task-lowers (finishes _ _ _) own left = absurd (own tt)
  task-lowers (cancels _ _ _) own left = absurd (own tt)
  task-lowers (drops_client _ _) own left = absurd (own tt)
  task-lowers (reads f at) own left = absurd (ground (arith, at))
  task-lowers (fires k e at) own left = absurd (ground (arith, at))
  task-lowers (reader_stops at _) own left = absurd (ground (arith, at))
  task-lowers (reader_cancels_token at) own left = (omega (arith, ap reader_steps at), tt, refl)
  task-lowers (drains at) own left = (omega (arith, ap reader_steps at), tt, refl)
  task-lowers {s} (writes e c (ok _) on taken) own left =
      (omega (arith, ap length (mpsc.recv_got e s.outbound c taken).0), left, refl)
  task-lowers {s} (writes e c (err _) on taken) own left = (
    omega (arith, ap length (mpsc.recv_got e s.outbound c taken).0, ap writer_steps on),
    left,
    refl,
  )
  task-lowers (writer_hangs_up on last) own left = (omega (arith, ap writer_steps on), left, refl)
  task-lowers (writer_stops on seen) own left = (omega (arith, ap writer_steps on), left, refl)
  task-lowers (writer_cancels_token on) own left = (omega (arith, ap writer_steps on), left, refl)
  task-lowers {s} (writer_ends on) own left =
      (omega (arith, ap writer_steps on, ap length (mpsc.drop_rx_lem s.outbound).0), left, refl)

  -- What a step of a call can do to the tasks: it queues one request at most.
  pub call-raises :
      {s t : Client O C T} (st : Step oneshot mpsc tokens args s t)
      → IsOfCall st
      → (t.reader ≡ s.reader)
        × (t.writer ≡ s.writer)
        × (queued t ≤ queued s + 1)
        × (t.issued ≤ s.issued + 1)
  unfolding enter fetch_add park submit finish cancel drop_client
  call-raises {s} (enters _ _ _) own = (refl, refl, omega arith, omega arith)
  call-raises {s} (numbers _ _) own = (refl, refl, omega arith, omega arith)
  call-raises {s} (parks _ _ _) own = (refl, refl, omega arith, omega arith)
  call-raises {s} (submits k id _) own =
      elim (Sent-cases (mpsc.send (request_of oneshot mpsc tokens args k id) s.outbound)) [
        | inl (c, e) ↦
            rw (e, submit)
              (
                refl,
                refl,
                omega (
                  arith,
                  ap length (mpsc.send_lem _ s.outbound c e).0,
                  length-append (mpsc.queue s.outbound)
                      (request_of oneshot mpsc tokens args k id ∷ []),
                ),
                omega arith,
              )
        | inr (inl e) ↦ rw (e, submit) (refl, refl, omega arith, omega arith)
        | inr (inr e) ↦ rw (e, submit) (refl, refl, omega arith, omega arith)
      ]
  call-raises {s} (finishes _ _ _) own = ground arith
  call-raises {s} (cancels _ _ _) own = (refl, refl, omega arith, omega arith)
  call-raises {s} (drops_client _ _) own =
      (refl, refl, omega (arith, ap length (mpsc.drop_tx_lem s.outbound).0), omega arith)
  call-raises (reads f at) own = elim own [ ]
  call-raises (fires k e at) own = elim own [ ]
  call-raises (reader_stops at _) own = elim own [ ]
  call-raises (reader_cancels_token at) own = elim own [ ]
  call-raises (drains at) own = elim own [ ]
  call-raises (writes e c r on taken) own = elim own [ ]
  call-raises (writer_hangs_up on last) own = elim own [ ]
  call-raises (writer_stops on seen) own = elim own [ ]
  call-raises (writer_cancels_token on) own = elim own [ ]
  call-raises (writer_ends on) own = elim own [ ]
