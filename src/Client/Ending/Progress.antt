-- ===== src/Client/Ending/Progress.antt =====
-- One of a client's tasks can run until both have ended (crates/patina-rpc/src/client.rs).
use patina_rpc.Base.{[], List-cases, Result, ℕ, ◌≤◌, ◌≡◌, ◌⊎◌, inl, inr, refl, true, arith, nat_eq}
use patina_rpc.Envelope.{Envelope}
use patina_rpc.Error.{WireError}
use patina_rpc.Runtime.{Oneshot, Mpsc, CancellationToken, got}
use patina_rpc.Client.{
  Reader, Writer, reading, firing, leaving, draining, gone, writing, stopping, cancelled, done,
  Args, Client, write, writes, Step, reader_cancels_token, drains, writer_stops,
  writer_cancels_token, writer_ends, Reach,
}
use patina_rpc.Client.Closing.{Reach-Guarded}
use patina_rpc.Client.Ending.Steps.{reader_steps, writer_steps, HasLeft, IsOfTask, steps_left}

Writer-cases : (w : Writer) → (w ≡ writing) ⊎ (w ≡ stopping) ⊎ (w ≡ cancelled) ⊎ (w ≡ done)
Writer-cases writing = inl refl
Writer-cases stopping = inr (inl refl)
Writer-cases cancelled = inr (inr (inl refl))
Writer-cases done = inr (inr (inr refl))

HasLeft-cases : (r : Reader) → HasLeft r → (r ≡ leaving) ⊎ (r ≡ draining) ⊎ (r ≡ gone)
HasLeft-cases reading h = elim h [ ]
HasLeft-cases (firing _ _) h = elim h [ ]
HasLeft-cases leaving h = inl refl
HasLeft-cases draining h = inr (inl refl)
HasLeft-cases gone h = inr (inr refl)

pub writer_steps-le : (w : Writer) → writer_steps w ≤ 3
writer_steps-le w = ground arith

reader_ended : (r : Reader) → HasLeft r → reader_steps r ≡ 0 → r ≡ gone
reader_ended r left h = ground arith

writer_ended : (w : Writer) → writer_steps w ≡ 0 → w ≡ done
writer_ended w h = ground arith

module _ {O C T : Type 0} (oneshot : Oneshot O Envelope) (mpsc : Mpsc C Envelope)
    (tokens : CancellationToken T) (args : ℕ → Args) where
  -- The writer has taken a request, or can take one, and is to send it: while it waits in
  -- `sink.send` it does not look at the token, and it makes its next step when that send is done,
  -- however it ends.
  abbrev pub IsSending : Client O C T → Type 0
  IsSending s =
      (e : Envelope) × (c : C) × (s.writer ≡ writing)
      × (mpsc.recv s.outbound ≡ got e c)
      × ((r : Result (Unit {0}) WireError)
          → Step oneshot mpsc tokens args s (write oneshot mpsc tokens args e c r s))

  -- A step of a task that waits for no socket; the writer sees the token only if nothing is queued
  -- that it might be sending.
  abbrev pub IsUnhindered : {s t : Client O C T} → Step oneshot mpsc tokens args s t → Type 0
  IsUnhindered (writes _ _ _ _ _) = ⊥
  IsUnhindered {s} (writer_stops _ _) = mpsc.queue s.outbound ≡ []
  IsUnhindered st = IsOfTask oneshot mpsc tokens args st

  -- One of the two tasks can run, without waiting for the socket, or the writer is at a `sink.send`
  -- and can run once that is done.
  abbrev pub CanStep : Client O C T → Type 0
  CanStep s =
      ((t : Client O C T) × (st : Step oneshot mpsc tokens args s t) × IsUnhindered st)
      ⊎ IsSending s

  writer-CanStep :
      (s : Client O C T) → tokens.is_cancelled s.token ≡ true → (s.writer ≡ done) ⊎ CanStep s
  writer-CanStep s off = elim (Writer-cases s.writer) [
    | inl on ↦ elim (List-cases (mpsc.queue s.outbound)) [
      | inl none_queued ↦ inr (inl (_, writer_stops on off, none_queued))
      | inr (e, rest, q) ↦
          let (c, taken) = mpsc.recv_ready e rest s.outbound q in
          inr (inr (e, c, on, taken, λ r. writes e c r on taken))
    ]
    | inr (inl on) ↦ inr (inl (_, writer_cancels_token on, λ own. own))
    | inr (inr (inl on)) ↦ inr (inl (_, writer_ends on, λ own. own))
    | inr (inr (inr over)) ↦ inl over
  ]

  -- One of the tasks can run until both have ended, or the writer is at a `sink.send`.
  pub one-CanStep :
      (s : Client O C T)
      → Reach oneshot mpsc tokens args s
      → HasLeft s.reader
      → ((s.reader ≡ gone) × (s.writer ≡ done)) ⊎ CanStep s
  one-CanStep s r left = elim (HasLeft-cases s.reader left) [
    | inl at ↦ inr (inl (_, reader_cancels_token at, λ own. own))
    | inr (inl at) ↦ inr (inl (_, drains at, λ own. own))
    | inr (inr at) ↦
        let off = (Reach-Guarded oneshot mpsc tokens args r).1 at in
        elim (writer-CanStep s off) [ inl over ↦ inl (at, over) | inr go ↦ inr go ]
  ]

  pub none_left :
      (s : Client O C T)
      → HasLeft s.reader
      → steps_left oneshot mpsc tokens args s ≡ 0
      → (s.reader ≡ gone) × (s.writer ≡ done)
  unfolding steps_left
  none_left s left h =
      (reader_ended s.reader left (omega (arith, h)), writer_ended s.writer (omega (arith, h)))
