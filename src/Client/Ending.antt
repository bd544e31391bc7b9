-- ===== src/Client/Ending.antt =====
-- How a client ends (`reader_loop`, `writer_loop` and `call` of crates/patina-rpc/src/client.rs): once
-- its reader is out of its loop, both tasks end and every parked call returns, under any schedule in
-- which the writer is not left waiting in a `sink.send`.
pub mod Steps
pub mod Waiters
mod Progress
use patina_rpc.Base.{ℕ, zero, suc, ◌+◌, ◌^◌, ◌<◌, ◌≡◌, ◌⊎◌, some, nat_eq}
use patina_rpc.Envelope.{Envelope}
use patina_rpc.Runtime.{Oneshot, Mpsc, CancellationToken}
use patina_rpc.Client.{gone, done, Args, Client, Step, Reach}
use patina_rpc.Client.Invariant.{parked_id}
use Steps.{HasLeft, IsOfCall, IsOfTask}
use Progress.{CanStep}
use Waiters.{Tracked, IsSettled}

module _ {O C T : Type 0} (oneshot : Oneshot O Envelope) (mpsc : Mpsc C Envelope)
    (tokens : CancellationToken T) (args : ℕ → Args) where
  -- What the calls may do between two steps of the tasks: from a budget of `m` to one of `n`. A
  -- step that puts a request in the channel or takes an id costs one, the others nothing.
  pub data Between (m : ℕ) (s : Client O C T) : ℕ → Client O C T → Type 0 where
    still : Between m s m s
    free :
        {n : ℕ} {t u : Client O C T}
        → Between m s n t
        → (st : Step oneshot mpsc tokens args t u) → IsOfCall oneshot mpsc tokens args st
        → mpsc.queue u.outbound ≡ mpsc.queue t.outbound
        → u.issued ≡ t.issued
        → Between m s n u
    paid :
        {n : ℕ} {t u : Client O C T}
        → Between m s (suc n) t
        → (st : Step oneshot mpsc tokens args t u) → IsOfCall oneshot mpsc tokens args st
        → Between m s n u

  -- Both tasks have ended, and each call that was parked in `before` is over or ends at its next
  -- poll.
  abbrev pub Ended : Client O C T → Client O C T → Type 0
  Ended before s =
      (s.reader ≡ gone)
      × (s.writer ≡ done)
      × ((k id : ℕ) → parked_id (before.calls k) ≡ some id → IsSettled oneshot mpsc tokens args k s)

  -- The client ends after at most `n` steps of its tasks, whichever of them run and whatever the
  -- calls do in between on a budget of `m`; until then one of the tasks can run, or the writer is at a
  -- `sink.send`.
  abbrev pub EndsWithin : Client O C T → ℕ → ℕ → Client O C T → Type 0
  EndsWithin before m zero s = Ended before s
  EndsWithin before m (suc n) s =
      Ended before s
      ⊎ (CanStep oneshot mpsc tokens args s
          × ((m' : ℕ) (t u : Client O C T)
              → Between m s m' t
              → (st : Step oneshot mpsc tokens args t u) → IsOfTask oneshot mpsc tokens args st
              → EndsWithin before m' n u))

  -- What holds from the reader's exit on, while calls have a budget of `m`.
  record Leaves (before : Client O C T) (m : ℕ) (s : Client O C T) : Type 0 where
    reached : Reach oneshot mpsc tokens args s
    fits : s.issued + m < 2 ^ 64
    left : HasLeft s.reader
    tracked :
        (k id : ℕ) → parked_id (before.calls k) ≡ some id → Tracked oneshot mpsc tokens args k id s
