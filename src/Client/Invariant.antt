-- ===== src/Client/Invariant.antt =====
-- What every step of a client keeps, as long as fewer than 2 ^ 64 ids have been handed out.
mod Defs
mod Calls
mod Reading
mod Moves
pub use Defs.*
pub use Calls.{nobody_parked}
pub use Reading.{contains-values}
pub use Moves.{ClientInv, drop_sender-other, drain-step-Inv}
use Calls.{enter-Inv, fetch_add-Inv}
use Reading.{quiet-Inv, fire-Inv}
use Moves.{from_stream-Inv, submit-Inv, finish-Inv, cancel-Inv, park-step-Inv, read-Inv}
use patina_rpc.Base.{
  ℕ, ◌^◌, ◌≤◌, ◌<◌, inl, inr, refl, ap, none, some, ok, err, nat_eq, arith, Bool-cases,
}
use patina_rpc.Envelope.{Envelope}
use patina_rpc.Error.{closed}
use patina_rpc.Runtime.{Oneshot, Mpsc, CancellationToken}
use patina_rpc.Client.Pending
use patina_rpc.Client.{
  entered, returned, leaving, draining, Args, Client, enter, fetch_add, park, submit, finish,
  cancel, read, fire, reader_cancels, drain, write, writer_cancels, writer_returns, drop_client,
  Step, enters, numbers, parks, submits, finishes, cancels, reads, fires, reader_stops,
  reader_cancels_token, drains, writes, writer_hangs_up, writer_stops, writer_cancels_token,
  writer_ends, drops_client, Reach, start, next,
}

module _ {O C T : Type 0} (oneshot : Oneshot O Envelope) (mpsc : Mpsc C Envelope)
    (tokens : CancellationToken T) (args : ℕ → Args) where
  -- Every step keeps the invariant, unless it hands out the last id.
  pub Step-Inv :
      {s t : Client O C T}
      → Step oneshot mpsc tokens args s t
      → t.issued < 2 ^ 64
      → ClientInv oneshot s
      → ClientInv oneshot t
  unfolding enter fetch_add fire reader_cancels write writer_cancels writer_returns drop_client
  Step-Inv {s} (enters k open_ at) fits v = elim (Bool-cases (tokens.is_cancelled s.token)) [
    | inl late ↦ rw (late, enter) (enter-Inv oneshot v k (returned (err closed)) at refl refl)
    | inr early ↦ rw (early, enter) (enter-Inv oneshot v k entered at refl refl)
  ]
  Step-Inv (numbers k at) fits v = fetch_add-Inv oneshot v k at fits
  Step-Inv {s} (parks k id at) fits v = park-step-Inv oneshot mpsc tokens args s k id at v
  Step-Inv {s} (submits k id at) fits v = submit-Inv oneshot mpsc tokens args s k id at v
  Step-Inv {s} (finishes k id at) fits v = finish-Inv oneshot mpsc tokens args s k id at v
  Step-Inv {s} (cancels k id (inl at)) fits v =
      cancel-Inv oneshot mpsc tokens args s k id (ap parked_id at) v
  Step-Inv {s} (cancels k id (inr at)) fits v =
      cancel-Inv oneshot mpsc tokens args s k id (ap parked_id at) v
  Step-Inv {s} (reads f at) fits v = read-Inv oneshot mpsc tokens args s f at v
  Step-Inv (fires k e at) fits v = fire-Inv oneshot v k e at
  Step-Inv (reader_stops at _) fits v = quiet-Inv oneshot v leaving (λ k e h. cc) (λ k e h. cc)
  Step-Inv (reader_cancels_token at) fits v =
      quiet-Inv oneshot v draining (λ k e h. cc) (λ k e h. cc)
  Step-Inv {s} (drains at) fits v = drain-step-Inv oneshot mpsc tokens args s at v
  Step-Inv (writes e c (ok _) on taken) fits v = v
  Step-Inv (writes e c (err _) on taken) fits v = v
  Step-Inv (writer_hangs_up on last) fits v = v
  Step-Inv (writer_stops on seen) fits v = v
  Step-Inv (writer_cancels_token on) fits v = v
  Step-Inv (writer_ends on) fits v = v
  Step-Inv (drops_client open_ free) fits v = v

  pub issued_mono : {s t : Client O C T} → Step oneshot mpsc tokens args s t → s.issued ≤ t.issued
  unfolding enter fetch_add park submit finish cancel read fire reader_cancels drain write
      writer_cancels writer_returns drop_client
  issued_mono (enters k _ at) = omega arith
  issued_mono (numbers k at) = omega arith
  issued_mono (parks k id at) = omega arith
  issued_mono (submits k id at) = ground arith
  issued_mono (finishes k id at) = ground arith
  issued_mono (cancels k id at) = omega arith
  issued_mono (reads (some (ok e)) at) = ground arith
  issued_mono (reads (some (err _)) at) = omega arith
  issued_mono (reads none at) = omega arith
  issued_mono (fires k e at) = omega arith
  issued_mono (reader_stops at _) = omega arith
  issued_mono (reader_cancels_token at) = omega arith
  issued_mono (drains at) = omega arith
  issued_mono (writes e c (ok _) on taken) = omega arith
  issued_mono (writes e c (err _) on taken) = omega arith
  issued_mono (writer_hangs_up on last) = omega arith
  issued_mono (writer_stops on seen) = omega arith
  issued_mono (writer_cancels_token on) = omega arith
  issued_mono (writer_ends on) = omega arith
  issued_mono (drops_client open_ free) = omega arith

  pub Reach-Inv :
      {s : Client O C T}
      → Reach oneshot mpsc tokens args s
      → s.issued < 2 ^ 64
      → ClientInv oneshot s
  Reach-Inv start fits = from_stream-Inv oneshot mpsc tokens args
  Reach-Inv (next r st) fits = Step-Inv st fits (Reach-Inv r (omega (arith, issued_mono st)))
