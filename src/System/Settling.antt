-- ===== src/System/Settling.antt =====
-- Every waiting call is answered once its messages have moved: the readers, the writers and the
-- workers of crates/patina-rpc/src/client.rs and crates/patina-rpc/src/server.rs together.
mod Moves
mod ByClient
mod ByServer
mod Progress
mod Aside
pub use Aside.{IsAside, Between}
pub use Moves.{IsListening, IsHealthy, IsClientMove, IsServerMove, IsMove}
unfoldable pub use Moves.{moves_left}
use Moves.{Lowers}
use Aside.{Runs, Between-Runs}
use Progress.{CanMove, IsQuiet, CanMove-or-IsQuiet}
use ByClient.{client-Lowers}
use ByServer.{server-Lowers}
use patina_rpc.Base.{
  ◌+◌, ◌*◌, ℕ, zero, suc, ◌^◌, ◌≤◌, ◌<◌, ◌≡◌, ◌≢◌, ◌⊎◌, inl, inr, ap, Assoc, String, arith, nat_eq,
}
use patina_rpc.Envelope.{Envelope}
use patina_rpc.Runtime.{Oneshot, Mpsc, CancellationToken, Polled, sent}
use patina_rpc.Server.{Handler}
use patina_rpc.Client
use patina_rpc.Client.{Args, Client, awaiting, sending, request_of}
use patina_rpc.Client.Invariant.{parked_id}
use patina_rpc.Client.Invariant as ClientInvariant
use patina_rpc.Client.Room.{empty_takes}
use patina_rpc.Client.Sending.{requests_under}
use patina_rpc.Server.Connection
use patina_rpc.Server.Connection.{Connection, send}
use patina_rpc.Server.Connection.Invariant.{Reach-Inv}
use patina_rpc.Server.Connection.Tally.{replies_for, workers_for}
use patina_rpc.System.{
  System, Step, client_step, server_step, Reach, next, client-Reach, server-Reach,
}
use patina_rpc.System.Flow.{in_flight}

module _ {O C T W D : Type 0} (oneshot : Oneshot O Envelope) (mpsc : Mpsc C Envelope)
    (tokens : CancellationToken T) (args : ℕ → Args) (channels : Mpsc D Envelope)
    (handlers : Assoc String (Handler W)) where
  -- Every move lowers what is left, keeps all four loops running, and hands out no id.
  move-Lowers :
      {y z : System O C T W D} (st : Step oneshot mpsc tokens args channels handlers y z)
      → IsMove oneshot mpsc tokens args channels handlers st
      → IsHealthy oneshot mpsc tokens args channels handlers y
      → Lowers oneshot mpsc tokens args channels handlers y z
  move-Lowers (client_step st rest h) own v =
      client-Lowers oneshot mpsc tokens args channels handlers st rest h own v
  move-Lowers (server_step st rest h) own v =
      server-Lowers oneshot mpsc tokens args channels handlers st rest h own v

  -- A waiting call returns at its next poll, and one at `outbound.send` gets its request sent.
  abbrev pub AllReady : System O C T W D → Type 0
  AllReady y =
      (k id : ℕ)
      → (y.client.calls k ≡ awaiting id → oneshot.poll (y.client.cells k) ≢ Polled.pending)
        × (y.client.calls k ≡ sending id
            → (c : C) × (mpsc.send (request_of oneshot mpsc tokens args k id) y.client.outbound
                ≡ sent c))

  -- After at most `n` moves, whichever are made and whatever the calls and the rest of the server
  -- do in between on a budget of `m`, every call is ready; until then there is a move.
  abbrev pub SettlesWithin : ℕ → ℕ → System O C T W D → Type 0
  SettlesWithin m zero y = AllReady y
  SettlesWithin m (suc n) y =
      AllReady y
      ⊎ (CanMove oneshot mpsc tokens args channels handlers y
          × ((m' : ℕ) (z x : System O C T W D)
              → Between oneshot mpsc tokens args channels handlers m y m' z
              → (st : Step oneshot mpsc tokens args channels handlers z x)
              → IsMove oneshot mpsc tokens args channels handlers st
              → SettlesWithin m' n x))

  choice :
      {w : W} {y : System O C T W D}
      → Reach oneshot mpsc tokens args channels handlers w y
      → IsHealthy oneshot mpsc tokens args channels handlers y
      → CanMove oneshot mpsc tokens args channels handlers y
        ⊎ IsQuiet oneshot mpsc tokens args channels handlers y
  choice {w} {y} r healthy =
      CanMove-or-IsQuiet oneshot mpsc tokens args channels handlers y
        (Reach-Inv channels handlers (server-Reach oneshot mpsc tokens args channels handlers r))
        healthy

  quiet_wakes :
      {w : W} {y : System O C T W D}
      → Reach oneshot mpsc tokens args channels handlers w y
      → y.client.issued < 2 ^ 64
      → IsHealthy oneshot mpsc tokens args channels handlers y
      → IsQuiet oneshot mpsc tokens args channels handlers y
      → (k id : ℕ) → y.client.calls k ≡ awaiting id
      → oneshot.poll (y.client.cells k) ≢ Polled.pending
  quiet_wakes {w} {y} r fits healthy q k id at still =
      let inv =
        ClientInvariant.Reach-Inv oneshot mpsc tokens args
          (client-Reach oneshot mpsc tokens args channels handlers r) fits in
      elim (inv.waits k id (ap parked_id at)) [
        | inl (l, _) ↦
            let somewhere =
              in_flight oneshot mpsc tokens args channels handlers r fits healthy.sending_on
                healthy.replying_on k id at l in
            absurd (
              omega (
                arith,
                somewhere,
                ap (requests_under id) q.none_queued,
                ap (requests_under id) q.none_up,
                ap (workers_for id) q.idle,
                ap (replies_for id) q.none_replied,
                ap (replies_for id) q.none_down,
              ))
        | inr (inl (e, h, _, _)) ↦ absurd (cc (h, q.reader_idle))
        | inr (inr (inl (e, _, c))) ↦ absurd (cc (still, ap oneshot.poll c, oneshot.poll-send e))
        | inr (inr (inr c)) ↦ absurd (cc (still, ap oneshot.poll c, oneshot.poll-drop_tx))
      ]

  quiet-AllReady :
      {w : W} {y : System O C T W D}
      → Reach oneshot mpsc tokens args channels handlers w y
      → y.client.issued < 2 ^ 64
      → IsHealthy oneshot mpsc tokens args channels handlers y
      → IsQuiet oneshot mpsc tokens args channels handlers y
      → AllReady y
  quiet-AllReady {w} {y} r fits healthy q k id = (
    quiet_wakes r fits healthy q k id,
    λ at.
        empty_takes oneshot mpsc tokens args
          (client-Reach oneshot mpsc tokens args channels handlers r) healthy.sending_on
          q.none_queued (request_of oneshot mpsc tokens args k id),
  )

  settles_within :
      {w : W} (n m : ℕ) (y : System O C T W D)
      → Runs oneshot mpsc tokens args channels handlers w m y
      → moves_left oneshot mpsc tokens args channels handlers y + 8 * m ≤ n
      → SettlesWithin m n y
  settles_within zero m y v few = elim (choice v.reached v.healthy) [
    | inl (z, st, own) ↦ absurd (omega (arith, few, (move-Lowers st own v.healthy).0))
    | inr quiet ↦ quiet-AllReady v.reached (omega (arith, v.fits)) v.healthy quiet
  ]
  settles_within (suc n) m y v few = elim (choice v.reached v.healthy) [
    | inr quiet ↦ inl (quiet-AllReady v.reached (omega (arith, v.fits)) v.healthy quiet)
    | inl move ↦ inr (
      move,
      λ m' z x b st own.
          let (u, le) = Between-Runs oneshot mpsc tokens args channels handlers b v in
          let (less, on, same) = move-Lowers st own u.healthy in
          settles_within n m' x
            (record {
              reached = next u.reached st;
              fits = omega (arith, same, u.fits);
              healthy = on;
            })
            (omega (arith, less, le, few)),
    )
  ]

  -- In a reachable system whose readers and writers all run, while calls queue or number at most
  -- `m` requests more, without an overflow of the ids: after at most `moves_left` and 8 * m moves,
  -- whichever are made, and whatever the calls and the rest of the server do in between, every
  -- waiting call returns at its next poll, and every call at `outbound.send` has room for its
  -- request; until then there is always a move.
  pub every_call_answered :
      {w : W} {y : System O C T W D} (m : ℕ)
      → Reach oneshot mpsc tokens args channels handlers w y
      → y.client.issued + m < 2 ^ 64
      → IsHealthy oneshot mpsc tokens args channels handlers y
      → SettlesWithin m (moves_left oneshot mpsc tokens args channels handlers y + 8 * m) y
  every_call_answered {w} {y} m r fits healthy =
      settles_within (moves_left oneshot mpsc tokens args channels handlers y + 8 * m) m y
        (record { reached = r; fits = fits; healthy = healthy }) (omega arith)
