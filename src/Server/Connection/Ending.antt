-- ===== src/Server/Connection/Ending.antt =====
-- `serve_connection_inner` of crates/patina-rpc/src/server.rs returns once its loop is left, under
-- any schedule of its tasks in which its writer is not left waiting in a `sink.send`.
mod Measure
use Measure.{IsOfTask, IsSending, IsUnhindered}
use patina_rpc.Base.{ℕ, zero, suc, ◌≡◌, ◌⊎◌, Assoc, ok, String, nat_eq}
use patina_rpc.Envelope.{Envelope}
use patina_rpc.Runtime.{Mpsc}
use patina_rpc.Server.{Handler}
use patina_rpc.Server.Connection.{finished, Connection, Step}

module _ {W C : Type 0} (mpsc : Mpsc C Envelope) (handlers : Assoc String (Handler W)) where
  -- One of the connection's tasks can run, without waiting for the socket, or its writer is at a
  -- `sink.send` and can run once that is done.
  abbrev pub CanStep : Connection W C → Type 0
  CanStep s =
      ((t : Connection W C) × (st : Step mpsc handlers s t) × IsUnhindered mpsc handlers st)
      ⊎ IsSending mpsc handlers s

  -- The connection has returned after at most `n` steps of its tasks, whichever of them run, and
  -- whatever becomes of the shared state between two steps; until then one of them can run, or its
  -- writer is at a `sink.send`.
  abbrev pub FinishesWithin : ℕ → Connection W C → Type 0
  FinishesWithin zero s = s.phase ≡ finished
  FinishesWithin (suc n) s =
      (s.phase ≡ finished)
      ⊎ (CanStep s
          × ((t : Connection W C) (st : Step mpsc handlers s t)
              → IsOfTask mpsc handlers st
              → (w : W) → FinishesWithin n (record t { world = w })))
