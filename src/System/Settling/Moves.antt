-- ===== src/System/Settling/Moves.antt =====
-- The moves that carry messages between a client and the server, and how many are left (the writers,
-- the workers and the readers of crates/patina-rpc/src/client.rs and crates/patina-rpc/src/server.rs).
use patina_rpc.Base.{
  ℕ, ◌+◌, ◌*◌, ◌<◌, ◌≡◌, List, [], ◌∷◌, ◌++◌, Assoc, some, ok, String, length, arith, nat_eq,
}
use patina_rpc.Envelope.{Envelope}
use patina_rpc.Runtime.{Oneshot, Mpsc, CancellationToken}
use patina_rpc.Server.{Handler}
use patina_rpc.Client
use patina_rpc.Client.{Args, Client, Reader, firing, writing, reads, fires, writes}
use patina_rpc.Server.Connection
use patina_rpc.Server.Connection.{Connection, Worker, working, replying, running, frame, run, send}
use patina_rpc.System.{System, Step, client_step, server_step}

abbrev pub worker_moves : Worker → ℕ
worker_moves (working req) = 6
worker_moves (replying e) = 5

abbrev pub workers_moves : List Worker → ℕ
workers_moves [] = 0
workers_moves (x ∷ xs) = worker_moves x + workers_moves xs

pub workers_moves-append :
    (xs ys : List Worker) → workers_moves (xs ++ ys) ≡ workers_moves xs + workers_moves ys
workers_moves-append [] ys = omega arith
workers_moves-append (x ∷ xs) ys = omega (arith, workers_moves-append xs ys)

abbrev pub reader_moves : Reader → ℕ
reader_moves (firing _ _) = 1
reader_moves _ = 0

-- The reader is in its loop.
abbrev pub IsListening : Reader → Type 0
IsListening Client.reading = Unit {0}
IsListening (firing _ _) = Unit {0}
IsListening _ = ⊥

module _ {O C T W D : Type 0} (oneshot : Oneshot O Envelope) (mpsc : Mpsc C Envelope)
    (tokens : CancellationToken T) (args : ℕ → Args) (channels : Mpsc D Envelope)
    (handlers : Assoc String (Handler W)) where
  -- Both readers and both writers are in their loops.
  pub record IsHealthy (y : System O C T W D) : Type 0 where
    pub listening : IsListening y.client.reader
    pub sending_on : y.client.writer ≡ writing
    pub accepting : y.server.phase ≡ Connection.reading
    pub replying_on : y.server.writer ≡ running

  -- A message goes one place further, and nothing fails.
  abbrev pub IsClientMove : {s t : Client O C T} → Client.Step oneshot mpsc tokens args s t → Type 0
  IsClientMove (reads (some (ok _)) _) = Unit {0}
  IsClientMove (fires _ _ _) = Unit {0}
  IsClientMove (writes _ _ (ok _) _ _) = Unit {0}
  IsClientMove _ = ⊥

  abbrev pub IsServerMove : {s t : Connection W D} → Connection.Step channels handlers s t → Type 0
  IsServerMove (frame (some (ok _)) _) = Unit {0}
  IsServerMove (run _ _ _ _) = Unit {0}
  IsServerMove (send _ _ _ _ _ _) = Unit {0}
  IsServerMove (Connection.writes _ _ (ok _) _ _) = Unit {0}
  IsServerMove _ = ⊥

  abbrev pub IsMove :
      {y z : System O C T W D} → Step oneshot mpsc tokens args channels handlers y z → Type 0
  IsMove (client_step st _ _) = IsClientMove st
  IsMove (server_step st _ _) = IsServerMove st

  -- More moves than the messages that are under way can make.
  unfoldable pub moves_left : System O C T W D → ℕ
  moves_left y =
      8 * length (mpsc.queue y.client.outbound)
      + 7 * length y.to_server
      + workers_moves y.server.workers
      + 4 * length (channels.queue y.server.channel)
      + 3 * length y.to_client
      + reader_moves y.client.reader

  abbrev pub Lowers : System O C T W D → System O C T W D → Type 0
  Lowers y z = (moves_left z < moves_left y) × IsHealthy z × (z.client.issued ≡ y.client.issued)
