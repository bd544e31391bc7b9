-- ===== src/System/Settling/ByServer.antt =====
-- What the moves of a connection's loop, workers and writer leave (crates/patina-rpc/src/server.rs).
use patina_rpc.Base.{
  ℕ, ◌≡◌, refl, ap, ◌∙◌, List, [], ◌∷◌, ◌++◌, Assoc, none, some, ok, err, String, length,
  length-append, arith, nat_eq,
}
use patina_rpc.Envelope.{Envelope, request, response, error, heartbeat}
use patina_rpc.Runtime.{Oneshot, Mpsc, CancellationToken}
use patina_rpc.Server.{Handler, dispatch}
use patina_rpc.Client.{Args}
use patina_rpc.Server.Connection
use patina_rpc.Server.Connection.{
  Connection, working, replying, on_frame, run_handler, reply_sent, frame, run, send,
}
use patina_rpc.System.{System, Takes, server_heard, server_said}
use patina_rpc.System.Settling.Moves.{
  workers_moves, workers_moves-append, IsHealthy, IsServerMove, moves_left, Lowers,
}

module _ {O C T W D : Type 0} (oneshot : Oneshot O Envelope) (mpsc : Mpsc C Envelope)
    (tokens : CancellationToken T) (args : ℕ → Args) (channels : Mpsc D Envelope)
    (handlers : Assoc String (Handler W)) where
  server-IsHealthy :
      {y : System O C T W D} (t : Connection W D) (up down : List Envelope)
      → t.phase ≡ y.server.phase
      → t.writer ≡ y.server.writer
      → IsHealthy oneshot mpsc tokens args channels handlers y
      → IsHealthy oneshot mpsc tokens args channels handlers
          (record y { server = t; to_server = up; to_client = down })
  server-IsHealthy t up down p q v = record {
    listening = v.listening;
    sending_on = v.sending_on;
    accepting = p ∙ v.accepting;
    replying_on = q ∙ v.replying_on;
  }

  pub server-Lowers :
      {y : System O C T W D} {t : Connection W D}
      (st : Connection.Step channels handlers y.server t) (rest : List Envelope)
      (h : Takes (server_heard oneshot mpsc tokens args channels handlers st) y.to_server rest)
      → IsServerMove oneshot mpsc tokens args channels handlers st
      → IsHealthy oneshot mpsc tokens args channels handlers y
      → Lowers oneshot mpsc tokens args channels handlers y (record y {
        server = t;
        to_server = rest;
        to_client = y.to_client ++ server_said oneshot mpsc tokens args channels handlers st;
      })
  unfolding moves_left on_frame run_handler reply_sent Connection.write
  server-Lowers {y} (frame (some (ok (request req))) p) rest h own v = (
    omega (
      arith,
      ap length h,
      ap length (channels.clone_tx_lem y.server.channel).0,
      length-append y.to_client [],
    ),
    server-IsHealthy _ _ _ refl refl v,
    refl,
  )
  server-Lowers {y} (frame (some (ok heartbeat)) p) rest h own v = (
    omega (arith, ap length h, length-append y.to_client []),
    server-IsHealthy _ _ _ refl refl v,
    refl,
  )
  server-Lowers {y} (frame (some (ok (response _))) p) rest h own v = (
    omega (arith, ap length h, length-append y.to_client []),
    server-IsHealthy _ _ _ refl refl v,
    refl,
  )
  server-Lowers {y} (frame (some (ok (error _))) p) rest h own v = (
    omega (arith, ap length h, length-append y.to_client []),
    server-IsHealthy _ _ _ refl refl v,
    refl,
  )
  server-Lowers {y} (run front req back at) rest h own v = (
    omega (
      arith,
      ap length h,
      ap workers_moves at,
      workers_moves-append front (working req ∷ back),
      workers_moves-append front (replying (dispatch handlers req y.server.world).0 ∷ back),
      length-append y.to_client [],
    ),
    server-IsHealthy _ _ _ refl refl v,
    refl,
  )
  server-Lowers {y} (send front reply back c at done) rest h own v = (
    omega (
      arith,
      ap length h,
      ap workers_moves at,
      workers_moves-append front (replying reply ∷ back),
      workers_moves-append front back,
      ap length (channels.drop_tx_lem c).0,
      ap length (channels.send_lem reply y.server.channel c done).0,
      length-append (channels.queue y.server.channel) (reply ∷ []),
      length-append y.to_client [],
    ),
    server-IsHealthy _ _ _ refl refl v,
    refl,
  )
  server-Lowers {y} (Connection.writes e c (ok _) on taken) rest h own v = (
    omega (
      arith,
      ap length h,
      ap length (channels.recv_got e y.server.channel c taken).0,
      length-append y.to_client (e ∷ []),
    ),
    server-IsHealthy _ _ _ refl refl v,
    refl,
  )
  server-Lowers (frame (some (err _)) _) rest h own v = elim own [ ]
  server-Lowers (frame none _) rest h own v = elim own [ ]
  server-Lowers (Connection.send_fails _ _ _ _ _) rest h own v = elim own [ ]
  server-Lowers (Connection.writes _ _ (err _) _ _) rest h own v = elim own [ ]
  server-Lowers (Connection.write_ends _ _) rest h own v = elim own [ ]
  server-Lowers (Connection.join _ _) rest h own v = elim own [ ]
  server-Lowers (Connection.abort _ _) rest h own v = elim own [ ]
  server-Lowers (Connection.writer_aborted _ _) rest h own v = elim own [ ]
  server-Lowers (Connection.elsewhere _) rest h own v = elim own [ ]
