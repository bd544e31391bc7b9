-- ===== src/System/Settling/Progress.antt =====
-- While a message is anywhere between a healthy client and server, one can move
-- (crates/patina-rpc/src/client.rs and crates/patina-rpc/src/server.rs).
use patina_rpc.Base.{
  ℕ, ◌<◌, ◌≡◌, ◌⊎◌, inl, inr, refl, ap, ◌∙◌, List, [], ◌∷◌, Assoc, some, ok, String, true, length,
  arith, nat_eq, List-cases,
}
use patina_rpc.Envelope.{Envelope}
use patina_rpc.Runtime.{Oneshot, Mpsc, CancellationToken}
use patina_rpc.Server.{Handler}
use patina_rpc.Client
use patina_rpc.Client.{Args, Client, Reader, firing, reads, fires, writes}
use patina_rpc.Server.Connection
use patina_rpc.Server.Connection.{Connection, Worker, working, replying, running, frame, run, send}
use patina_rpc.Server.Connection.Invariant.{Inv, is_running}
use patina_rpc.System.{System, Step, client_step, server_step}
use patina_rpc.System.Settling.Moves.{IsListening, IsHealthy, IsMove}

listening_cases :
    (r : Reader)
    → IsListening r
    → (r ≡ Client.reading) ⊎ ((k : ℕ) × (e : Envelope) × (r ≡ firing k e))
listening_cases Client.reading h = inl refl
listening_cases (firing k e) h = inr (k, e, refl)
listening_cases Client.leaving h = elim h [ ]
listening_cases Client.draining h = elim h [ ]
listening_cases Client.gone h = elim h [ ]

module _ {O C T W D : Type 0} (oneshot : Oneshot O Envelope) (mpsc : Mpsc C Envelope)
    (tokens : CancellationToken T) (args : ℕ → Args) (channels : Mpsc D Envelope)
    (handlers : Assoc String (Handler W)) where
  abbrev pub CanMove : System O C T W D → Type 0
  CanMove y =
      (z : System O C T W D) × (st : Step oneshot mpsc tokens args channels handlers y z) × IsMove
        oneshot mpsc tokens args channels handlers st

  -- No message is anywhere.
  pub record IsQuiet (y : System O C T W D) : Type 0 where
    pub reader_idle : y.client.reader ≡ Client.reading
    pub none_queued : mpsc.queue y.client.outbound ≡ []
    pub none_up : y.to_server ≡ []
    pub idle : y.server.workers ≡ []
    pub none_replied : channels.queue y.server.channel ≡ []
    pub none_down : y.to_client ≡ []

  worker-CanMove :
      (y : System O C T W D) (x : Worker) (rest : List Worker)
      → Inv channels y.server
      → y.server.workers ≡ x ∷ rest
      → y.server.writer ≡ running
      → channels.queue y.server.channel ≡ []
      → CanMove y
  worker-CanMove y (working req) rest v at on none_queued =
      (_, server_step (run [] req rest at) y.to_server refl, tt)
  worker-CanMove y (replying e) rest v at on none_queued =
      let heard : channels.has_receiver y.server.channel ≡ true = v.alive ∙ ap is_running on in
      let room : length (channels.queue y.server.channel) < channels.capacity y.server.channel =
        omega (arith, ap length none_queued, v.capacity) in
      let (c, done) = channels.send_room e y.server.channel heard room in
      (_, server_step (send [] e rest c at done) y.to_server refl, tt)

  server-CanMove :
      (y : System O C T W D)
      → Inv channels y.server
      → IsHealthy oneshot mpsc tokens args channels handlers y
      → CanMove y
        ⊎ ((y.to_server ≡ []) × (y.server.workers ≡ []) × (channels.queue y.server.channel ≡ []))
  server-CanMove y v healthy = elim (List-cases (channels.queue y.server.channel)) [
    | inr (e, rest, q) ↦
        let (c, taken) = channels.recv_ready e rest y.server.channel q in
        inl (
          _,
          server_step (Connection.writes e c (ok tt) healthy.replying_on taken) y.to_server refl,
          tt,
        )
    | inl none_replied ↦ elim (List-cases y.server.workers) [
      | inr (x, rest, at) ↦ inl (worker-CanMove y x rest v at healthy.replying_on none_replied)
      | inl idle ↦ elim (List-cases y.to_server) [
        | inr (e, rest, q) ↦ inl (_, server_step (frame (some (ok e)) healthy.accepting) rest q, tt)
        | inl none_up ↦ inr (none_up, idle, none_replied)
      ]
    ]
  ]

  pub CanMove-or-IsQuiet :
      (y : System O C T W D)
      → Inv channels y.server
      → IsHealthy oneshot mpsc tokens args channels handlers y
      → CanMove y ⊎ IsQuiet y
  CanMove-or-IsQuiet y v healthy = elim (listening_cases y.client.reader healthy.listening) [
    | inr (k, e, at) ↦ inl (_, client_step (fires k e at) y.to_client refl, tt)
    | inl at ↦ elim (List-cases y.to_client) [
      | inr (e, rest, q) ↦ inl (_, client_step (reads (some (ok e)) at) rest q, tt)
      | inl none_down ↦ elim (server-CanMove y v healthy) [
        | inl move ↦ inl move
        | inr (none_up, idle, none_replied) ↦ elim (List-cases (mpsc.queue y.client.outbound)) [
          | inr (e, rest, q) ↦
              let (c, taken) = mpsc.recv_ready e rest y.client.outbound q in
              inl
                (_, client_step (writes e c (ok tt) healthy.sending_on taken) y.to_client refl, tt)
          | inl none_queued ↦ inr (record {
            reader_idle = at;
            none_queued = none_queued;
            none_up = none_up;
            idle = idle;
            none_replied = none_replied;
            none_down = none_down;
          })
        ]
      ]
    ]
  ]
