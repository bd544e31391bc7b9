-- ===== src/System.antt =====
-- A client and the server's side of its connection, joined by their wires: `Client` of
-- crates/patina-rpc/src/client.rs and `serve_connection_inner` of crates/patina-rpc/src/server.rs.
-- What one side's writer has sent reaches the other's reader in order, or not at all.
pub mod Wires
pub mod Order
pub mod Contract
pub mod Flow
pub mod Settling
pub mod Bytes
use patina_rpc.Base.{ℕ, ◌≡◌, List, [], ◌∷◌, ◌++◌, Assoc, Option, none, some, ok, String}
use patina_rpc.Envelope.{Envelope}
use patina_rpc.Runtime.{Oneshot, Mpsc, CancellationToken}
use patina_rpc.Server.{Handler}
use patina_rpc.Client.{Args, Client, from_stream}
use patina_rpc.Client
use patina_rpc.Client.Hearing.{heard}
use patina_rpc.Server.Connection.{Connection, init}
use patina_rpc.Server.Connection

-- The envelopes under way in each direction, the oldest first.
pub record System (O C T W D : Type 0) : Type 0 where
  pub client : Client O C T
  pub server : Connection W D
  pub to_server : List Envelope
  pub to_client : List Envelope

-- What a step does to the envelopes that come in: it takes none, or the first.
abbrev pub Takes : Option Envelope → List Envelope → List Envelope → Type 0
Takes none before after = before ≡ after
Takes (some e) before after = before ≡ e ∷ after

module _ {O C T W D : Type 0} (oneshot : Oneshot O Envelope) (mpsc : Mpsc C Envelope)
    (tokens : CancellationToken T) (args : ℕ → Args) (channels : Mpsc D Envelope)
    (handlers : Assoc String (Handler W)) where
  -- What a step of the client's writer puts on the wire.
  abbrev pub client_said :
      {s t : Client O C T} → Client.Step oneshot mpsc tokens args s t → List Envelope
  client_said (Client.writes e _ (ok _) _ _) = e ∷ []
  client_said _ = []

  -- What a step of the connection takes from its stream, and puts on its wire.
  abbrev pub server_heard :
      {s t : Connection W D} → Connection.Step channels handlers s t → Option Envelope
  server_heard (Connection.frame (some (ok e)) _) = some e
  server_heard _ = none

  abbrev pub server_said :
      {s t : Connection W D} → Connection.Step channels handlers s t → List Envelope
  server_said (Connection.writes e _ (ok _) _ _) = e ∷ []
  server_said _ = []

  abbrev pub connected : W → System O C T W D
  connected w = record {
    client = from_stream oneshot mpsc tokens args;
    server = init channels handlers w;
    to_server = [];
    to_client = [];
  }

  pub data Step (y : System O C T W D) : System O C T W D → Type 0 where
    client_step :
        {t : Client O C T} (st : Client.Step oneshot mpsc tokens args y.client t)
        (rest : List Envelope)
        → Takes (heard oneshot mpsc tokens args st) y.to_client rest
        → Step y
            (record y { client = t; to_server = y.to_server ++ client_said st; to_client = rest })
    server_step :
        {t : Connection W D} (st : Connection.Step channels handlers y.server t)
        (rest : List Envelope)
        → Takes (server_heard st) y.to_server rest
        → Step y
            (record y { server = t; to_server = rest; to_client = y.to_client ++ server_said st })

  pub data Reach (w : W) : System O C T W D → Type 0 where
    start : Reach w (connected w)
    next : {y z : System O C T W D} → Reach w y → Step y z → Reach w z

  -- Each side of a reachable system is in a reachable state of its own.
  pub client-Reach :
      {w : W} {y : System O C T W D} → Reach w y → Client.Reach oneshot mpsc tokens args y.client
  client-Reach start = Client.start
  client-Reach (next r (client_step st _ _)) = Client.next (client-Reach r) st
  client-Reach (next r (server_step st _ _)) = client-Reach r

  pub server-Reach :
      {w : W} {y : System O C T W D} → Reach w y → Connection.Reach channels handlers w y.server
  server-Reach start = Connection.start
  server-Reach (next r (client_step st _ _)) = server-Reach r
  server-Reach (next r (server_step st _ _)) = Connection.next (server-Reach r) st
