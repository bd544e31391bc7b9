-- ===== src/System/Bytes/Sides.antt =====
-- A step of the client, or of the server's connection, over its streams of bytes
-- (crates/patina-rpc/src/client.rs, crates/patina-rpc/src/server.rs).
use patina_rpc.Base.{
  inl, inr, ℕ, ◌≡◌, refl, ap, List, ◌++◌, Assoc, none, some, ok, err, String, nat_eq, Bool, true,
}
use patina_rpc.Envelope.{Envelope}
use patina_rpc.Runtime.{Oneshot, Mpsc, CancellationToken}
use patina_rpc.Codec.{LengthDelimited, Bincode}
use patina_rpc.Server.{Handler}
use patina_rpc.Client
use patina_rpc.Client.{Args, Client, write}
use patina_rpc.Client.Hearing.{heard}
use patina_rpc.Server.Connection
use patina_rpc.Server.Connection.{Connection}
use patina_rpc.Server.Connection.Invariant.{is_running}
use patina_rpc.System.{client_said, server_heard, server_said}
use patina_rpc.System.Bytes.{ClientIo, ServerIo}
use patina_rpc.System.Bytes.Framed.{Framed, FramedIo}
use patina_rpc.System.Bytes.Ends.{
  client_writes, Stands, Keeps, read-Keeps, silent-Keeps, write-Keeps,
}

module _ {O C T W D S : Type 0} (oneshot : Oneshot O Envelope) (mpsc : Mpsc C Envelope)
    (tokens : CancellationToken T) (args : ℕ → Args) (channels : Mpsc D Envelope)
    (handlers : Assoc String (Handler W)) (ldc : LengthDelimited S) (bin : Bincode Envelope)
    (framed : FramedIo ldc bin) where
  pub client-Keeps :
      {s t : Client O C T} (st : Client.Step oneshot mpsc tokens args s t) (put : List ℕ)
      {f f' g : Framed S} {arriving transit : List ℕ} {inward outward : List Envelope}
      {peer_writes : Bool}
      → (client_writes t.writer ≡ true → client_writes s.writer ≡ true)
      → ClientIo oneshot mpsc tokens args channels handlers ldc bin framed st f f' put
      → Stands ldc bin framed f arriving inward peer_writes
      → Stands ldc bin framed g transit outward (client_writes s.writer)
      → Keeps ldc bin framed
          (heard oneshot mpsc tokens args st)
          (client_said oneshot mpsc tokens args channels handlers st)
          f'
          arriving
          inward
          peer_writes
          g
          (transit ++ put)
          outward
          (client_writes t.writer)
  unfolding write
  client-Keeps (Client.enters a b c) put keep io v u = silent-Keeps ldc bin framed io keep v u
  client-Keeps (Client.numbers a b) put keep io v u = silent-Keeps ldc bin framed io keep v u
  client-Keeps (Client.parks a b c) put keep io v u = silent-Keeps ldc bin framed io keep v u
  client-Keeps (Client.submits a b c) put keep io v u = silent-Keeps ldc bin framed io keep v u
  client-Keeps (Client.finishes a b c) put keep io v u = silent-Keeps ldc bin framed io keep v u
  client-Keeps (Client.cancels a b c) put keep io v u = silent-Keeps ldc bin framed io keep v u
  client-Keeps (Client.fires a b c) put keep io v u = silent-Keeps ldc bin framed io keep v u
  client-Keeps (Client.reader_stops a b) put keep io v u = silent-Keeps ldc bin framed io keep v u
  client-Keeps (Client.reader_cancels_token a) put keep io v u =
      silent-Keeps ldc bin framed io keep v u
  client-Keeps (Client.drains a) put keep io v u = silent-Keeps ldc bin framed io keep v u
  client-Keeps (Client.writer_hangs_up a b) put keep io v u =
      silent-Keeps ldc bin framed io keep v u
  client-Keeps (Client.writer_stops a b) put keep io v u = silent-Keeps ldc bin framed io keep v u
  client-Keeps (Client.writer_cancels_token a) put keep io v u =
      silent-Keeps ldc bin framed io keep v u
  client-Keeps (Client.writer_ends a) put keep io v u = silent-Keeps ldc bin framed io keep v u
  client-Keeps (Client.drops_client a b) put keep io v u = silent-Keeps ldc bin framed io keep v u
  client-Keeps (Client.reads (some (ok e)) at) put keep io v u =
      read-Keeps ldc bin framed io keep v u
  client-Keeps (Client.reads (some (err x)) at) put keep io v u =
      read-Keeps ldc bin framed io keep v u
  client-Keeps (Client.reads none at) put keep io v u = read-Keeps ldc bin framed io keep v u
  client-Keeps (Client.writes e c (ok _) on taken) put keep io v u =
      write-Keeps ldc bin framed io (ap client_writes on) (λ _. refl) v u
  client-Keeps (Client.writes e c (err x) on taken) put keep io v u =
      write-Keeps ldc bin framed io (ap client_writes on) (λ h. absurd (cc)) v u

  pub server-Keeps :
      {s t : Connection W D} (st : Connection.Step channels handlers s t) (put : List ℕ)
      {f f' g : Framed S} {arriving transit : List ℕ} {inward outward : List Envelope}
      {peer_writes : Bool}
      → (is_running t.writer ≡ true → is_running s.writer ≡ true)
      → ServerIo oneshot mpsc tokens args channels handlers ldc bin framed st f f' put
      → Stands ldc bin framed f arriving inward peer_writes
      → Stands ldc bin framed g transit outward (is_running s.writer)
      → Keeps ldc bin framed
          (server_heard oneshot mpsc tokens args channels handlers st)
          (server_said oneshot mpsc tokens args channels handlers st)
          f'
          arriving
          inward
          peer_writes
          g
          (transit ++ put)
          outward
          (is_running t.writer)
  unfolding Connection.write Connection.abort_writer
  server-Keeps (Connection.run a b c d) put keep io v u = silent-Keeps ldc bin framed io keep v u
  server-Keeps (Connection.send a b c d e h) put keep io v u =
      silent-Keeps ldc bin framed io keep v u
  server-Keeps (Connection.send_fails a b c d e) put keep io v u =
      silent-Keeps ldc bin framed io keep v u
  server-Keeps (Connection.write_ends a b) put keep io v u = silent-Keeps ldc bin framed io keep v u
  server-Keeps (Connection.join a b) put keep io v u = silent-Keeps ldc bin framed io keep v u
  server-Keeps (Connection.abort a b) put keep io v u = silent-Keeps ldc bin framed io keep v u
  server-Keeps (Connection.writer_aborted a on) put keep (inl io) v u =
      silent-Keeps ldc bin framed io keep v u
  server-Keeps (Connection.writer_aborted a on) put keep (inr (e, c, i, taken, io)) v u =
      write-Keeps ldc bin framed io (ap is_running on) (λ h. absurd (cc)) v u
  server-Keeps (Connection.elsewhere a) put keep io v u = silent-Keeps ldc bin framed io keep v u
  server-Keeps (Connection.frame (some (ok e)) p) put keep io v u =
      read-Keeps ldc bin framed io keep v u
  server-Keeps (Connection.frame (some (err x)) p) put keep io v u =
      read-Keeps ldc bin framed io keep v u
  server-Keeps (Connection.frame none p) put keep io v u = read-Keeps ldc bin framed io keep v u
  server-Keeps (Connection.writes e c (ok _) on taken) put keep io v u =
      write-Keeps ldc bin framed io (ap is_running on) (λ _. refl) v u
  server-Keeps (Connection.writes e c (err x) on taken) put keep io v u =
      write-Keeps ldc bin framed io (ap is_running on) (λ h. absurd (cc)) v u
