-- ===== src/System/Bytes.antt =====
-- A client and a server over a stream of bytes in each direction, with the codec at both ends of it:
-- `client.rs`, `server.rs` and `codec.rs` of crates/patina-rpc/src together. The bytes arrive in chunks,
-- cut anywhere.
pub mod Framed
pub mod Carried
pub mod Decoding
pub mod Encoding
pub mod Ends
pub mod Sides
pub mod Refines
use patina_rpc.Base.{◌⊎◌, err, ℕ, ◌≡◌, List, [], ◌++◌, Assoc, String}
use patina_rpc.Envelope.{Envelope}
use patina_rpc.Error.{IoError, io}
use patina_rpc.Runtime.{Oneshot, Mpsc, CancellationToken, got}
use patina_rpc.Codec.{LengthDelimited, Bincode}
use patina_rpc.Server.{Handler}
use patina_rpc.Client
use patina_rpc.Client.{Args, Client, from_stream}
use patina_rpc.Server.Connection
use patina_rpc.Server.Connection.{Connection, init}
use Framed.{Framed as FramedCodec, framed_new, FramedIo}

-- The bytes under way in each direction, the oldest first.
pub record ByteSystem (O C T W D S : Type 0) : Type 0 where
  pub client : Client O C T
  pub server : Connection W D
  pub client_end : FramedCodec S
  pub server_end : FramedCodec S
  pub to_server : List ℕ
  pub to_client : List ℕ

module _ {O C T W D S : Type 0} (oneshot : Oneshot O Envelope) (mpsc : Mpsc C Envelope)
    (tokens : CancellationToken T) (args : ℕ → Args) (channels : Mpsc D Envelope)
    (handlers : Assoc String (Handler W)) (ldc : LengthDelimited S) (bin : Bincode Envelope)
    (framed : FramedIo ldc bin) where
  abbrev pub connected : W → ByteSystem O C T W D S
  connected w = record {
    client = from_stream oneshot mpsc tokens args;
    server = init channels handlers w;
    client_end = framed_new ldc bin;
    server_end = framed_new ldc bin;
    to_server = [];
    to_client = [];
  }

  -- What a step of the client, or of the server's connection, does at its end of the streams: from
  -- `f` to `f'`, with `put` written. A writer that is dropped in the middle of a send leaves what one
  -- that fails would: a part of the frame.
  abbrev pub ClientIo :
      {s t : Client O C T}
      → Client.Step oneshot mpsc tokens args s t
      → FramedCodec S
      → FramedCodec S
      → List ℕ
      → Type 0
  ClientIo (Client.reads r _) f f' put = framed.next f r f' × (put ≡ [])
  ClientIo (Client.writes e _ r _ _) f f' put = framed.send f e r f' put
  ClientIo _ f f' put = (f' ≡ f) × (put ≡ [])

  abbrev pub ServerIo :
      {s t : Connection W D}
      → Connection.Step channels handlers s t
      → FramedCodec S
      → FramedCodec S
      → List ℕ
      → Type 0
  ServerIo (Connection.frame r _) f f' put = framed.next f r f' × (put ≡ [])
  ServerIo (Connection.writes e _ r _ _) f f' put = framed.send f e r f' put
  ServerIo {s} (Connection.writer_aborted _ _) f f' put =
      ((f' ≡ f) × (put ≡ []))
      ⊎ ((e : Envelope) × (c : D) × (i : IoError) × (channels.recv s.channel ≡ got e c)
          × framed.send f e (err (io i)) f' put)
  ServerIo _ f f' put = (f' ≡ f) × (put ≡ [])

  -- One of the two sides makes a step; a chunk arrives; or a poll of `next()` finds no whole
  -- frame yet.
  pub data Step (y : ByteSystem O C T W D S) : ByteSystem O C T W D S → Type 0 where
    client_step :
        {t : Client O C T} (st : Client.Step oneshot mpsc tokens args y.client t)
        (f : FramedCodec S) (put : List ℕ)
        → ClientIo st y.client_end f put
        → Step y (record y { client = t; client_end = f; to_server = y.to_server ++ put })
    server_step :
        {t : Connection W D} (st : Connection.Step channels handlers y.server t) (f : FramedCodec S)
        (put : List ℕ)
        → ServerIo st y.server_end f put
        → Step y (record y { server = t; server_end = f; to_client = y.to_client ++ put })
    reaches_server :
        (part rest : List ℕ)
        → y.to_server ≡ part ++ rest
        → Step y (record y {
          server_end = record y.server_end { buffer = y.server_end.buffer ++ part };
          to_server = rest;
        })
    reaches_client :
        (part rest : List ℕ)
        → y.to_client ≡ part ++ rest
        → Step y (record y {
          client_end = record y.client_end { buffer = y.client_end.buffer ++ part };
          to_client = rest;
        })
    server_polls :
        (f : FramedCodec S) → framed.polls y.server_end f → Step y (record y { server_end = f })
    client_polls :
        (f : FramedCodec S) → framed.polls y.client_end f → Step y (record y { client_end = f })

  pub data Reach (w : W) : ByteSystem O C T W D S → Type 0 where
    start : Reach w (connected w)
    next : {y z : ByteSystem O C T W D S} → Reach w y → Step y z → Reach w z
