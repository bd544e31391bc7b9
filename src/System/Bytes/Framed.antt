-- ===== src/System/Bytes/Framed.antt =====
-- `Framed::new(stream, WireCodec::new())`, at each end of a connection (crates/patina-rpc/src/client.rs,
-- crates/patina-rpc/src/server.rs): what is relied on of tokio's `Framed` over a socket.
use patina_rpc.Base.{◌≡◌, ℕ, List, [], ◌∷◌, ◌++◌, Option, none, some, Result, ok, err}
use patina_rpc.Envelope.{Envelope}
use patina_rpc.Error.{WireError, IoError, io}
use patina_rpc.Codec.{LengthDelimited, Bincode, WireCodec, encode, decode, new}

-- The codec, and the bytes that have arrived and that it has not taken.
pub record Framed (S : Type 0) : Type 0 where
  pub codec : WireCodec S
  pub buffer : List ℕ

module _ {S : Type 0} (ldc : LengthDelimited S) (bin : Bincode Envelope) where
  abbrev pub framed_new : Framed S
  framed_new = record { codec = new ldc; buffer = [] }

  -- What a call of `decode` leaves of it.
  abbrev pub after_decode : Framed S → Framed S
  after_decode f =
      let d = decode ldc bin f.codec f.buffer in record { codec = d.codec; buffer = d.src }

  -- What `next()` may give: what `decode` does, an error of the socket, or its end.
  pub data Read (f : Framed S) : Option (Result Envelope WireError) → Framed S → Type 0 where
    yields :
        {e : Envelope}
        → (decode ldc bin f.codec f.buffer).result ≡ ok (some e)
        → Read f (some (ok e)) (after_decode f)
    refuses :
        {x : WireError}
        → (decode ldc bin f.codec f.buffer).result ≡ err x
        → Read f (some (err x)) (after_decode f)
    breaks : (i : IoError) → Read f (some (err (io i))) f
    closes : Read f none f

  -- What `send(e)` may give, and the bytes that it then has put on the socket: all that `encode` wrote, none
  -- where it refuses, or a part where the socket fails.
  pub data Written (f : Framed S) (e : Envelope)
      : Result (Unit {0}) WireError → Framed S → List ℕ → Type 0 where
    whole :
        (encode ldc bin f.codec e []).result ≡ ok tt
        → Written f e
            (ok tt)
            (record f { codec = (encode ldc bin f.codec e []).codec })
            (encode ldc bin f.codec e []).dst
    refused :
        {x : WireError}
        → (encode ldc bin f.codec e []).result ≡ err x
        → Written f e (err x) (record f { codec = (encode ldc bin f.codec e []).codec }) []
    torn :
        (i : IoError) (part : List ℕ) (b : ℕ) (rest : List ℕ)
        → (encode ldc bin f.codec e []).result ≡ ok tt
        → (encode ldc bin f.codec e []).dst ≡ part ++ (b ∷ rest)
        → Written f e (err (io i)) (record f { codec = (encode ldc bin f.codec e []).codec }) part

  -- `Framed` over a socket. `next` and `send` relate what they find, their result and what they leave;
  -- `polls` is a poll of `next()` that waits for more bytes.
  pub record FramedIo : Type 1 where
    pub next : Framed S → Option (Result Envelope WireError) → Framed S → Type 0
    pub send : Framed S → Envelope → Result (Unit {0}) WireError → Framed S → List ℕ → Type 0
    pub polls : Framed S → Framed S → Type 0
    pub next_lem :
        {f : Framed S} {r : Option (Result Envelope WireError)} {f' : Framed S}
        → next f r f'
        → Read f r f'
    pub send_lem :
        {f : Framed S} {e : Envelope} {r : Result (Unit {0}) WireError} {f' : Framed S}
        {put : List ℕ}
        → send f e r f' put
        → Written f e r f' put
    pub polls_lem :
        {f f' : Framed S}
        → polls f f'
        → ((decode ldc bin f.codec f.buffer).result ≡ ok none) × (f' ≡ after_decode f)
