-- ===== src/System/Bytes/Refines.antt =====
-- A client and a server over streams of bytes do nothing that they do not do over streams of envelopes
-- (crates/patina-rpc/src/client.rs, crates/patina-rpc/src/server.rs, crates/patina-rpc/src/codec.rs).
use patina_rpc.Base.{
  ℕ, ◌≡◌, refl, subst, ◌⊎◌, inl, inr, List, [], ◌∷◌, Assoc, none, some, ok, String, nat_eq, Bool,
}
use patina_rpc.Envelope.{Envelope}
use patina_rpc.Runtime.{Oneshot, Mpsc, CancellationToken}
use patina_rpc.Codec.{LengthDelimited, Bincode, decode}
use patina_rpc.Server.{Handler}
use patina_rpc.Client.{Args}
use patina_rpc.Server.Connection.Invariant.{is_running}
use patina_rpc.System
use patina_rpc.System.{System as Joined}
use patina_rpc.System.Bytes.{
  ByteSystem, Reach, start, next, client_step, server_step, reaches_server, reaches_client,
  server_polls, client_polls,
}
use patina_rpc.System.Bytes.Framed.{Framed, FramedIo}
use patina_rpc.System.Bytes.Carried.{Carries, framed_new-Carries}
use patina_rpc.System.Bytes.Decoding.{Carries-yields, Carries-Decodes}
use patina_rpc.System.Bytes.Sides.{client-Keeps, server-Keeps}
use patina_rpc.System.Bytes.Ends.{
  arrives-Stands, polls-Stands, client_writes, client_writes_on, runs_on, Stands,
}

module _ {O C T W D S : Type 0} (oneshot : Oneshot O Envelope) (mpsc : Mpsc C Envelope)
    (tokens : CancellationToken T) (args : ℕ → Args) (channels : Mpsc D Envelope)
    (handlers : Assoc String (Handler W)) (ldc : LengthDelimited S) (bin : Bincode Envelope)
    (framed : FramedIo ldc bin) where
  abbrev pub joined : ByteSystem O C T W D S → List Envelope → List Envelope → Joined O C T W D
  joined y up down = record {
    client = y.client;
    server = y.server;
    to_server = up;
    to_client = down;
  }

  -- The streams of envelopes that the bytes stand for, in a system that can be reached with them.
  record Refines (w : W) (y : ByteSystem O C T W D S) : Type 0 where
    up : List Envelope
    down : List Envelope
    reached : System.Reach oneshot mpsc tokens args channels handlers w (joined y up down)
    upward : Stands ldc bin framed y.server_end y.to_server up (client_writes y.client.writer)
    downward : Stands ldc bin framed y.client_end y.to_client down (is_running y.server.writer)

  Reach-Refines :
      {w : W} {y : ByteSystem O C T W D S}
      → Reach oneshot mpsc tokens args channels handlers ldc bin framed w y
      → Refines w y
  Reach-Refines start = record {
    up = [];
    down = [];
    reached = System.start;
    upward = record { tail = []; carries = framed_new-Carries ldc bin; clean = λ _. refl };
    downward = record { tail = []; carries = framed_new-Carries ldc bin; clean = λ _. refl };
  }
  Reach-Refines (next r (client_step st f put io)) =
      let v = Reach-Refines r in
      let (rest, takes, downward, upward) =
        client-Keeps oneshot mpsc tokens args channels handlers ldc bin framed st put
          (client_writes_on oneshot mpsc tokens args channels handlers st) io v.downward v.upward in
      record {
        up = _;
        down = rest;
        reached = System.next v.reached (System.client_step st rest takes);
        upward = upward;
        downward = downward;
      }
  Reach-Refines (next r (server_step st f put io)) =
      let v = Reach-Refines r in
      let (rest, takes, upward, downward) =
        server-Keeps oneshot mpsc tokens args channels handlers ldc bin framed st put
          (runs_on oneshot mpsc tokens args channels handlers st) io v.upward v.downward in
      record {
        up = rest;
        down = _;
        reached = System.next v.reached (System.server_step st rest takes);
        upward = upward;
        downward = downward;
      }
  Reach-Refines (next {y} r (reaches_server part rest q)) =
      let v = Reach-Refines r in
      record {
        up = v.up;
        down = v.down;
        reached = v.reached;
        upward = arrives-Stands ldc bin framed part rest q v.upward;
        downward = v.downward;
      }
  Reach-Refines (next {y} r (reaches_client part rest q)) =
      let v = Reach-Refines r in
      record {
        up = v.up;
        down = v.down;
        reached = v.reached;
        upward = v.upward;
        downward = arrives-Stands ldc bin framed part rest q v.downward;
      }
  Reach-Refines (next r (server_polls f io)) =
      let v = Reach-Refines r in
      record {
        up = v.up;
        down = v.down;
        reached = v.reached;
        upward = polls-Stands ldc bin framed io v.upward;
        downward = v.downward;
      }
  Reach-Refines (next r (client_polls f io)) =
      let v = Reach-Refines r in
      record {
        up = v.up;
        down = v.down;
        reached = v.reached;
        upward = v.upward;
        downward = polls-Stands ldc bin framed io v.downward;
      }

  -- What the next `decode` at `f` gives while the envelopes `es` are on their way to it: none yet or
  -- the first of them, never an error; and the first, once no byte is under way.
  abbrev pub Decodes : Framed S → List ℕ → List Envelope → Type 0
  Decodes f transit es =
      let r = (decode ldc bin f.codec f.buffer).result in
      ((r ≡ ok none)
        ⊎ ((e : Envelope) × (rest : List Envelope) × (es ≡ e ∷ rest) × (r ≡ ok (some e))))
      × ((e : Envelope) (rest : List Envelope) → transit ≡ [] → es ≡ e ∷ rest → r ≡ ok (some e))

  Stands-Decodes :
      (f : Framed S) (transit : List ℕ) (es : List Envelope) (writes : Bool)
      → Stands ldc bin framed f transit es writes
      → Decodes f transit es
  Stands-Decodes f transit es writes v = (
    elim (Carries-Decodes ldc bin f transit es v.tail v.carries) [
      | inl (waits, _) ↦ inl waits
      | inr (e, rest, first, got_it, _) ↦ inr (e, rest, first, got_it)
    ],
    λ e rest arrived front. Carries-yields ldc bin f e rest v.tail (
        subst (λ l. Carries ldc bin f [] l v.tail) front
          (subst (λ l. Carries ldc bin f l es v.tail) arrived v.carries)),
  )

  -- For every state that a client and a server reach over two streams of bytes, there are streams of
  -- envelopes with which the same client and server are reached. At either end `decode` never gives
  -- an error: it finds no whole frame, or yields the first envelope of the stream; and it yields
  -- that once no byte is under way.
  pub refines_envelopes :
      {w : W} {y : ByteSystem O C T W D S}
      → Reach oneshot mpsc tokens args channels handlers ldc bin framed w y
      → (up : List Envelope) × (down : List Envelope) × System.Reach oneshot mpsc tokens args
          channels handlers w
          (joined y up down)
        × Decodes y.server_end y.to_server up
        × Decodes y.client_end y.to_client down
  refines_envelopes {w} {y} r =
      let v = Reach-Refines r in
      (
        v.up,
        v.down,
        v.reached,
        Stands-Decodes y.server_end y.to_server v.up (client_writes y.client.writer) v.upward,
        Stands-Decodes y.client_end y.to_client v.down (is_running y.server.writer) v.downward,
      )
