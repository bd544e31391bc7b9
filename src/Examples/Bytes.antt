-- ===== src/Examples/Bytes.antt =====
-- The theorem on a client and a server over streams of bytes, at a request that arrives in two chunks.
use patina_rpc.Base.{
  ◌*◌, true, ℕ, ◌≡◌, refl, List, [], ◌∷◌, Assoc, Bool, none, some, ok, String, nat_eq,
}
use patina_rpc.Envelope.{Envelope}
use patina_rpc.Runtime.{Polled}
use patina_rpc.Codec.{arrived, envelope_of, decode, encode, new, with_max_frame_length}
use patina_rpc.Server.{Handler, handler_fn}
use patina_rpc.Client
use patina_rpc.Client.{Args, Client, request_of, from_stream, enter, fetch_add, park, submit, write}
use patina_rpc.Server.Connection
use patina_rpc.Server.Connection.{Connection, init, on_frame}
use patina_rpc.System
use patina_rpc.System.Bytes.{
  ByteSystem, Reach, start, next, client_step, server_step, reaches_server, server_polls,
}
use patina_rpc.System.Bytes.Framed.{Framed, FramedIo, Read, Written, whole, yields, after_decode}
use patina_rpc.System.Bytes.Refines.{joined, Decodes, refines_envelopes}
use patina_rpc.Examples.Parts.{cell, chan, flag, Chan, Framer, framer}
use patina_rpc.Examples.UnitTests.{serialiser}

abbrev args : ℕ → Args
args k = record { method = "m"; payload = k ∷ [] }

abbrev handlers : Assoc String (Handler ℕ)
handlers = (("m", handler_fn (λ payload w. (ok payload, w))) ∷ [])

abbrev Example : Type 0
Example = ByteSystem (Polled Envelope) Chan Bool ℕ Chan Framer

abbrev asked : Envelope
asked = request_of cell chan flag args 0 0

abbrev waiting : Client (Polled Envelope) Chan Bool
waiting = submit cell chan flag args 0 0 (
    park cell chan flag args 0 0 (
      fetch_add cell chan flag args 0
        (enter cell chan flag args 0 (from_stream cell chan flag args))))

abbrev empty : Chan
empty = record { queue = []; senders = 1; has_receiver = true; capacity = 128 }

abbrev at_rest : Framed Framer
at_rest = record { codec = new framer; buffer = [] }

-- Sockets that may do all that is allowed.
abbrev sockets : FramedIo framer serialiser
sockets = record {
  next = Read framer serialiser;
  send = Written framer serialiser;
  polls = λ f f'.
      ((decode framer serialiser f.codec f.buffer).result ≡ ok none)
      × (f' ≡ after_decode framer serialiser f);
  next_lem = λ h. h;
  send_lem = λ h. h;
  polls_lem = λ h. h;
}

abbrev IsReachable : Example → Type 0
IsReachable = Reach cell chan flag args chan handlers framer serialiser sockets 0

abbrev sent_it : Example
sent_it = record {
  client = write cell chan flag args asked empty (ok tt) waiting;
  server = init chan handlers 0;
  client_end = at_rest;
  server_end = at_rest;
  to_server = 0 ∷ 0 ∷ 0 ∷ 4 ∷ 4 ∷ 0 ∷ 1 ∷ 0 ∷ [];
  to_client = [];
}

sent-Reach : IsReachable sent_it
unfolding from_stream enter fetch_add park submit init write new with_max_frame_length encode
sent-Reach =
    next
      (next
        (next
          (next (next start (client_step (Client.enters 0 refl refl) _ _ (refl, refl)))
            (client_step (Client.numbers 0 refl) _ _ (refl, refl)))
          (client_step (Client.parks 0 0 refl) _ _ (refl, refl)))
        (client_step (Client.submits 0 0 refl) _ _ (refl, refl)))
      (client_step (Client.writes asked empty (ok tt) refl refl) _ _ (whole refl))

-- The first chunk ends within the length field.
abbrev part_arrived : Example
part_arrived = record sent_it {
  server_end = record {
    codec = record { inner = record { taken = 0 ∷ 0 ∷ []; max = 64 * 1024 * 1024 } };
    buffer = [];
  };
  to_server = 0 ∷ 4 ∷ 4 ∷ 0 ∷ 1 ∷ 0 ∷ [];
}

part-Reach : IsReachable part_arrived
unfolding new with_max_frame_length decode arrived envelope_of
part-Reach =
    next (next sent-Reach (reaches_server (0 ∷ 0 ∷ []) _ refl)) (server_polls _ (refl, refl))

-- The rest arrives, and the connection accepts the request.
abbrev accepted : Example
accepted = record part_arrived {
  server = on_frame chan handlers (some (ok asked)) (init chan handlers 0);
  server_end = at_rest;
  to_server = [];
}

accepted-Reach : IsReachable accepted
unfolding new with_max_frame_length decode arrived envelope_of init
accepted-Reach =
    next (next part-Reach (reaches_server (0 ∷ 4 ∷ 4 ∷ 0 ∷ 1 ∷ 0 ∷ []) [] refl))
      (server_step (Connection.frame (some (ok asked)) refl) _ _ (yields refl, refl))

refines_envelopes_example :
    (up : List Envelope) × (down : List Envelope) × System.Reach cell chan flag args chan handlers 0
      (joined cell chan flag args chan handlers framer serialiser sockets accepted up down)
    × Decodes cell chan flag args chan handlers framer serialiser sockets accepted.server_end [] up
    × Decodes cell chan flag args chan handlers framer serialiser sockets accepted.client_end []
        down
refines_envelopes_example =
    refines_envelopes cell chan flag args chan handlers framer serialiser sockets accepted-Reach
