-- ===== src/Examples/Typed.antt =====
-- The theorem on a call of a generated method over a connection, at one sum of two numbers and back.
use patina_rpc.Base.{
  ℕ, ◌≡◌, refl, List, [], ◌∷◌, Bool, true, some, ok, String, Assoc, arith, nat_eq, lookup, insert,
  remove, string_eq, ◌>>=◌, ◌⊎◌, err,
}
use patina_rpc.Envelope.{Envelope, RequestData, response}
use patina_rpc.Runtime.{Polled}
use patina_rpc.Client.{
  Args, Client, Outcome, from_stream, enter, fetch_add, park, request_of, submit, write, read, fire,
  finish, id_of, outcome, enters, numbers, parks, submits, writes, reads, fires, finishes,
}
use patina_rpc.Server.{Handler, dispatch, add_service, build, builder}
use patina_rpc.Server.Connection
use patina_rpc.Server.Connection.{
  Connection, init, on_frame, run_handler, reply_sent, frame, run, send,
}
use patina_rpc.System.{System, client_step, server_step, start, next}
use patina_rpc.System
use patina_rpc.Examples.Generated.{calc_service, add, number_codec}
use patina_rpc.Service.{server, dispatch_arms, run_arm}
use patina_rpc.Service.Proxy.{as_seen}
use patina_rpc.Service.Remote.{sent_for, typed_call_answered}
use patina_rpc.Macros.{wire_method_name}
use patina_rpc.Payload
use patina_rpc.Error.{closed}
use patina_rpc.Examples.Parts.{cell, chan, flag, Chan}

abbrev args : ℕ → Args
args k = sent_for calc_service builder [] add [] refl refl (2 ∷ 3 ∷ [])

abbrev handlers : Assoc String (Handler ℕ)
handlers = (build (add_service (server calc_service) builder)).handlers

abbrev Caller : Type 0
Caller = Client (Polled Envelope) Chan Bool

abbrev Callee : Type 0
Callee = Connection ℕ Chan

abbrev Example : Type 0
Example = System (Polled Envelope) Chan Bool ℕ Chan

abbrev asked : Envelope
asked = request_of cell chan flag args 0 0

abbrev asked_data : RequestData
asked_data = record { id = 0; method = "Calc::add"; payload = 2 ∷ 3 ∷ [] }

abbrev reply : Envelope
reply = response (record { id = 0; payload = 5 ∷ [] })

abbrev empty : ℕ → Chan
empty n = record { queue = []; senders = n; has_receiver = true; capacity = 128 }

abbrev holding : Chan
holding = record { queue = reply ∷ []; senders = 2; has_receiver = true; capacity = 128 }

-- The caller's states, up to its request on the wire, and from the reply on.
abbrev waiting : Caller
waiting = submit cell chan flag args 0 0 (
    park cell chan flag args 0 0 (
      fetch_add cell chan flag args 0
        (enter cell chan flag args 0 (from_stream cell chan flag args))))

abbrev sent_it : Caller
sent_it = write cell chan flag args asked (empty 1) (ok tt) waiting

abbrev heard_it : Caller
heard_it = fire cell chan flag args 0 reply (read cell chan flag args (some (ok reply)) sent_it)

abbrev told : Caller
told = finish cell chan flag args 0 0 heard_it

-- The callee's.
abbrev accepted : Callee
accepted = on_frame chan handlers (some (ok asked)) (init chan handlers 0)

abbrev replied : Callee
replied =
    reply_sent chan handlers [] [] holding (run_handler chan handlers [] asked_data [] accepted)

abbrev answered : Callee
answered = Connection.write chan handlers reply (empty 1) (ok tt) replied

abbrev joined : Caller → Callee → List Envelope → List Envelope → Example
joined c s up down = record { client = c; server = s; to_server = up; to_client = down }

abbrev IsReachable : Example → Type 0
IsReachable y = System.Reach cell chan flag args chan handlers 0 y

sent-Reach : IsReachable (joined sent_it (init chan handlers 0) (asked ∷ []) [])
unfolding from_stream enter fetch_add park submit init write
sent-Reach =
    next
      (next
        (next
          (next (next start (client_step (enters 0 refl refl) [] refl))
            (client_step (numbers 0 refl) [] refl))
          (client_step (parks 0 0 refl) [] refl))
        (client_step (submits 0 0 refl) [] refl))
      (client_step (writes asked (empty 1) (ok tt) refl refl) [] refl)

answered-Reach : IsReachable (joined sent_it answered [] (reply ∷ []))
unfolding from_stream enter fetch_add park submit init write on_frame run_handler dispatch lookup
    insert remove server build add_service builder wire_method_name dispatch_arms run_arm reply_sent
    Connection.write
answered-Reach =
    next
      (next
        (next (next sent-Reach (server_step (frame (some (ok asked)) refl) [] refl))
          (server_step (run [] asked_data [] refl) [] refl))
        (server_step (send [] reply [] holding refl refl) [] refl))
      (server_step (Connection.writes reply (empty 1) (ok tt) refl refl) [] refl)

told-Reach : IsReachable (joined told answered [] [])
unfolding from_stream enter fetch_add park submit init write on_frame run_handler dispatch lookup
    server build add_service builder wire_method_name dispatch_arms run_arm insert remove reply_sent
    Connection.write read fire id_of finish
told-Reach =
    next
      (next (next answered-Reach (client_step (reads (some (ok reply)) refl) [] refl))
        (client_step (fires 0 reply refl) [] refl))
      (client_step (finishes 0 0 refl) [] refl)

abbrev shown : Outcome
shown = ok (5 ∷ [])

typed_call_answered_example :
    (shown ≡ err closed)
    ⊎ ((w : ℕ) × (shown >>= Payload.decode number_codec
          ≡ as_seen add (add.implementation (2, 3) w).0))
unfolding from_stream enter fetch_add park submit write read fire finish outcome id_of lookup insert
    remove wire_method_name
typed_call_answered_example =
    typed_call_answered calc_service builder [] add [] refl refl cell chan flag chan args told-Reach
      (omega arith) (2, 3) (2 ∷ 3 ∷ []) refl 0 refl shown refl
