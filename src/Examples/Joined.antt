-- ===== src/Examples/Joined.antt =====
-- The theorems on a client and its server together, at one "ping" of the demonstration program and back.
use patina_rpc.Base.{
  ℕ, ◌≤◌, ◌≡◌, refl, List, [], ◌∷◌, ◌++◌, Bool, true, some, ok, String, Assoc, arith, nat_eq,
  lookup, insert, remove, string_eq, ◌⊎◌, err, ◌+◌,
}
use patina_rpc.Envelope.{Envelope, response}
use patina_rpc.Runtime.{Polled}
use patina_rpc.Client.{
  Args, Client, Outcome, returned, from_stream, enter, fetch_add, park, request_of, submit, write,
  read, fire, finish, id_of, outcome, enters, numbers, parks, submits, writes, reads, fires,
  finishes,
}
use patina_rpc.Client.Verdicts.{verdicts}
use patina_rpc.Server.{Handler, dispatch, register, build, builder}
use patina_rpc.Server.Connection
use patina_rpc.Server.Connection.{
  Connection, init, on_frame, run_handler, reply_sent, frame, run, send,
}
use patina_rpc.Server.Connection.Tally.{requests_for, replies_for, workers_for}
use patina_rpc.System.{System, client_step, server_step, start, next}
use patina_rpc.System
use patina_rpc.Demos.PingPong.{Call, ping_of, args_of, expected, server, replies_expected}
use patina_rpc.Error.{closed}
use patina_rpc.System.Contract.{Promises, verdicts-Promises}
use patina_rpc.Client.Sending.{requests_under}
use patina_rpc.System.Flow.{in_flight}
use patina_rpc.System.Settling.{SettlesWithin, moves_left, every_call_answered}
use patina_rpc.System.Order.{accepted_in_order, each_id_served_once}
use patina_rpc.System.Wires.{arrivals}
use patina_rpc.Examples.Parts.{cell, chan, flag, Chan}

abbrev plan : ℕ → Call
plan k = ping_of (k ∷ [])

abbrev args : ℕ → Args
args k = args_of (plan k)

abbrev handlers : Assoc String (Handler ℕ)
handlers = server.handlers

abbrev Caller : Type 0
Caller = Client (Polled Envelope) Chan Bool

abbrev Callee : Type 0
Callee = Connection ℕ Chan

abbrev Example : Type 0
Example = System (Polled Envelope) Chan Bool ℕ Chan

abbrev asked : Envelope
asked = request_of cell chan flag args 0 0

abbrev reply : Envelope
reply = response (record { id = 0; payload = 0 ∷ [] })

abbrev empty : ℕ → Chan
empty n = record { queue = []; senders = n; has_receiver = true; capacity = 128 }

abbrev holding : Chan
holding = record { queue = reply ∷ []; senders = 2; has_receiver = true; capacity = 128 }

-- The caller's states, up to its request on the wire, and from the reply on.
abbrev waiting : Caller
waiting = submit cell chan flag args 0 0 (
    park cell chan flag args 0 0 (
      fetch_add cell chan flag args 0
        (enter cell chan flag args 0 (from_stream cell chan flag args))))

abbrev sent_it : Caller
sent_it = write cell chan flag args asked (empty 1) (ok tt) waiting

abbrev heard_it : Caller
heard_it = fire cell chan flag args 0 reply (read cell chan flag args (some (ok reply)) sent_it)

abbrev told : Caller
told = finish cell chan flag args 0 0 heard_it

-- The callee's.
abbrev accepted : Callee
accepted = on_frame chan handlers (some (ok asked)) (init chan handlers 0)

abbrev replied : Callee
replied = reply_sent chan handlers [] [] holding (
    run_handler chan handlers [] (record { id = 0; method = "ping"; payload = 0 ∷ [] }) [] accepted)

abbrev answered : Callee
answered = Connection.write chan handlers reply (empty 1) (ok tt) replied

abbrev joined : Caller → Callee → List Envelope → List Envelope → Example
joined c s up down = record { client = c; server = s; to_server = up; to_client = down }

abbrev IsReachable : Example → Type 0
IsReachable y = System.Reach cell chan flag args chan handlers 0 y

sent-Reach : IsReachable (joined sent_it (init chan handlers 0) (asked ∷ []) [])
unfolding from_stream enter fetch_add park submit init write
sent-Reach =
    next
      (next
        (next
          (next (next start (client_step (enters 0 refl refl) [] refl))
            (client_step (numbers 0 refl) [] refl))
          (client_step (parks 0 0 refl) [] refl))
        (client_step (submits 0 0 refl) [] refl))
      (client_step (writes asked (empty 1) (ok tt) refl refl) [] refl)

answered-Reach : IsReachable (joined sent_it answered [] (reply ∷ []))
unfolding from_stream enter fetch_add park submit init write on_frame run_handler dispatch lookup
    insert remove server build register builder reply_sent Connection.write
answered-Reach =
    next
      (next
        (next (next sent-Reach (server_step (frame (some (ok asked)) refl) [] refl)) (
          server_step (run [] (record { id = 0; method = "ping"; payload = 0 ∷ [] }) [] refl) []
            refl))
        (server_step (send [] reply [] holding refl refl) [] refl))
      (server_step (Connection.writes reply (empty 1) (ok tt) refl refl) [] refl)

told-Reach : IsReachable (joined told answered [] [])
unfolding from_stream enter fetch_add park submit init write on_frame run_handler dispatch lookup
    server build register builder insert remove reply_sent Connection.write read fire id_of finish
told-Reach =
    next
      (next (next answered-Reach (client_step (reads (some (ok reply)) refl) [] refl))
        (client_step (fires 0 reply refl) [] refl))
      (client_step (finishes 0 0 refl) [] refl)

call_returned : told.calls 0 ≡ returned (ok (0 ∷ []))
unfolding from_stream enter fetch_add park submit write read fire finish outcome id_of lookup insert
    remove
call_returned = refl

verdicts-Promises_example : Promises args handlers (verdicts told.calls)
unfolding from_stream enter fetch_add park submit write read fire finish id_of lookup insert remove
verdicts-Promises_example =
    verdicts-Promises cell chan flag args chan handlers told-Reach (omega arith)

accepted_in_order_example : sent_it.wire ≡ arrivals answered.accepted ++ []
accepted_in_order_example = accepted_in_order cell chan flag args chan handlers answered-Reach

each_id_served_once_example : requests_for 0 answered.accepted ≤ 1
unfolding from_stream enter fetch_add park submit write
each_id_served_once_example =
    (each_id_served_once cell chan flag args chan handlers answered-Reach (omega arith) 0).0

abbrev asking : Example
asking = joined sent_it (init chan handlers 0) (asked ∷ []) []

every_call_answered_example : SettlesWithin cell chan flag args chan handlers 2 23 asking
unfolding from_stream enter fetch_add park submit write init moves_left
every_call_answered_example =
    every_call_answered cell chan flag args chan handlers 2 sent-Reach (omega arith)
      (record { listening = tt; sending_on = refl; accepting = refl; replying_on = refl })

in_flight_example :
    1
    ≤ requests_under 0 (chan.queue sent_it.outbound)
      + requests_under 0 asking.to_server
      + workers_for 0 asking.server.workers
      + replies_for 0 (chan.queue asking.server.channel)
      + replies_for 0 asking.to_client
unfolding from_stream enter fetch_add park submit write init insert lookup
in_flight_example =
    in_flight cell chan flag args chan handlers sent-Reach (omega arith) refl refl 0 0 refl refl

abbrev shown : Outcome
shown = ok (0 ∷ [])

replies_expected_example : (shown ≡ err closed) ⊎ (shown ≡ ok (expected (plan 0)))
unfolding from_stream enter fetch_add park submit write read fire finish outcome id_of lookup insert
    remove
replies_expected_example =
    replies_expected cell chan flag chan plan told-Reach (omega arith) 0 shown refl
