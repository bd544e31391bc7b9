-- ===== src/Examples/Serving.antt =====
-- The theorems on the server at short runs: an echo handler, which counts its calls.
use patina_rpc.Base.{
  ℕ, suc, ◌≤◌, ◌≡◌, ◌⊎◌, ◌≢◌, List, map, ◌++◌, Result, refl, [], ◌∷◌, true, none, some, ok, err,
  length, String, Assoc, lookup, string_eq,
}
use patina_rpc.Envelope.{Envelope, RequestData, request, response, error}
use patina_rpc.Error.{WireError, other_kind, IoError, wire, io}
use patina_rpc.Server.Accept.{serve, serve_lem}
use patina_rpc.Server.{
  HandlerError, Handler, handler_fn, PatinaService, builder, register, build, dispatch,
}
use patina_rpc.Server.Registry.{build-lookup, dispatch_answers}
use patina_rpc.Server.Connection.{
  Connection, init, on_frame, run_handler, reply_sent, write, writer_ends, Reach, start, next,
  running, drop_future, abort_writer, frame, run, send, writes, write_ends,
}
use patina_rpc.Server.Connection.Tally.{replies_for, requests_for}
use patina_rpc.Server.Connection.Shutdown.{
  replies-le-requests, drained_answers_all, channel_bounds, broken_writer_reads_on,
  drop_future_stops_writer, none_yet,
}
use patina_rpc.Server.Connection.Answers.{IsAnswer, wire-IsAnswer}
use mathlib.Core.List.Memᴰ.{head}
use patina_rpc.Examples.Parts.{chan, Chan}

abbrev echo : Handler ℕ
echo = handler_fn (λ payload w. (ok payload, suc w))

abbrev handlers : Assoc String (Handler ℕ)
handlers = (("echo", echo) ∷ [])

abbrev calc : PatinaService ℕ
calc = record {
  method_names = "Calc::add" ∷ "Calc::ping" ∷ [];
  dispatch = λ method payload w. (ok (1 ∷ []), w);
}

abbrev call : RequestData
call = record { id = 42; method = "echo"; payload = 1 ∷ 2 ∷ [] }

abbrev reply : Envelope
reply = response (record { id = 42; payload = 1 ∷ 2 ∷ [] })

dispatch_answers_example :
    let (e, w) = dispatch handlers call 0 in
    ((h : Handler ℕ) × (lookup "echo" handlers ≡ some h)
      × (w ≡ (h.handle call.payload 0).1)
      × (((bytes : List ℕ) × ((h.handle call.payload 0).0 ≡ ok bytes)
            × (e ≡ response (record { id = 42; payload = bytes })))
          ⊎ ((x : HandlerError) × ((h.handle call.payload 0).0 ≡ err x)
              × (e ≡ error (record { id = 42; code = x.code; message = x.message })))))
    ⊎ ((lookup "echo" handlers ≡ none)
        × (e ≡ error (record { id = 42; code = 404; message = "unknown method: echo" }))
        × (w ≡ 0))
dispatch_answers_example = dispatch_answers handlers call 0

build-lookup_example :
    lookup "echo" (build (register "echo" echo (builder {W = ℕ}))).handlers ≡ some echo
build-lookup_example = (build-lookup builder "echo" "echo" echo calc).0

unknown_is_404 :
    (dispatch handlers (record { id = 5; method = "nope"; payload = [] }) 0).0
    ≡ error (record { id = 5; code = 404; message = "unknown method: nope" })
unfolding dispatch lookup
unknown_is_404 = refl

abbrev Example : Type 0
Example = Connection ℕ Chan

abbrev accepted : Example
accepted = on_frame chan handlers (some (ok (request call))) (init chan handlers 0)

abbrev handled : Example
handled = run_handler chan handlers [] call [] accepted

abbrev queued : Chan
queued = record { queue = reply ∷ []; senders = 2; has_receiver = true; capacity = 128 }

abbrev replied : Example
replied = reply_sent chan handlers [] [] queued handled

abbrev unqueued : Chan
unqueued = record { queue = []; senders = 1; has_receiver = true; capacity = 128 }

abbrev written : Example
written = write chan handlers reply unqueued (ok tt) replied

abbrev closed : Example
closed = writer_ends chan handlers (on_frame chan handlers none written)

replied-Reach : Reach chan handlers 0 replied
unfolding init on_frame run_handler dispatch lookup reply_sent
replied-Reach =
    next (next (next start (frame (some (ok (request call))) refl)) (run [] call [] refl))
      (send [] reply [] queued refl refl)

closed-Reach : Reach chan handlers 0 closed
unfolding init on_frame run_handler dispatch lookup reply_sent write
closed-Reach =
    next (next (next replied-Reach (writes reply unqueued (ok tt) refl refl)) (frame none refl))
      (write_ends refl refl)

drained_answers_all_example : replies_for 42 closed.wire ≡ requests_for 42 closed.accepted
unfolding writer_ends
drained_answers_all_example = (drained_answers_all chan handlers closed-Reach refl).2 42

replies-le-requests_example : replies_for 42 replied.wire ≤ requests_for 42 replied.accepted
replies-le-requests_example = replies-le-requests chan handlers replied-Reach 42

channel_bounds_example : length (chan.queue replied.channel) ≤ 128
channel_bounds_example = (channel_bounds chan handlers replied-Reach).0

abbrev too_big : WireError
too_big = WireError.io (record { kind = other_kind; text = "frame size too big" })

abbrev half_open : Example
half_open =
    on_frame chan handlers (some (ok (request call)))
      (write chan handlers reply unqueued (err too_big) replied)

broken_writer_reads_on_example : half_open.wire ≡ []
unfolding init on_frame run_handler dispatch lookup reply_sent
broken_writer_reads_on_example =
    (broken_writer_reads_on chan handlers replied half_open reply unqueued too_big call refl refl
      refl none_yet).4

wire-IsAnswer_example : IsAnswer chan handlers closed.accepted reply
unfolding init on_frame run_handler dispatch lookup reply_sent write writer_ends
wire-IsAnswer_example = wire-IsAnswer chan handlers closed-Reach reply (head refl)

-- Two sockets, an error, and a socket that is never looked at.
abbrev accepts : List (Result ℕ IoError)
accepts = ok 1 ∷ ok 2 ∷ err (record { kind = other_kind; text = "too many open files" }) ∷ ok 3 ∷ []

serve_lem_example :
    ((ps : List ℕ) × (accepts ≡ map ok ps)
      × (serve accepts ≡ record { spawned = ps; result = none }))
    ⊎ ((ps : List ℕ) × (e : IoError) × (rest : List (Result ℕ IoError)) × (accepts
          ≡ map ok ps ++ (err e ∷ rest))
        × (serve accepts ≡ record { spawned = ps; result = some (wire (io e)) }))
serve_lem_example = serve_lem accepts

serve_stops_at_error : (serve accepts).spawned ≡ 1 ∷ 2 ∷ []
unfolding serve
serve_stops_at_error = refl

drop_future_stops_writer_example :
    let t = abort_writer chan handlers (drop_future chan handlers replied) in
    (t.writer ≢ running) × (t.wire ≡ [])
unfolding init on_frame run_handler dispatch lookup reply_sent drop_future abort_writer
drop_future_stops_writer_example =
    (drop_future_stops_writer chan handlers replied (drop_future chan handlers replied) none_yet).2
      (abort_writer chan handlers (drop_future chan handlers replied)) none_yet
