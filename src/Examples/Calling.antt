-- ===== src/Examples/Calling.antt =====
-- The theorems on calls, pending maps and the end of a client's connection, at short runs.
use patina_rpc.Base.{
  length, ℕ, ◌+◌, ◌≤◌, ◌≡◌, ◌⊎◌, inl, inr, err, if◌then◌else◌, ◌==◌, refl, [], ◌∷◌, Bool, true,
  false, none, some, ok, arith, nat_eq, lookup, insert, remove,
}
use patina_rpc.Envelope.{Envelope, response}
use patina_rpc.Runtime.{Polled}
use patina_rpc.Client.Pending
use patina_rpc.Client.{
  Args, Client, awaiting, returned, dropped, id_of, outcome, from_stream, pending_count, enter,
  fetch_add, park, request_of, submit, finish, cancel, read, fire, reader_cancels, drain, Reach,
  start, next, enters, numbers, parks, submits, cancels, reads, fires, reader_cancels_token, drains,
  here, is_closed,
}
use patina_rpc.Client.Invariant.{parked_id}
use patina_rpc.Client.Routing.{
  ids_unique, finish_outcomes, answer_reaches_call, pending_count-eq-zero,
}
use patina_rpc.Client.Sending.{requests_under, each_id_sent_once}
use patina_rpc.Client.Closing.{closing_refuses_calls, submit_outcomes}
use patina_rpc.Error.{closed}
use patina_rpc.Client.Teardown.{drain_wakes_all, cancel_cleans_up}
use patina_rpc.Client.Losses.{is_closed_of_closed}
use patina_rpc.Client.Stranded.{late_call_never_returns}
use patina_rpc.Examples.Parts.{cell, chan, flag, Chan}

abbrev args : ℕ → Args
args k = record { method = "echo"; payload = k ∷ [] }

abbrev Example : Type 0
Example = Client (Polled Envelope) Chan Bool

-- The call `k` takes the id `k`, with `s` before it.
abbrev numbered_call : ℕ → Example → Example
numbered_call k s = fetch_add cell chan flag args k (enter cell chan flag args k s)

abbrev started : ℕ → ℕ → Example → Example
started k id s = submit cell chan flag args k id (park cell chan flag args k id (numbered_call k s))

abbrev connected : Example
connected = from_stream cell chan flag args

abbrev one_waits : Example
one_waits = started 0 0 connected

abbrev two_wait : Example
two_wait = started 1 1 one_waits

one_numbered-Reach : Reach cell chan flag args (numbered_call 0 connected)
unfolding from_stream enter fetch_add
one_numbered-Reach = next (next start (enters 0 refl refl)) (numbers 0 refl)

one_waits-Reach : Reach cell chan flag args one_waits
unfolding from_stream enter fetch_add park submit
one_waits-Reach = next (next one_numbered-Reach (parks 0 0 refl)) (submits 0 0 refl)

two_wait-Reach : Reach cell chan flag args two_wait
unfolding from_stream enter fetch_add park submit
two_wait-Reach =
    next (next (next (next one_waits-Reach (enters 1 refl refl)) (numbers 1 refl)) (parks 1 1 refl))
      (submits 1 1 refl)

ids_unique_example : ◌≡◌ {A = ℕ} 1 1
unfolding from_stream enter fetch_add park submit
ids_unique_example = ids_unique cell chan flag args two_wait-Reach (omega arith) 1 1 1 refl refl

abbrev echo : Envelope
echo = response (record { id = 1; payload = 5 ∷ [] })

abbrev answered : Example
answered = fire cell chan flag args 1 echo (read cell chan flag args (some (ok echo)) two_wait)

answered-Reach : Reach cell chan flag args answered
unfolding from_stream enter fetch_add park submit read id_of lookup insert remove
answered-Reach = next (next two_wait-Reach (reads (some (ok echo)) refl)) (fires 1 echo refl)

finish_outcomes_example : ((finish cell chan flag args 1 1 answered).pending ≡ answered.pending)
unfolding from_stream enter fetch_add park submit read fire
finish_outcomes_example =
    (finish_outcomes cell chan flag args answered-Reach (omega arith) 1 1 refl).0

answer_reaches_call_example :
    (finish cell chan flag args 1 1 answered).calls 1 ≡ returned (ok (5 ∷ []))
unfolding from_stream enter fetch_add park submit outcome id_of lookup insert remove
answer_reaches_call_example =
    (answer_reaches_call cell chan flag args two_wait-Reach (omega arith) 1 1 echo refl refl refl
      refl).1

abbrev given_up : Example
given_up = cancel cell chan flag args 0 0 one_waits

given_up-Reach : Reach cell chan flag args given_up
unfolding from_stream enter fetch_add park submit
given_up-Reach = next one_waits-Reach (cancels 0 0 (inr refl))

given_up_free : (k : ℕ) → parked_id (given_up.calls k) ≡ none
unfolding from_stream enter fetch_add park submit cancel
given_up_free k = ground arith

pending_count-eq-zero_example : pending_count cell chan flag args given_up ≡ 0
unfolding from_stream enter fetch_add park submit cancel
pending_count-eq-zero_example =
    pending_count-eq-zero cell chan flag args given_up-Reach (omega arith) given_up_free

cancel_cleans_up_example : (cancel cell chan flag args 0 0 two_wait).calls 1 ≡ awaiting 1
unfolding from_stream enter fetch_add park submit
cancel_cleans_up_example =
    (cancel_cleans_up cell chan flag args two_wait-Reach (omega arith) 0 0 1 1 (inr refl)
      (omega arith)).1

-- The stream ends: the reader leaves its loop and cancels the token.
abbrev stream_ends : Example → Example
stream_ends s = reader_cancels cell chan flag args (read cell chan flag args none s)

draining-Reach : Reach cell chan flag args (stream_ends one_waits)
unfolding from_stream enter fetch_add park submit read
draining-Reach = next (next one_waits-Reach (reads none refl)) (reader_cancels_token refl)

drain_wakes_all_example :
    pending_count cell chan flag args (drain cell chan flag args (stream_ends one_waits)) ≡ 0
unfolding from_stream enter fetch_add park submit read reader_cancels
drain_wakes_all_example =
    (drain_wakes_all cell chan flag args draining-Reach (omega arith) refl 0 0 refl).0

-- The reader has left its loop, with a call that waits.
abbrev left_loop : Example
left_loop = read cell chan flag args none one_waits

-- The same while a call stands between its test of the token and its entry.
abbrev too_late : Example
too_late = drain cell chan flag args (stream_ends (numbered_call 0 connected))

too_late-Reach : Reach cell chan flag args too_late
unfolding from_stream enter fetch_add read reader_cancels
too_late-Reach =
    next (next (next one_numbered-Reach (reads none refl)) (reader_cancels_token refl))
      (drains refl)

abbrev stuck : Example
stuck = submit cell chan flag args 0 0 (park cell chan flag args 0 0 too_late)

late_call_never_returns_example : (stuck.calls 0 ≡ awaiting 0) ⊎ (stuck.calls 0 ≡ dropped)
unfolding from_stream enter fetch_add park submit read reader_cancels drain
late_call_never_returns_example =
    late_call_never_returns cell chan flag args too_late-Reach refl 0 0 _ refl refl here
      (omega arith)

closing_refuses_calls_example :
    (enter cell chan flag args 5 (stream_ends one_waits)).calls 5 ≡ returned (err closed)
unfolding from_stream enter fetch_add park submit read reader_cancels
closing_refuses_calls_example =
    (closing_refuses_calls cell chan flag args draining-Reach (inl refl) here 5).1

abbrev one_parked : Example
one_parked = park cell chan flag args 0 0 (numbered_call 0 connected)

submit_outcomes_example :
    let t = one_waits in
    ((t.calls 0 ≡ awaiting 0)
      × (chan.queue t.outbound ≡ request_of cell chan flag args 0 0 ∷ [])
      × (t.pending ≡ one_parked.pending))
    ⊎ ((chan.has_receiver one_parked.outbound ≡ true)
        × (chan.capacity one_parked.outbound ≤ length (chan.queue one_parked.outbound))
        × (t ≡ one_parked))
    ⊎ ((chan.has_receiver one_parked.outbound ≡ false)
        × (t.calls 0 ≡ returned (err closed))
        × ((a : ℕ)
            → Pending.parked a t.pending
              ≡ (if 0 == a then none else Pending.parked a one_parked.pending)))
unfolding from_stream enter fetch_add park
submit_outcomes_example = submit_outcomes cell chan flag args 0 0 one_parked refl

each_id_sent_once_example :
    (requests_under 1 (chan.queue two_wait.outbound) + requests_under 1 two_wait.wire ≤ 1)
    × (requests_under 2 (chan.queue two_wait.outbound) + requests_under 2 two_wait.wire ≡ 0)
unfolding from_stream enter fetch_add park submit
each_id_sent_once_example =
    each_id_sent_once cell chan flag args two_wait-Reach (omega arith) 1 2 (omega arith)

is_closed_of_closed_example :
    is_closed cell chan flag args (enter cell chan flag args 5 (stream_ends one_waits)) ≡ true
unfolding from_stream enter fetch_add park submit read reader_cancels
is_closed_of_closed_example =
    is_closed_of_closed cell chan flag args (next draining-Reach (enters 5 refl refl)) (omega arith)
      5 refl
