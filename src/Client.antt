-- ===== src/Client.antt =====
-- crates/patina-rpc/src/client.rs: `Client`, its calls, and its reader and writer tasks, as one
-- state. A function below is what a task or a call does between two points where another may run;
-- `Step` puts them in any order. The writer's `rx.recv` and the `sink.send` of what it gave are one of
-- them, `write`: it stands for the moment when that send is done, and until then the request counts
-- as queued. Calls are numbered, and the call `k` waits on the one-shot channel
-- `cells k`.
pub mod Pending
mod State
unfoldable pub use State.*
pub mod Routing
pub mod Teardown
pub mod Invariant
pub mod Closing
pub mod Sending
pub mod Requests
pub mod Owners
pub mod Hearing
pub mod Room
pub mod Waiting
pub mod Delivery
pub mod Verdicts
pub mod Losses
pub mod Ending
pub mod Stranded
use patina_rpc.Base.{
  ℕ, suc, ◌+◌, ◌%◌, ◌^◌, ◌≡◌, ◌⊎◌, List, [], ◌∷◌, ◌++◌, Bool, true, false, Option, none, some,
  Result, ok, err, nat_eq, if◌then◌else◌,
}
use patina_rpc.Envelope.{Envelope, request}
use patina_rpc.Error.{WireError, closed}
use patina_rpc.Runtime.{
  Oneshot, Mpsc, CancellationToken, Polled, recv_error, sent, full, refused, got, ended,
}
use Pending
use Pending.{PendingGuard}
use State.{
  client_writer_channel_capacity, Outcome, idle, entered, numbered, sending, awaiting, returned,
  dropped, reading, firing, leaving, draining, gone, writing, stopping, cancelled, done, Args,
  Client, in_progress, update, id_of, outcome, after_look_up, contains,
}

module _ {O C T : Type 0} (oneshot : Oneshot O Envelope) (mpsc : Mpsc C Envelope)
    (tokens : CancellationToken T) (args : ℕ → Args) where
  unfoldable pub from_stream : Client O C T
  from_stream = record {
    next_id = 0;
    pending = Pending.default;
    outbound = mpsc.channel client_writer_channel_capacity;
    token = tokens.new;
    cells = λ _. oneshot.channel;
    calls = λ _. idle;
    reader = reading;
    writer = writing;
    wire = [];
    issued = 0;
    held = true;
  }

  unfoldable pub pending_count : Client O C T → ℕ
  pending_count s = Pending.len s.pending

  unfoldable pub is_closed : Client O C T → Bool
  is_closed s = tokens.is_cancelled s.token

  -- Dropping a sender closes its channel.
  abbrev pub drop_sender : Option ℕ → (ℕ → O) → ℕ → O
  drop_sender none cells = cells
  drop_sender (some k) cells = update cells k (oneshot.drop_tx (cells k))

  -- Each sender of the list is dropped once.
  abbrev pub drop_senders : List ℕ → (ℕ → O) → ℕ → O
  drop_senders ks cells j = if contains j ks then oneshot.drop_tx (cells j) else cells j

  -- `call`: the test of the token.
  unfoldable pub enter : ℕ → Client O C T → Client O C T
  unfolding is_closed
  enter k s = record s {
    calls = update s.calls k (if is_closed s then returned (err closed) else entered);
  }

  -- `next_id.fetch_add(1)`, on a `u64`
  unfoldable pub fetch_add : ℕ → Client O C T → Client O C T
  fetch_add k s = record s {
    next_id = (s.next_id + 1) % 2 ^ 64;
    calls = update s.calls k (numbered s.next_id);
    issued = suc s.issued;
  }

  -- `oneshot::channel()` and `pending.insert`
  unfoldable pub park : ℕ → ℕ → Client O C T → Client O C T
  unfolding Pending.insert
  park k id s =
      let (old, pending) = Pending.insert id k s.pending in
      record s {
        pending = pending;
        cells = update (drop_sender old s.cells) k oneshot.channel;
        calls = update s.calls k (sending id);
      }

  -- The guard of a call that is parked under `id` is dropped.
  unfoldable pub drop_guard : PendingGuard → Client O C T → Client O C T
  unfolding Pending.drop
  drop_guard g s =
      let (old, pending) = Pending.drop g s.pending in
      record s { pending = pending; cells = drop_sender old s.cells }

  abbrev pub request_of : ℕ → ℕ → Envelope
  request_of k id =
      request (record { id = id; method = (args k).method; payload = (args k).payload })

  -- One poll of `outbound.send(request)`.
  unfoldable pub submit : ℕ → ℕ → Client O C T → Client O C T
  unfolding drop_guard
  submit k id s = elim (mpsc.send (request_of k id) s.outbound) [
    | sent c ↦ record s { outbound = c; calls = update s.calls k (awaiting id) }
    | full ↦ s
    | refused ↦
        let t = drop_guard (record { id = id; armed = true }) s in
        record t { calls = update s.calls k (returned (err closed)) }
  ]

  -- One poll of `rx.await`; once it resolves, the guard is disarmed before it is dropped.
  unfoldable pub finish : ℕ → ℕ → Client O C T → Client O C T
  unfolding drop_guard Pending.disarm
  finish k id s =
      let resolve = λ (r : Outcome).
        let guard = Pending.disarm (record { id = id; armed = true }) in
        let t = drop_guard guard s in record t { calls = update s.calls k (returned r) } in
      elim (oneshot.poll (s.cells k)) [
        | Polled.pending ↦ s
        | Polled.received e ↦ resolve (outcome e)
        | recv_error ↦ resolve (err closed)
      ]

  -- The future of a parked call is dropped: the guard first, then the receiver.
  unfoldable pub cancel : ℕ → ℕ → Client O C T → Client O C T
  unfolding drop_guard
  cancel k id s =
      let t = drop_guard (record { id = id; armed = true }) s in
      record t {
        cells = update t.cells k (oneshot.drop_rx (t.cells k));
        calls = update s.calls k dropped;
      }

  -- One round of the reader's loop on what `stream.next()` gives: up to the look-up.
  abbrev look_up : Option ℕ → Envelope → Client O C T → Client O C T
  look_up none e s = s
  look_up (some id) e s =
      let (found, pending) = Pending.take id s.pending in
      record s { pending = pending; reader = after_look_up found e }

  unfoldable pub read : Option (Result Envelope WireError) → Client O C T → Client O C T
  unfolding Pending.take id_of
  read (some (ok e)) s = look_up (id_of e) e s
  read (some (err _)) s = record s { reader = leaving }
  read none s = record s { reader = leaving }

  -- `tx.send(envelope)`
  unfoldable pub fire : ℕ → Envelope → Client O C T → Client O C T
  fire k e s = record s { cells = update s.cells k (oneshot.send e (s.cells k)); reader = reading }

  unfoldable pub reader_cancels : Client O C T → Client O C T
  reader_cancels s = record s { token = tokens.cancel s.token; reader = draining }

  unfoldable pub drain : Client O C T → Client O C T
  unfolding Pending.drain
  drain s =
      let (drained, pending) = Pending.drain s.pending in
      record s { pending = pending; cells = drop_senders drained s.cells; reader = gone }

  -- The writer's loop on a message, by the result of `sink.send`; its cancellation; its end.
  unfoldable pub write : Envelope → C → Result (Unit {0}) WireError → Client O C T → Client O C T
  write e c (ok _) s = record s { outbound = c; wire = s.wire ++ (e ∷ []) }
  write e c (err _) s = record s { outbound = c; writer = stopping }

  unfoldable pub writer_cancels : Client O C T → Client O C T
  writer_cancels s = record s { token = tokens.cancel s.token; writer = cancelled }

  unfoldable pub writer_returns : Client O C T → Client O C T
  writer_returns s = record s { outbound = mpsc.drop_rx s.outbound; writer = done }

  -- The `Client` is dropped, and its sender with it.
  unfoldable pub drop_client : Client O C T → Client O C T
  drop_client s = record s { outbound = mpsc.drop_tx s.outbound; held = false }

  pub data Step (s : Client O C T) : Client O C T → Type 0 where
    enters : (k : ℕ) → s.held ≡ true → s.calls k ≡ idle → Step s (enter k s)
    numbers : (k : ℕ) → s.calls k ≡ entered → Step s (fetch_add k s)
    parks : (k id : ℕ) → s.calls k ≡ numbered id → Step s (park k id s)
    submits : (k id : ℕ) → s.calls k ≡ sending id → Step s (submit k id s)
    finishes : (k id : ℕ) → s.calls k ≡ awaiting id → Step s (finish k id s)
    cancels :
        (k id : ℕ) → (s.calls k ≡ sending id) ⊎ (s.calls k ≡ awaiting id) → Step s (cancel k id s)
    reads : (f : Option (Result Envelope WireError)) → s.reader ≡ reading → Step s (read f s)
    fires : (k : ℕ) (e : Envelope) → s.reader ≡ firing k e → Step s (fire k e s)
    reader_stops :
        s.reader ≡ reading
        → tokens.is_cancelled s.token ≡ true
        → Step s (record s { reader = leaving })
    reader_cancels_token : s.reader ≡ leaving → Step s (reader_cancels s)
    drains : s.reader ≡ draining → Step s (drain s)
    writes :
        (e : Envelope) (c : C) (r : Result (Unit {0}) WireError)
        → s.writer ≡ writing
        → mpsc.recv s.outbound ≡ got e c
        → Step s (write e c r s)
    writer_hangs_up :
        s.writer ≡ writing → mpsc.recv s.outbound ≡ ended → Step s (record s { writer = stopping })
    writer_stops :
        s.writer ≡ writing
        → tokens.is_cancelled s.token ≡ true
        → Step s (record s { writer = stopping })
    writer_cancels_token : s.writer ≡ stopping → Step s (writer_cancels s)
    writer_ends : s.writer ≡ cancelled → Step s (writer_returns s)
    drops_client :
        s.held ≡ true → ((k : ℕ) → in_progress (s.calls k) ≡ false) → Step s (drop_client s)

  pub data Reach : Client O C T → Type 0 where
    start : Reach from_stream
    next : {s t : Client O C T} → Reach s → Step s t → Reach t

  -- From a state to any that it may become.
  pub data Runs (s : Client O C T) : Client O C T → Type 0 where
    here : Runs s s
    later : {t u : Client O C T} → Runs s t → Step t u → Runs s u
