-- ===== src/Client/Routing.antt =====
-- A call gets the answer to its own request, and leaves nothing behind.
use patina_rpc.Base.{
  ℕ, ◌^◌, ◌<◌, ◌≡◌, ◌⊎◌, inl, inr, refl, ap, ◌∙◌, [], ◌∷◌, none, some, ok, err, ◌==◌, nat_eq,
  if◌then◌else◌, Assoc, remove, lookup-remove, Has, lookup-Has, arith, length,
}
use patina_rpc.Envelope.{Envelope, ResponseData, ErrorData, request, response, error, heartbeat}
use patina_rpc.Error.{closed, remote}
use patina_rpc.Runtime.{Oneshot, Mpsc, CancellationToken, Polled, recv_error}
use patina_rpc.Client.Pending
use patina_rpc.Client.{
  awaiting, returned, reading, firing, Args, Client, update, id_of, outcome, pending_count, finish,
  read, fire, Reach,
}
use patina_rpc.Client.Invariant.{call_id, parked_id, ClientInv, Reach-Inv}

id_of_cases :
    (e : Envelope) (id : ℕ)
    → id_of e ≡ some id
    → ((r : ResponseData) × (e ≡ response r) × (r.id ≡ id))
      ⊎ ((x : ErrorData) × (e ≡ error x) × (x.id ≡ id))
unfolding id_of
id_of_cases (response r) id h = inl (r, refl, ground arith)
id_of_cases (error x) id h = inr (x, refl, ground arith)
id_of_cases (request _) id h = cc
id_of_cases heartbeat id h = cc

pub Polled-cases :
    {A : Type 0} (p : Polled A)
    → (p ≡ Polled.pending) ⊎ ((a : A) × (p ≡ Polled.received a)) ⊎ (p ≡ recv_error)
Polled-cases Polled.pending = inl refl
Polled-cases (Polled.received a) = inr (inl (a, refl))
Polled-cases recv_error = inr (inr refl)

module _ {O C T : Type 0} (oneshot : Oneshot O Envelope) (mpsc : Mpsc C Envelope)
    (tokens : CancellationToken T) (args : ℕ → Args) where
  -- What a call does with an envelope in its channel.
  pub finish_received :
      (k id : ℕ) (e : Envelope) (s : Client O C T)
      → oneshot.poll (s.cells k) ≡ Polled.received e
      → finish oneshot mpsc tokens args k id s
        ≡ record s { calls = update s.calls k (returned (outcome e)) }
  unfolding finish
  finish_received k id e s got_it = rw (got_it, finish)

  pub finish-closed :
      (k id : ℕ) (s : Client O C T)
      → oneshot.poll (s.cells k) ≡ recv_error
      → finish oneshot mpsc tokens args k id s
        ≡ record s { calls = update s.calls k (returned (err closed)) }
  unfolding finish
  finish-closed k id s lost = rw (lost, finish)

module _ {O C T : Type 0} (oneshot : Oneshot O Envelope) (mpsc : Mpsc C Envelope)
    (tokens : CancellationToken T) (args : ℕ → Args) {s : Client O C T}
    (r : Reach oneshot mpsc tokens args s) (fits : s.issued < 2 ^ 64) where
  v : ClientInv oneshot s
  v = Reach-Inv oneshot mpsc tokens args r fits

  -- In a reachable state, while fewer than 2 ^ 64 ids were handed out, two calls under way never
  -- have the same id.
  pub ids_unique :
      (j k id : ℕ) → call_id (s.calls j) ≡ some id → call_id (s.calls k) ≡ some id → j ≡ k
  ids_unique = v.unique

  pub received-id :
      (k id : ℕ) (e : Envelope)
      → s.calls k ≡ awaiting id
      → oneshot.poll (s.cells k) ≡ Polled.received e
      → id_of e ≡ some id
  received-id k id e at got_it = elim (v.waits k id (ap parked_id at)) [
    | inl (_, c) ↦ absurd (cc (ap oneshot.poll c, oneshot.poll-channel))
    | inr (inl (x, _, _, c)) ↦ absurd (cc (ap oneshot.poll c, oneshot.poll-channel))
    | inr (inr (inl (x, q, c))) ↦ cc (ap oneshot.poll c, oneshot.poll-send x)
    | inr (inr (inr c)) ↦ absurd (cc (ap oneshot.poll c, oneshot.poll-drop_tx))
  ]

  -- In a reachable state, while fewer than 2 ^ 64 ids were handed out, a poll of a waiting call
  -- gives nothing yet; or it returns the payload of a `Response` under its own id, or the error
  -- of an `Error` under its own id, or `Closed` since its sender was dropped. The map stays as it
  -- is.
  pub finish_outcomes :
      (k id : ℕ)
      → s.calls k ≡ awaiting id
      → let t = finish oneshot mpsc tokens args k id s in
        (t.pending ≡ s.pending)
        × (((oneshot.poll (s.cells k) ≡ Polled.pending) × (t.calls k ≡ awaiting id))
            ⊎ ((x : ResponseData) × (oneshot.poll (s.cells k) ≡ Polled.received (response x))
                × (x.id ≡ id)
                × (t.calls k ≡ returned (ok x.payload)))
            ⊎ ((x : ErrorData) × (oneshot.poll (s.cells k) ≡ Polled.received (error x))
                × (x.id ≡ id)
                × (t.calls k ≡ returned (err (remote x.code x.message))))
            ⊎ ((oneshot.poll (s.cells k) ≡ recv_error) × (t.calls k ≡ returned (err closed))))
  unfolding finish outcome
  finish_outcomes k id at = elim (Polled-cases (oneshot.poll (s.cells k))) [
    | inl wait ↦ rw (wait, finish) (refl, inl (refl, at))
    | inr (inr lost) ↦ rw (lost, finish) (refl, inr (inr (inr (refl, ground arith))))
    | inr (inl (e, got_it)) ↦ elim (id_of_cases e id (received-id k id e at got_it)) [
      | inl (x, q, own) ↦
          rw (got_it ∙ ap Polled.received q, finish) (refl, inr (inl (x, refl, own, ground arith)))
      | inr (x, q, own) ↦
          rw (got_it ∙ ap Polled.received q, finish)
            (refl, inr (inr (inl (x, refl, own, ground arith))))
    ]
  ]

  -- The sender under an id belongs to the call that is parked under it.
  pub parked_belongs :
      (id k : ℕ) → Pending.parked id s.pending ≡ some k → parked_id (s.calls k) ≡ some id
  parked_belongs id k h = (v.entry k id (lookup-Has id k s.pending.inner h)).0

  none_left : (p : Assoc ℕ ℕ) → ((k id : ℕ) → ¬ Has id k p) → length p ≡ 0
  none_left [] h = refl
  none_left ((id, k) ∷ p) h = absurd (h k id (inl (refl, refl)))

  -- No leak: in a reachable state in which no call is parked, and fewer than 2 ^ 64 ids were
  -- handed out, `pending_count` is 0.
  pub pending_count-eq-zero :
      ((k : ℕ) → parked_id (s.calls k) ≡ none) → pending_count oneshot mpsc tokens args s ≡ 0
  unfolding pending_count Pending.len
  pending_count-eq-zero free = none_left s.pending.inner (λ k id h. cc ((v.entry k id h).0, free k))

  read_found :
      (k id : ℕ) (e : Envelope)
      → Pending.parked id s.pending ≡ some k
      → id_of e ≡ some id
      → read oneshot mpsc tokens args (some (ok e)) s
        ≡ record s { pending = record { inner = remove id s.pending.inner }; reader = firing k e }
  unfolding read
  read_found k id e here addressed = rw (addressed, read) (rw (here, read))

  -- In a reachable state, while fewer than 2 ^ 64 ids were handed out, let a `Response` or
  -- `Error` arrive under the id of a waiting call that is still in the map. The reader takes its
  -- sender and fires it, the call returns what the envelope says, its entry is gone, and no other
  -- call's channel is touched.
  pub answer_reaches_call :
      (k id : ℕ) (e : Envelope)
      → s.reader ≡ reading
      → s.calls k ≡ awaiting id
      → Pending.parked id s.pending ≡ some k
      → id_of e ≡ some id
      → let found = read oneshot mpsc tokens args (some (ok e)) s in
        let sent_it = fire oneshot mpsc tokens args k e found in
        let t = finish oneshot mpsc tokens args k id sent_it in
        (found.reader ≡ firing k e)
        × (t.calls k ≡ returned (outcome e))
        × (Pending.parked id t.pending ≡ none)
        × ((j : ℕ) → t.cells j ≡ (if k == j then oneshot.send e (s.cells k) else s.cells j))
  unfolding fire
  answer_reaches_call k id e on at here addressed =
      let taken : Client O C T = fire oneshot mpsc tokens args k e (record s {
        pending = record { inner = remove id s.pending.inner };
        reader = firing k e;
      }) in
      let (_, empty) = v.entry k id (lookup-Has id k s.pending.inner here) in
      let arrived : oneshot.poll (update s.cells k (oneshot.send e (s.cells k)) k)
          ≡ Polled.received e =
        ground (arith, empty, oneshot.poll-send e) in
      rw (read_found k id e here addressed, fire)
        (rw (finish_received oneshot mpsc tokens args k id e taken arrived)
          (refl, ground arith, ground (arith, lookup-remove id id s.pending.inner), λ j. refl))
