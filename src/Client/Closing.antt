-- ===== src/Client/Closing.antt =====
-- What is closed stays closed, and refuses calls (`Client::is_closed` and the test of the token in
-- `call`, crates/patina-rpc/src/client.rs); the polls of `outbound.send`.
use patina_rpc.Base.{
  ◌≤◌, length, ℕ, ◌≡◌, ◌⊎◌, inl, inr, refl, ap, ◌∙◌, true, false, none, some, ok, err, [], ◌∷◌,
  ◌++◌, ◌==◌, nat_eq, if◌then◌else◌, lookup-remove, arith,
}
use native.Mathlib.Decide.{dec_lt}
use patina_rpc.Envelope.{Envelope}
use patina_rpc.Error.{closed}
use patina_rpc.Runtime.{Oneshot, Mpsc, CancellationToken, Sent, sent, full, refused}
use patina_rpc.Client.Pending
use patina_rpc.Client.{
  sending, awaiting, returned, draining, gone, cancelled, done, Args, Client, is_closed,
  from_stream, enter, fetch_add, park, request_of, submit, finish, cancel, read, fire,
  reader_cancels, drain, write, writer_cancels, writer_returns, drop_client, Step, enters, numbers,
  parks, submits, finishes, cancels, reads, fires, reader_stops, reader_cancels_token, drains,
  writes, writer_hangs_up, writer_stops, writer_cancels_token, writer_ends, drops_client, Reach,
  Runs, here, later, start, next,
}

pub Sent-cases : {C : Type 0} (p : Sent C) → ((c : C) × (p ≡ sent c)) ⊎ (p ≡ full) ⊎ (p ≡ refused)
Sent-cases (sent c) = inl (c, refl)
Sent-cases full = inr (inl refl)
Sent-cases refused = inr (inr refl)

module _ {O C T : Type 0} (oneshot : Oneshot O Envelope) (mpsc : Mpsc C Envelope)
    (tokens : CancellationToken T) (args : ℕ → Args) where
  abbrev IsClosing : Client O C T → Type 0
  IsClosing s =
      (s.reader ≡ draining) ⊎ (s.reader ≡ gone) ⊎ (s.writer ≡ cancelled) ⊎ (s.writer ≡ done)

  -- Only `cancel` changes the token.
  Step-token :
      {s t : Client O C T}
      → Step oneshot mpsc tokens args s t
      → (t.token ≡ s.token) ⊎ (t.token ≡ tokens.cancel s.token)
  unfolding enter fetch_add park submit finish cancel read fire reader_cancels drain write
      writer_cancels writer_returns drop_client
  Step-token {s} (enters j _ at) = inl refl
  Step-token {s} (numbers j at) = inl refl
  Step-token {s} (parks j a at) = inl refl
  Step-token {s} (submits j a at) = ground arith
  Step-token {s} (finishes j a at) = ground arith
  Step-token {s} (cancels j a at) = inl refl
  Step-token (reads (some (ok e)) at) = ground arith
  Step-token (reads (some (err _)) at) = inl refl
  Step-token (reads none at) = inl refl
  Step-token (fires j e at) = inl refl
  Step-token (reader_stops at _) = inl refl
  Step-token (reader_cancels_token at) = inr refl
  Step-token (drains at) = inl refl
  Step-token (writes e c (ok _) on taken) = inl refl
  Step-token (writes e c (err _) on taken) = inl refl
  Step-token (writer_hangs_up on last) = inl refl
  Step-token (writer_stops on seen) = inl refl
  Step-token (writer_cancels_token on) = inr refl
  Step-token (writer_ends on) = inl refl
  Step-token (drops_client open_ free) = inl refl

  pub still_cancelled :
      {s t : Client O C T}
      → Step oneshot mpsc tokens args s t
      → tokens.is_cancelled s.token ≡ true
      → tokens.is_cancelled t.token ≡ true
  still_cancelled {s} {t} st h = elim (Step-token st) [
    | inl same ↦ ap tokens.is_cancelled same ∙ h
    | inr again ↦ ap tokens.is_cancelled again ∙ tokens.is_cancelled-cancel s.token
  ]

  abbrev pub Guarded : Client O C T → Type 0
  Guarded s =
      ((s.reader ≡ draining) → tokens.is_cancelled s.token ≡ true)
      × ((s.reader ≡ gone) → tokens.is_cancelled s.token ≡ true)
      × ((s.writer ≡ cancelled) → tokens.is_cancelled s.token ≡ true)
      × ((s.writer ≡ done) → tokens.is_cancelled s.token ≡ true)

  -- A step that leaves the token cancelled only when it was, or that cancels it.
  Step-Guarded : {s t : Client O C T} → Step oneshot mpsc tokens args s t → Guarded s → Guarded t
  unfolding enter fetch_add park submit finish cancel read fire reader_cancels drain write
      writer_cancels writer_returns drop_client
  Step-Guarded {s} (enters j _ at) v = v
  Step-Guarded {s} (numbers j at) v = v
  Step-Guarded {s} (parks j a at) v = v
  Step-Guarded {s} (submits j a at) v = ground arith
  Step-Guarded {s} (finishes j a at) v = ground arith
  Step-Guarded {s} (cancels j a at) v = v
  Step-Guarded (reads (some (ok e)) at) v = ground arith
  Step-Guarded (reads (some (err _)) at) (a, b, c, d) = (λ h. absurd (cc), λ h. absurd (cc), c, d)
  Step-Guarded (reads none at) (a, b, c, d) = (λ h. absurd (cc), λ h. absurd (cc), c, d)
  Step-Guarded (fires j e at) (a, b, c, d) = (λ h. absurd (cc), λ h. absurd (cc), c, d)
  Step-Guarded (reader_stops at _) (a, b, c, d) = (λ h. absurd (cc), λ h. absurd (cc), c, d)
  Step-Guarded {s} (reader_cancels_token at) v =
      let on = tokens.is_cancelled-cancel s.token in (λ _. on, λ _. on, λ _. on, λ _. on)
  Step-Guarded (drains at) (a, b, c, d) = (λ h. absurd (cc), λ h. a at, c, d)
  Step-Guarded (writes e c (ok _) on taken) v = v
  Step-Guarded (writes e c (err _) on taken) (a, b, _, _) =
      (a, b, λ h. absurd (cc), λ h. absurd (cc))
  Step-Guarded (writer_hangs_up on last) (a, b, _, _) = (a, b, λ h. absurd (cc), λ h. absurd (cc))
  Step-Guarded (writer_stops on seen) (a, b, _, _) = (a, b, λ h. absurd (cc), λ h. absurd (cc))
  Step-Guarded {s} (writer_cancels_token on) v =
      let off = tokens.is_cancelled-cancel s.token in (λ _. off, λ _. off, λ _. off, λ _. off)
  Step-Guarded (writer_ends on) (a, b, c, d) = (a, b, λ h. absurd (cc), λ h. c on)
  Step-Guarded (drops_client open_ free) v = v

  pub Reach-Guarded : {s : Client O C T} → Reach oneshot mpsc tokens args s → Guarded s
  unfolding from_stream
  Reach-Guarded start = (λ h. absurd (cc), λ h. absurd (cc), λ h. absurd (cc), λ h. absurd (cc))
  Reach-Guarded (next r st) = Step-Guarded st (Reach-Guarded r)

  stays_cancelled :
      {s u : Client O C T}
      → Runs oneshot mpsc tokens args s u
      → tokens.is_cancelled s.token ≡ true
      → tokens.is_cancelled u.token ≡ true
  stays_cancelled here h = h
  stays_cancelled (later run st) h = still_cancelled st (stays_cancelled run h)

  -- From a reachable state in which the reader has cancelled the token, before or after it
  -- drained the map, or the writer has: in every later state `u` the client is closed, and a call
  -- that begins returns `Closed` at once. It takes no id, is not parked, and sends nothing.
  pub closing_refuses_calls :
      {s u : Client O C T}
      → Reach oneshot mpsc tokens args s
      → IsClosing s
      → Runs oneshot mpsc tokens args s u
      → (k : ℕ)
      → let t = enter oneshot mpsc tokens args k u in
        (is_closed oneshot mpsc tokens args u ≡ true)
        × (t.calls k ≡ returned (err closed))
        × (t.pending ≡ u.pending)
        × (t.next_id ≡ u.next_id)
        × (t.outbound ≡ u.outbound)
  unfolding is_closed enter
  closing_refuses_calls {s} {u} r h run k = (off, ground (arith, off), refl, refl, refl)
    where
      v : Guarded s
      v = Reach-Guarded r

      on_closing : tokens.is_cancelled s.token ≡ true
      on_closing = elim h [
        | inl a ↦ v.0 a
        | inr (inl b) ↦ v.1 b
        | inr (inr (inl c)) ↦ v.2 c
        | inr (inr (inr d)) ↦ v.3 d
      ]

      off : tokens.is_cancelled u.token ≡ true
      off = stays_cancelled run on_closing

  full-le :
      (a : Envelope) (c : C)
      → mpsc.has_receiver c ≡ true
      → mpsc.send a c ≡ full
      → mpsc.capacity c ≤ length (mpsc.queue c)
  full-le a c heard e = elim (dec_lt (length (mpsc.queue c)) (mpsc.capacity c)) [
    | yes room ↦ let (c', sends) = mpsc.send_room a c heard room in absurd (cc (e, sends))
    | no none_left ↦ omega (arith, none_left)
  ]

  -- A poll of `outbound.send` for a call that is parked under its id: its request goes to the end
  -- of the channel's queue and the call waits for its answer; or the channel is full, and nothing
  -- changes; or the writer is gone, and the call returns `Closed`, its entry is removed, and every
  -- other entry stays.
  pub submit_outcomes :
      (k id : ℕ) (s : Client O C T)
      → s.calls k ≡ sending id
      → let t = submit oneshot mpsc tokens args k id s in
        ((t.calls k ≡ awaiting id)
          × (mpsc.queue t.outbound
              ≡ mpsc.queue s.outbound ++ (request_of oneshot mpsc tokens args k id ∷ []))
          × (t.pending ≡ s.pending))
        ⊎ ((mpsc.has_receiver s.outbound ≡ true)
            × (mpsc.capacity s.outbound ≤ length (mpsc.queue s.outbound))
            × (t ≡ s))
        ⊎ ((mpsc.has_receiver s.outbound ≡ false)
            × (t.calls k ≡ returned (err closed))
            × ((a : ℕ)
                → Pending.parked a t.pending
                  ≡ (if id == a then none else Pending.parked a s.pending)))
  unfolding submit Pending.remove
  submit_outcomes k id s at =
      elim (Sent-cases (mpsc.send (request_of oneshot mpsc tokens args k id) s.outbound)) [
        | inl (c, e) ↦ rw (e, submit) (inl (ground arith, (mpsc.send_lem _ s.outbound c e).0, refl))
        | inr (inl e) ↦
            let heard = mpsc.send_full _ s.outbound e in
            rw (e, submit) (inr (inl (heard, full-le _ s.outbound heard e, refl)))
        | inr (inr e) ↦
            rw (e, submit)
              (inr (
                inr (
                  mpsc.send_refused _ s.outbound e,
                  ground arith,
                  λ a. lookup-remove id a s.pending.inner,
                )))
      ]
