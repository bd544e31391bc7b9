-- ===== src/Client/Verdicts.antt =====
-- What the calls of a client have returned, and how a step adds to it (`call` of
-- crates/patina-rpc/src/client.rs).
use patina_rpc.Base.{
  ℕ, ◌≡◌, ◌⊎◌, inl, inr, refl, ap, Option, none, some, ok, err, nat_eq, arith, Bool-cases,
}
use patina_rpc.Envelope.{Envelope}
use patina_rpc.Error.{closed}
use patina_rpc.Runtime.{Oneshot, Mpsc, CancellationToken, Polled}
use patina_rpc.Client.{
  Call, entered, numbered, sending, awaiting, returned, dropped, Args, Client, update, outcome,
  Outcome, enter, fetch_add, park, request_of, submit, finish, cancel, read, fire, reader_cancels,
  drain, write, writer_cancels, writer_returns, drop_client, Step, enters, numbers, parks, submits,
  finishes, cancels, reads, fires, reader_stops, reader_cancels_token, drains, writes,
  writer_hangs_up, writer_stops, writer_cancels_token, writer_ends, drops_client,
}
use patina_rpc.Client.Closing.{Sent-cases}
use patina_rpc.Client.Routing.{Polled-cases, finish_received, finish-closed}

abbrev pub verdict : Call → Option Outcome
verdict (returned r) = some r
verdict _ = none

-- What each call has returned.
abbrev pub verdicts : (ℕ → Call) → ℕ → Option Outcome
verdicts calls k = verdict (calls k)

kept :
    (calls : ℕ → Call) (k : ℕ) (c : Call)
    → verdict (calls k) ≡ verdict c
    → verdicts (update calls k c) ≡ verdicts calls
kept calls k c h = λ i j. at j i
  where
    at : (j : ℕ) → verdict (update calls k c j) ≡ verdict (calls j)
    at j = ground (arith, h)

given :
    (calls : ℕ → Call) (k : ℕ) (r : Outcome)
    → verdicts (update calls k (returned r)) ≡ update (verdicts calls) k (some r)
given calls k r = λ i j. at j i
  where
    at : (j : ℕ) → verdict (update calls k (returned r) j) ≡ update (verdicts calls) k (some r) j
    at j = ground arith

module _ {O C T : Type 0} (oneshot : Oneshot O Envelope) (mpsc : Mpsc C Envelope)
    (tokens : CancellationToken T) (args : ℕ → Args) where
  -- The call `k` returns, with `Closed` or with what an envelope in its channel says.
  abbrev pub Returns : Client O C T → (ℕ → Call) → Type 0
  Returns s after =
      (k : ℕ) × (r : Outcome) × (verdict (s.calls k) ≡ none)
      × (verdicts after ≡ update (verdicts s.calls) k (some r))
      × ((r ≡ err closed)
          ⊎ ((id : ℕ) × (e : Envelope) × (s.calls k ≡ awaiting id)
              × (oneshot.poll (s.cells k) ≡ Polled.received e)
              × (r ≡ outcome e)))

  pub Step-verdicts :
      {s t : Client O C T}
      → Step oneshot mpsc tokens args s t
      → (verdicts t.calls ≡ verdicts s.calls) ⊎ Returns s t.calls
  unfolding enter fetch_add park submit finish cancel read fire reader_cancels drain write
      writer_cancels writer_returns drop_client
  Step-verdicts {s} (enters k _ at) = elim (Bool-cases (tokens.is_cancelled s.token)) [
    | inl late ↦
        rw (late, enter)
          (inr (k, err closed, ap verdict at, given s.calls k (err closed), inl refl))
    | inr early ↦ rw (early, enter) (inl (kept s.calls k entered (ap verdict at)))
  ]
  Step-verdicts {s} (numbers k at) = inl (kept s.calls k (numbered s.next_id) (ap verdict at))
  Step-verdicts {s} (parks k a at) = inl (kept s.calls k (sending a) (ap verdict at))
  Step-verdicts {s} (submits k a at) =
      elim (Sent-cases (mpsc.send (request_of oneshot mpsc tokens args k a) s.outbound)) [
        | inl (c, e) ↦ rw (e, submit) (inl (kept s.calls k (awaiting a) (ap verdict at)))
        | inr (inl e) ↦ rw (e, submit) (inl refl)
        | inr (inr e) ↦
            rw (e, submit)
              (inr (k, err closed, ap verdict at, given s.calls k (err closed), inl refl))
      ]
  Step-verdicts {s} (finishes k a at) = elim (Polled-cases (oneshot.poll (s.cells k))) [
    | inl wait ↦ rw (wait, finish) (inl refl)
    | inr (inl (e, got_it)) ↦ rw (finish_received oneshot mpsc tokens args k a e s got_it) (
        inr
          (k, outcome e, ap verdict at, given s.calls k (outcome e), inr (a, e, at, got_it, refl)))
    | inr (inr lost) ↦
        rw (finish-closed oneshot mpsc tokens args k a s lost)
          (inr (k, err closed, ap verdict at, given s.calls k (err closed), inl refl))
  ]
  Step-verdicts {s} (cancels k a (inl at)) = inl (kept s.calls k dropped (ap verdict at))
  Step-verdicts {s} (cancels k a (inr at)) = inl (kept s.calls k dropped (ap verdict at))
  Step-verdicts {s} (reads (some (ok e)) at) = inl (λ i j. same j i)
    where
      same :
          (j : ℕ)
          → verdict ((read oneshot mpsc tokens args (some (ok e)) s).calls j) ≡ verdict (s.calls j)
      same j = ground arith
  Step-verdicts (reads (some (err _)) at) = inl refl
  Step-verdicts (reads none at) = inl refl
  Step-verdicts (fires k e at) = inl refl
  Step-verdicts (reader_stops at _) = inl refl
  Step-verdicts (reader_cancels_token at) = inl refl
  Step-verdicts (drains at) = inl refl
  Step-verdicts (writes e c (ok _) on taken) = inl refl
  Step-verdicts (writes e c (err _) on taken) = inl refl
  Step-verdicts (writer_hangs_up on last) = inl refl
  Step-verdicts (writer_stops on seen) = inl refl
  Step-verdicts (writer_cancels_token on) = inl refl
  Step-verdicts (writer_ends on) = inl refl
  Step-verdicts (drops_client open_ free) = inl refl
