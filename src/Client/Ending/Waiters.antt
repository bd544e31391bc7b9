-- ===== src/Client/Ending/Waiters.antt =====
-- What becomes of a parked call while its client ends (crates/patina-rpc/src/client.rs).
use patina_rpc.Base.{
  ℕ, ◌^◌, ◌<◌, ◌≡◌, ◌≢◌, ◌⊎◌, inl, inr, refl, ap, ◌∙◌, [], Bool, true, false, none, some, ok, err,
  nat_eq, lookup, arith,
}
use patina_rpc.Envelope.{Envelope}
use patina_rpc.Error.{closed}
use patina_rpc.Runtime.{Oneshot, Mpsc, CancellationToken}
use patina_rpc.Client.Pending
use patina_rpc.Client.{
  Call, sending, awaiting, returned, dropped, gone, outcome, Outcome, Args, Client, enter,
  fetch_add, park, request_of, submit, finish, cancel, read, fire, reader_cancels, drain, write,
  writer_cancels, writer_returns, drop_client, Step, enters, numbers, parks, submits, finishes,
  cancels, reads, fires, reader_stops, reader_cancels_token, drains, writes, writer_hangs_up,
  writer_stops, writer_cancels_token, writer_ends, drops_client, Reach,
}
use patina_rpc.Client.Closing.{Sent-cases}
use patina_rpc.Client.Routing.{finish_received, finish-closed}
use patina_rpc.Client.Invariant.{parked_id, Reach-Inv}
use patina_rpc.Client.Waiting.{Step-Origin}

-- It has returned, or its future was dropped.
abbrev pub is_over : Call → Bool
is_over (returned _) = true
is_over dropped = true
is_over _ = false

module _ {O C T : Type 0} (oneshot : Oneshot O Envelope) (mpsc : Mpsc C Envelope)
    (tokens : CancellationToken T) (args : ℕ → Args) where
  over-stays :
      {s t : Client O C T} (k : ℕ)
      → Step oneshot mpsc tokens args s t
      → is_over (s.calls k) ≡ true
      → is_over (t.calls k) ≡ true
  unfolding enter fetch_add park submit finish cancel read fire reader_cancels drain write
      writer_cancels writer_returns drop_client
  over-stays {s} k (enters j _ at) h = ground arith
  over-stays {s} k (numbers j at) h = ground arith
  over-stays {s} k (parks j a at) h = ground arith
  over-stays {s} k (submits j a at) h = ground arith
  over-stays {s} k (finishes j a at) h = ground arith
  over-stays {s} k (cancels j a at) h = ground arith
  over-stays k (reads (some (ok e)) at) h = ground arith
  over-stays k (reads (some (err _)) at) h = h
  over-stays k (reads none at) h = h
  over-stays k (fires j e at) h = h
  over-stays k (reader_stops at _) h = h
  over-stays k (reader_cancels_token at) h = h
  over-stays k (drains at) h = h
  over-stays k (writes e c (ok _) on taken) h = h
  over-stays k (writes e c (err _) on taken) h = h
  over-stays k (writer_hangs_up on last) h = h
  over-stays k (writer_stops on seen) h = h
  over-stays k (writer_cancels_token on) h = h
  over-stays k (writer_ends on) h = h
  over-stays k (drops_client open_ free) h = h

  parked-stays :
      {s t : Client O C T} (k id : ℕ)
      → Step oneshot mpsc tokens args s t
      → parked_id (s.calls k) ≡ some id
      → (parked_id (t.calls k) ≡ some id) ⊎ (is_over (t.calls k) ≡ true)
  unfolding enter fetch_add park submit finish cancel read fire reader_cancels drain write
      writer_cancels writer_returns drop_client
  parked-stays {s} k id (enters j _ at) h = ground arith
  parked-stays {s} k id (numbers j at) h = ground arith
  parked-stays {s} k id (parks j a at) h = ground arith
  parked-stays {s} k id (submits j a at) h = ground arith
  parked-stays {s} k id (finishes j a at) h = ground arith
  parked-stays {s} k id (cancels j a at) h = ground arith
  parked-stays k id (reads (some (ok e)) at) h = ground arith
  parked-stays k id (reads (some (err _)) at) h = inl h
  parked-stays k id (reads none at) h = inl h
  parked-stays k id (fires j e at) h = inl h
  parked-stays k id (reader_stops at _) h = inl h
  parked-stays k id (reader_cancels_token at) h = inl h
  parked-stays k id (drains at) h = inl h
  parked-stays k id (writes e c (ok _) on taken) h = inl h
  parked-stays k id (writes e c (err _) on taken) h = inl h
  parked-stays k id (writer_hangs_up on last) h = inl h
  parked-stays k id (writer_stops on seen) h = inl h
  parked-stays k id (writer_cancels_token on) h = inl h
  parked-stays k id (writer_ends on) h = inl h
  parked-stays k id (drops_client open_ free) h = inl h

  -- The reader ends by draining the map.
  gone_before :
      {s t : Client O C T}
      → Step oneshot mpsc tokens args s t
      → t.reader ≡ gone
      → (s.reader ≡ gone) ⊎ (t.pending.inner ≡ [])
  unfolding enter fetch_add park submit finish cancel read fire reader_cancels drain write
      writer_cancels writer_returns drop_client Pending.default
  gone_before {s} (enters j _ at) g = inl g
  gone_before {s} (numbers j at) g = inl g
  gone_before {s} (parks j a at) g = inl g
  gone_before {s} (submits j a at) g = inl (ground arith)
  gone_before {s} (finishes j a at) g = inl (ground arith)
  gone_before {s} (cancels j a at) g = inl g
  gone_before (reads (some (ok e)) at) g = absurd (ground arith)
  gone_before (reads (some (err _)) at) g = absurd (cc)
  gone_before (reads none at) g = absurd (cc)
  gone_before (fires j e at) g = absurd (cc)
  gone_before (reader_stops at _) g = absurd (cc)
  gone_before (reader_cancels_token at) g = absurd (cc)
  gone_before (drains at) g = inr refl
  gone_before (writes e c (ok _) on taken) g = inl g
  gone_before (writes e c (err _) on taken) g = inl g
  gone_before (writer_hangs_up on last) g = inl g
  gone_before (writer_stops on seen) g = inl g
  gone_before (writer_cancels_token on) g = inl g
  gone_before (writer_ends on) g = inl g
  gone_before (drops_client open_ free) g = inl g

  -- A call that was parked before the map was drained: it is over, or it is parked and, once the
  -- reader is gone, has no entry.
  abbrev pub Tracked : ℕ → ℕ → Client O C T → Type 0
  Tracked k id s =
      (is_over (s.calls k) ≡ true)
      ⊎ ((parked_id (s.calls k) ≡ some id) × (s.reader ≡ gone → lookup id s.pending.inner ≢ some k))

  pub Step-Tracked :
      {s t : Client O C T} (k id : ℕ)
      → Step oneshot mpsc tokens args s t
      → Tracked k id s
      → Tracked k id t
  Step-Tracked k id st (inl h) = inl (over-stays k st h)
  Step-Tracked {s} {t} k id st (inr (p, off)) = elim (parked-stays k id st p) [
    | inr over ↦ inl over
    | inl still ↦ inr (
      still,
      λ g listed. elim (gone_before st g) [
        | inr empty ↦ unfold lookup in cc (ap (λ m. lookup id m) empty, listed)
        | inl before ↦ elim (Step-Origin oneshot mpsc tokens args st k id (still, listed)) [
          | inl ((_, was), _) ↦ off before was
          | inr (new, _) ↦ cc (ap parked_id new, p)
        ]
      ],
    )
  ]

  -- It is over, or ends at its next poll.
  abbrev pub IsSettled : ℕ → Client O C T → Type 0
  IsSettled k s =
      (is_over (s.calls k) ≡ true)
      ⊎ ((id : ℕ) × (s.calls k ≡ sending id)
          × ((submit oneshot mpsc tokens args k id s).calls k ≡ returned (err closed)))
      ⊎ ((id : ℕ) × (r : Outcome) × (s.calls k ≡ awaiting id)
          × ((finish oneshot mpsc tokens args k id s).calls k ≡ returned r))

  parked-cases : (c : Call) (id : ℕ) → parked_id c ≡ some id → (c ≡ sending id) ⊎ (c ≡ awaiting id)
  parked-cases c id h = ground arith

  refused_at_end :
      (s : Client O C T) (k id : ℕ)
      → mpsc.has_receiver s.outbound ≡ false
      → (submit oneshot mpsc tokens args k id s).calls k ≡ returned (err closed)
  unfolding submit
  refused_at_end s k id deaf =
      elim (Sent-cases (mpsc.send (request_of oneshot mpsc tokens args k id) s.outbound)) [
        | inl (c, e) ↦ absurd (cc (deaf, (mpsc.send_lem _ s.outbound c e).2))
        | inr (inl e) ↦ absurd (cc (deaf, mpsc.send_full _ s.outbound e))
        | inr (inr e) ↦ rw (e, submit) (ground arith)
      ]

  pub Tracked-IsSettled :
      {s : Client O C T} (k id : ℕ)
      → Reach oneshot mpsc tokens args s
      → s.issued < 2 ^ 64
      → s.reader ≡ gone
      → mpsc.has_receiver s.outbound ≡ false
      → Tracked k id s
      → IsSettled k s
  Tracked-IsSettled k id r fits g deaf (inl over) = inl over
  Tracked-IsSettled {s} k id r fits g deaf (inr (p, off)) = elim (parked-cases (s.calls k) id p) [
    | inl at ↦ inr (inl (id, at, refused_at_end s k id deaf))
    | inr at ↦
        let v = Reach-Inv oneshot mpsc tokens args r fits in
        elim (v.waits k id p) [
          | inl (listed, _) ↦ absurd (off g listed)
          | inr (inl (e, q, _, _)) ↦ absurd (cc)
          | inr (inr (inl (e, own, c))) ↦ inr (
              inr (
                id,
                outcome e,
                at,
                rw
                    (finish_received oneshot mpsc tokens args k id e s
                      (ap oneshot.poll c ∙ oneshot.poll-send e))
                    (ground arith),
              ))
          | inr (inr (inr c)) ↦ inr (
              inr (
                id,
                err closed,
                at,
                rw
                    (finish-closed oneshot mpsc tokens args k id s
                      (ap oneshot.poll c ∙ oneshot.poll-drop_tx))
                    (ground arith),
              ))
        ]
  ]
