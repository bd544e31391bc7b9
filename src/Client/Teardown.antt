-- ===== src/Client/Teardown.antt =====
-- The end of a connection, and the end of a call before its answer (crates/patina-rpc/src/client.rs).
use patina_rpc.Base.{
  ℕ, ◌^◌, ◌<◌, ◌≡◌, ◌≢◌, ◌⊎◌, inl, inr, refl, ap, ◌∙◌, none, some, err, ◌==◌, nat_eq, if◌then◌else◌,
  lookup, lookup-remove, arith,
}
use patina_rpc.Envelope.{Envelope}
use patina_rpc.Error.{closed}
use patina_rpc.Runtime.{Oneshot, Mpsc, CancellationToken, Polled}
use patina_rpc.Client.Pending
use patina_rpc.Client.{
  Call, sending, awaiting, returned, dropped, draining, Args, Client, id_of, outcome, pending_count,
  finish, cancel, drain, Reach,
}
use patina_rpc.Client.Invariant.{parked_id, Reach-Inv, drop_sender-other, drain-step-Inv}
use patina_rpc.Client.Routing.{finish_received, finish-closed}

pub parked_of : (c : Call) (id : ℕ) → (c ≡ sending id) ⊎ (c ≡ awaiting id) → parked_id c ≡ some id
parked_of c id (inl e) = ap parked_id e
parked_of c id (inr e) = ap parked_id e

module _ {O C T : Type 0} (oneshot : Oneshot O Envelope) (mpsc : Mpsc C Envelope)
    (tokens : CancellationToken T) (args : ℕ → Args) where
  -- When the reader of a reachable state drains the map, and fewer than 2 ^ 64 ids were handed
  -- out, no entry is left, and every waiting call returns at its next poll: `Closed`, or what an
  -- envelope under its own id says that is in its channel.
  pub drain_wakes_all :
      {s : Client O C T}
      → Reach oneshot mpsc tokens args s
      → s.issued < 2 ^ 64
      → s.reader ≡ draining
      → (k id : ℕ) → s.calls k ≡ awaiting id
      → let t = drain oneshot mpsc tokens args s in
        let u = finish oneshot mpsc tokens args k id t in
        (pending_count oneshot mpsc tokens args t ≡ 0)
        × ((u.calls k ≡ returned (err closed))
            ⊎ ((e : Envelope) × (oneshot.poll (t.cells k) ≡ Polled.received e)
                × (id_of e ≡ some id)
                × (u.calls k ≡ returned (outcome e))))
  unfolding drain
  drain_wakes_all {s} r fits at k id parked =
      let t = drain oneshot mpsc tokens args s in
      let v =
        drain-step-Inv oneshot mpsc tokens args s at (Reach-Inv oneshot mpsc tokens args r fits) in
      let gone_all : pending_count oneshot mpsc tokens args t ≡ 0 =
        unfold pending_count Pending.len drain Pending.drain in refl in
      (
        gone_all,
        elim (v.waits k id (ap parked_id parked)) [
          | inl (l, _) ↦ absurd (unfold drain lookup in cc)
          | inr (inl (e, q, _, _)) ↦ absurd (unfold drain in cc)
          | inr (inr (inl (e, own, c))) ↦
              let got_it = ap oneshot.poll c ∙ oneshot.poll-send e in
              inr (
                e,
                got_it,
                own,
                rw (finish_received oneshot mpsc tokens args k id e t got_it) (ground arith),
              )
          | inr (inr (inr c)) ↦ inl (
              rw
                (finish-closed oneshot mpsc tokens args k id t
                  (ap oneshot.poll c ∙ oneshot.poll-drop_tx))
                (ground arith))
        ],
      )

  -- In a reachable state, while fewer than 2 ^ 64 ids were handed out, a call that is dropped
  -- while it is parked leaves no entry, and touches no other call, no other entry and no other
  -- call's channel.
  pub cancel_cleans_up :
      {s : Client O C T}
      → Reach oneshot mpsc tokens args s
      → s.issued < 2 ^ 64
      → (k id j a : ℕ) → (s.calls k ≡ sending id) ⊎ (s.calls k ≡ awaiting id)
      → j ≢ k
      → let t = cancel oneshot mpsc tokens args k id s in
        (t.calls k ≡ dropped)
        × (t.calls j ≡ s.calls j)
        × (t.cells j ≡ s.cells j)
        × (Pending.parked a t.pending ≡ (if id == a then none else Pending.parked a s.pending))
  unfolding cancel Pending.remove
  cancel_cleans_up {s} r fits k id j a at ne =
      let v = Reach-Inv oneshot mpsc tokens args r fits in
      (
        ground arith,
        ground arith,
        ground (
          arith,
          drop_sender-other oneshot mpsc tokens args s k id j v (parked_of (s.calls k) id at) ne,
        ),
        lookup-remove id a s.pending.inner,
      )
