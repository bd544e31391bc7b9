-- ===== src/Client/Stranded.antt =====
-- The call that comes too late: `call` of crates/patina-rpc/src/client.rs, between its test of the
-- token and the entry in the pending map, while the connection ends.
use patina_rpc.Base.{
  ℕ, ◌^◌, ◌<◌, ◌≡◌, ◌⊎◌, inl, inr, ap, none, some, ok, err, ◌==◌, nat_eq, arith, Bool-cases,
}
use patina_rpc.Envelope.{Envelope}
use patina_rpc.Runtime.{Oneshot, Mpsc, CancellationToken, sent}
use patina_rpc.Client.Pending
use patina_rpc.Client.{
  numbered, sending, awaiting, dropped, gone, Args, Client, enter, fetch_add, park, request_of,
  submit, finish, cancel, read, fire, reader_cancels, drain, write, writer_cancels, writer_returns,
  drop_client, Step, enters, numbers, parks, submits, finishes, cancels, reads, fires, reader_stops,
  reader_cancels_token, drains, writes, writer_hangs_up, writer_stops, writer_cancels_token,
  writer_ends, drops_client, Reach, Runs, here, later, next,
}
use patina_rpc.Client.Invariant.{
  parked_id, ClientInv, Reach-Inv, issued_mono, drop_sender-other, nobody_parked,
}
use patina_rpc.Client.Teardown.{parked_of}

module _ {O C T : Type 0} (oneshot : Oneshot O Envelope) (mpsc : Mpsc C Envelope)
    (tokens : CancellationToken T) (args : ℕ → Args) where
  abbrev Stranded : ℕ → ℕ → Client O C T → Type 0
  Stranded k id s = (s.reader ≡ gone) × (s.calls k ≡ awaiting id) × (s.cells k ≡ oneshot.channel)

  Step-Stranded :
      {s t : Client O C T} (k id : ℕ)
      → Step oneshot mpsc tokens args s t
      → ClientInv oneshot s
      → Stranded k id s
      → Stranded k id t ⊎ (t.calls k ≡ dropped)
  unfolding enter fetch_add park submit finish cancel write writer_cancels writer_returns
      drop_client Pending.remove
  Step-Stranded {s} k id (enters j _ at) v w = inl (ground arith)
  Step-Stranded {s} k id (numbers j at) v w = inl (ground arith)
  Step-Stranded {s} k id (parks j a at) v w = inl (ground (arith, nobody_parked oneshot v j a at))
  Step-Stranded {s} k id (submits j a at) v w =
      inl (ground (arith, drop_sender-other oneshot mpsc tokens args s j a k v (ap parked_id at)))
  Step-Stranded {s} k id (finishes j a at) v w = ground (arith, oneshot.poll-channel)
  Step-Stranded {s} k id (cancels j a at) v w = elim (Bool-cases (j == k)) [
    | inl own ↦ inr (ground arith)
    | inr other ↦ inl (
        ground (
          arith,
          drop_sender-other oneshot mpsc tokens args s j a k v (parked_of (s.calls j) a at),
        ))
  ]
  Step-Stranded k id (reads f at) v w = absurd (cc)
  Step-Stranded k id (fires j e at) v w = absurd (cc)
  Step-Stranded k id (reader_stops at _) v w = absurd (cc)
  Step-Stranded k id (reader_cancels_token at) v w = absurd (cc)
  Step-Stranded k id (drains at) v w = absurd (cc)
  Step-Stranded k id (writes e c (ok _) on taken) v w = inl w
  Step-Stranded k id (writes e c (err _) on taken) v w = inl w
  Step-Stranded k id (writer_hangs_up on last) v w = inl w
  Step-Stranded k id (writer_stops on seen) v w = inl w
  Step-Stranded k id (writer_cancels_token on) v w = inl w
  Step-Stranded k id (writer_ends on) v w = inl w
  Step-Stranded k id (drops_client open_ free) v w = inl w

  Step-dropped :
      {s t : Client O C T} (k : ℕ)
      → Step oneshot mpsc tokens args s t
      → s.calls k ≡ dropped
      → t.calls k ≡ dropped
  unfolding enter fetch_add park submit finish cancel read fire reader_cancels drain write
      writer_cancels writer_returns drop_client
  Step-dropped {s} k (enters j _ at) d = ground arith
  Step-dropped {s} k (numbers j at) d = ground arith
  Step-dropped {s} k (parks j a at) d = ground arith
  Step-dropped {s} k (submits j a at) d = ground arith
  Step-dropped {s} k (finishes j a at) d = ground arith
  Step-dropped {s} k (cancels j a at) d = ground arith
  Step-dropped k (reads (some (ok e)) at) d = ground arith
  Step-dropped k (reads (some (err _)) at) d = d
  Step-dropped k (reads none at) d = d
  Step-dropped k (fires j e at) d = d
  Step-dropped k (reader_stops at _) d = d
  Step-dropped k (reader_cancels_token at) d = d
  Step-dropped k (drains at) d = d
  Step-dropped k (writes e c (ok _) on taken) d = d
  Step-dropped k (writes e c (err _) on taken) d = d
  Step-dropped k (writer_hangs_up on last) d = d
  Step-dropped k (writer_stops on seen) d = d
  Step-dropped k (writer_cancels_token on) d = d
  Step-dropped k (writer_ends on) d = d
  Step-dropped k (drops_client open_ free) d = d

  Reach-Runs :
      {s t : Client O C T}
      → Reach oneshot mpsc tokens args s
      → Runs oneshot mpsc tokens args s t
      → Reach oneshot mpsc tokens args t
  Reach-Runs r here = r
  Reach-Runs r (later w st) = next (Reach-Runs r w) st

  Runs-Stranded :
      {s t : Client O C T} (k id : ℕ)
      → Runs oneshot mpsc tokens args s t
      → Reach oneshot mpsc tokens args s
      → t.issued < 2 ^ 64
      → Stranded k id s
      → Stranded k id t ⊎ (t.calls k ≡ dropped)
  Runs-Stranded k id here r fits w = inl w
  Runs-Stranded k id (later {t} {u} run st) r fits w =
      let small : t.issued < 2 ^ 64 = omega (arith, issued_mono oneshot mpsc tokens args st) in
      elim (Runs-Stranded k id run r small w) [
        | inl still ↦
            Step-Stranded k id st (Reach-Inv oneshot mpsc tokens args (Reach-Runs r run) small)
              still
        | inr lost ↦ inr (Step-dropped k st lost)
      ]

  -- In a reachable state whose reader has drained the map and gone, let a call have its id and
  -- not be parked yet: it passed its test of the token before. If it parks itself now, and the
  -- writer's channel still takes its request, then in every later state, while fewer than 2 ^ 64
  -- ids were handed out, it waits, or its future was dropped; it never returns.
  pub late_call_never_returns :
      {s t : Client O C T}
      → Reach oneshot mpsc tokens args s
      → s.reader ≡ gone
      → (k id : ℕ) (c : C) → s.calls k ≡ numbered id
      → mpsc.send (request_of oneshot mpsc tokens args k id) s.outbound ≡ sent c
      → Runs oneshot mpsc tokens args
          (submit oneshot mpsc tokens args k id (park oneshot mpsc tokens args k id s))
          t
      → t.issued < 2 ^ 64
      → (t.calls k ≡ awaiting id) ⊎ (t.calls k ≡ dropped)
  late_call_never_returns {s} {t} r over k id c at room run fits =
      let parked = park oneshot mpsc tokens args k id s in
      let waiting = submit oneshot mpsc tokens args k id parked in
      let at' : parked.calls k ≡ sending id = unfold park in ground arith in
      let stuck : Stranded k id waiting =
        unfold submit park in rw (room, submit) (over, ground arith, ground arith) in
      elim (Runs-Stranded k id run (next (next r (parks k id at)) (submits k id at')) fits stuck) [
        | inl still ↦ inl still.1
        | inr lost ↦ inr lost
      ]
