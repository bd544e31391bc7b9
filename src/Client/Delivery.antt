-- ===== src/Client/Delivery.antt =====
-- While a client's writer runs, the request of a call that waits is in the writer's channel or on the
-- wire (`call` and `writer_loop` of crates/patina-rpc/src/client.rs).
use patina_rpc.Base.{
  ℕ, ◌≤◌, ◌≡◌, inl, inr, ap, [], ◌∷◌, none, some, ok, err, ◌==◌, nat_eq, arith, Bool-cases,
}
use patina_rpc.Envelope.{Envelope}
use patina_rpc.Runtime.{Oneshot, Mpsc, CancellationToken, sent}
use patina_rpc.Client.{
  awaiting, writing, Args, Client, update, from_stream, enter, fetch_add, park, request_of, submit,
  finish, cancel, read, fire, reader_cancels, drain, write, writer_cancels, writer_returns,
  drop_client, Step, enters, numbers, parks, submits, finishes, cancels, reads, fires, reader_stops,
  reader_cancels_token, drains, writes, writer_hangs_up, writer_stops, writer_cancels_token,
  writer_ends, drops_client, Reach, start, next,
}
use patina_rpc.Client.Closing.{Sent-cases}
use patina_rpc.Client.Sending.{requests_under, requests_under-append, total}

module _ {O C T : Type 0} (oneshot : Oneshot O Envelope) (mpsc : Mpsc C Envelope)
    (tokens : CancellationToken T) (args : ℕ → Args) where
  abbrev Delivers : Client O C T → Type 0
  Delivers s =
      s.writer ≡ writing
      → (k id : ℕ) → s.calls k ≡ awaiting id
      → 1 ≤ total oneshot mpsc tokens args id s

  sent-Delivers :
      (s : Client O C T) (k a : ℕ) (c : C)
      → mpsc.send (request_of oneshot mpsc tokens args k a) s.outbound ≡ sent c
      → Delivers s
      → Delivers (record s { outbound = c; calls = update s.calls k (awaiting a) })
  sent-Delivers s k a c done v on j id h =
      let q = ap (requests_under id) (mpsc.send_lem _ s.outbound c done).0 in
      let more =
        requests_under-append id (mpsc.queue s.outbound)
          (request_of oneshot mpsc tokens args k a ∷ []) in
      elim (Bool-cases (k == j)) [
        | inl own ↦ ground (arith, q, more)
        | inr other ↦ omega (arith, q, more, v on j id (ground arith))
      ]

  Step-Delivers : {s t : Client O C T} → Step oneshot mpsc tokens args s t → Delivers s → Delivers t
  unfolding enter fetch_add park submit finish cancel read fire reader_cancels drain write
      writer_cancels writer_returns drop_client
  Step-Delivers {s} (enters k _ at) v = λ on j id h. v on j id (ground arith)
  Step-Delivers {s} (numbers k at) v = λ on j id h. v on j id (ground arith)
  Step-Delivers {s} (parks k a at) v = λ on j id h. v on j id (ground arith)
  Step-Delivers {s} (submits k a at) v =
      elim (Sent-cases (mpsc.send (request_of oneshot mpsc tokens args k a) s.outbound)) [
        | inl (c, e) ↦ rw (e, submit) (sent-Delivers s k a c e v)
        | inr (inl e) ↦ rw (e, submit) v
        | inr (inr e) ↦ rw (e, submit) (λ on j id h. v on j id (ground arith))
      ]
  Step-Delivers {s} (finishes k a at) v =
      λ on j id h. ground (arith, v (ground arith) j id (ground arith))
  Step-Delivers {s} (cancels k a at) v = λ on j id h. v on j id (ground arith)
  Step-Delivers {s} (reads (some (ok e)) at) v =
      λ on j id h. ground (arith, v (ground arith) j id (ground arith))
  Step-Delivers (reads (some (err _)) at) v = v
  Step-Delivers (reads none at) v = v
  Step-Delivers (fires j e at) v = v
  Step-Delivers (reader_stops at _) v = v
  Step-Delivers (reader_cancels_token at) v = v
  Step-Delivers (drains at) v = v
  Step-Delivers {s} (writes e c (ok _) on taken) v = λ on' j id h. omega (
    arith,
    v on j id h,
    ap (requests_under id) (mpsc.recv_got e s.outbound c taken).0,
    requests_under-append id s.wire (e ∷ []),
  )
  Step-Delivers {s} (writes e c (err _) on taken) v = λ on' j id h. absurd (cc)
  Step-Delivers (writer_hangs_up on last) v = λ on' j id h. absurd (cc)
  Step-Delivers (writer_stops on seen) v = λ on' j id h. absurd (cc)
  Step-Delivers (writer_cancels_token on) v = λ on' j id h. absurd (cc)
  Step-Delivers {s} (writer_ends on) v = λ on' j id h. absurd (cc)
  Step-Delivers {s} (drops_client open_ free) v = λ on j id h.
      omega (arith, v on j id h, ap (requests_under id) (mpsc.drop_tx_lem s.outbound).0)

  pub Reach-Delivers : {s : Client O C T} → Reach oneshot mpsc tokens args s → Delivers s
  unfolding from_stream
  Reach-Delivers start = λ on k id h. absurd (cc)
  Reach-Delivers (next r st) = Step-Delivers st (Reach-Delivers r)
