-- ===== src/Client/Requests.antt =====
-- What a client's envelopes are: `call` and `writer_loop` of crates/patina-rpc/src/client.rs.
use patina_rpc.Base.{
  ℕ, ◌≡◌, inl, inr, refl, sym, subst, [], ◌∷◌, none, some, ok, err, nat_eq, arith, All, All-append,
  All-Mem,
}
use mathlib.Core.List.{Memᴰ}
use patina_rpc.Envelope.{Envelope}
use patina_rpc.Runtime.{Oneshot, Mpsc, CancellationToken}
use patina_rpc.Client.{
  Args, Client, from_stream, enter, fetch_add, park, request_of, submit, finish, cancel, read, fire,
  reader_cancels, drain, write, writer_cancels, writer_returns, drop_client, Step, enters, numbers,
  parks, submits, finishes, cancels, reads, fires, reader_stops, reader_cancels_token, drains,
  writes, writer_hangs_up, writer_stops, writer_cancels_token, writer_ends, drops_client, Reach,
  start, next, client_writer_channel_capacity,
}
use patina_rpc.Client.Closing.{Sent-cases}

module _ {O C T : Type 0} (oneshot : Oneshot O Envelope) (mpsc : Mpsc C Envelope)
    (tokens : CancellationToken T) (args : ℕ → Args) where
  -- A request with the method and the payload of one of the calls.
  abbrev pub IsRequestOfCall : Envelope → Type 0
  IsRequestOfCall e = (k : ℕ) × (id : ℕ) × (e ≡ request_of oneshot mpsc tokens args k id)

  abbrev Requests : Client O C T → Type 0
  Requests s = All IsRequestOfCall (mpsc.queue s.outbound) × All IsRequestOfCall s.wire

  same-Requests :
      (s t : Client O C T) → t.outbound ≡ s.outbound → t.wire ≡ s.wire → Requests s → Requests t
  same-Requests s t o w (a, b) = (
    subst (λ c. All IsRequestOfCall (mpsc.queue c)) (sym o) a,
    subst (All IsRequestOfCall) (sym w) b,
  )

  Step-Requests : {s t : Client O C T} → Step oneshot mpsc tokens args s t → Requests s → Requests t
  unfolding enter fetch_add park submit finish cancel read fire reader_cancels drain write
      writer_cancels writer_returns drop_client
  Step-Requests (enters k _ at) v = v
  Step-Requests (numbers k at) v = v
  Step-Requests (parks k a at) v = v
  Step-Requests {s} (submits k a at) v =
      elim (Sent-cases (mpsc.send (request_of oneshot mpsc tokens args k a) s.outbound)) [
        | inl (c, e) ↦
            let q = (mpsc.send_lem _ s.outbound c e).0 in
            let longer =
              All-append IsRequestOfCall (mpsc.queue s.outbound)
                (request_of oneshot mpsc tokens args k a ∷ []) v.0 ((k, a, refl), tt) in
            rw (e, submit) (subst (All IsRequestOfCall) (sym q) longer, v.1)
        | inr (inl e) ↦ rw (e, submit) v
        | inr (inr e) ↦ rw (e, submit) v
      ]
  Step-Requests {s} (finishes k a at) v =
      same-Requests s (finish oneshot mpsc tokens args k a s) (ground arith) (ground arith) v
  Step-Requests (cancels k a at) v = v
  Step-Requests {s} (reads (some (ok e)) at) v =
      same-Requests s (read oneshot mpsc tokens args (some (ok e)) s) (ground arith) (ground arith)
        v
  Step-Requests (reads (some (err _)) at) v = v
  Step-Requests (reads none at) v = v
  Step-Requests (fires j e at) v = v
  Step-Requests (reader_stops at _) v = v
  Step-Requests (reader_cancels_token at) v = v
  Step-Requests (drains at) v = v
  Step-Requests {s} (writes e c (ok _) on taken) (a, b) =
      let (first, rest) = subst (All IsRequestOfCall) (mpsc.recv_got e s.outbound c taken).0 a in
      (rest, All-append IsRequestOfCall s.wire (e ∷ []) b (first, tt))
  Step-Requests {s} (writes e c (err _) on taken) (a, b) =
      ((subst (All IsRequestOfCall) (mpsc.recv_got e s.outbound c taken).0 a).1, b)
  Step-Requests (writer_hangs_up on last) v = v
  Step-Requests (writer_stops on seen) v = v
  Step-Requests (writer_cancels_token on) v = v
  Step-Requests {s} (writer_ends on) (a, b) =
      (subst (All IsRequestOfCall) (sym (mpsc.drop_rx_lem s.outbound).0) tt, b)
  Step-Requests {s} (drops_client open_ free) (a, b) =
      (subst (All IsRequestOfCall) (sym (mpsc.drop_tx_lem s.outbound).0) a, b)

  Reach-Requests : {s : Client O C T} → Reach oneshot mpsc tokens args s → Requests s
  unfolding from_stream
  Reach-Requests start =
      (subst (All IsRequestOfCall) (sym (mpsc.channel_lem client_writer_channel_capacity).0) tt, tt)
  Reach-Requests (next r st) = Step-Requests st (Reach-Requests r)

  -- What the client has put on the wire.
  pub wire-IsRequestOfCall :
      {s : Client O C T}
      → Reach oneshot mpsc tokens args s
      → (e : Envelope) → Memᴰ e s.wire
      → IsRequestOfCall e
  wire-IsRequestOfCall {s} r e h = All-Mem IsRequestOfCall e s.wire (Reach-Requests r).1 h
