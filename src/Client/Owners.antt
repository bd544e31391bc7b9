-- ===== src/Client/Owners.antt =====
-- Whose request stands in the writer's channel and on the wire under an id that is in use (`call`
-- and `writer_loop` of crates/patina-rpc/src/client.rs).
use patina_rpc.Base.{
  ℕ, ◌^◌, ◌<◌, ◌≡◌, inl, inr, refl, sym, subst, ap, ◌∙◌, List, [], ◌∷◌, none, some, ok, err, ◌==◌,
  nat_eq, arith, All, All-append, All-Mem, Bool-cases,
}
use mathlib.Core.List.{Memᴰ}
use patina_rpc.Envelope.{Envelope, RequestData, request, response, error, heartbeat}
use patina_rpc.Runtime.{Oneshot, Mpsc, CancellationToken, sent}
use patina_rpc.Client.{
  sending, awaiting, Args, Client, update, from_stream, enter, fetch_add, park, request_of, submit,
  finish, cancel, read, fire, reader_cancels, drain, write, writer_cancels, writer_returns,
  drop_client, Step, enters, numbers, parks, submits, finishes, cancels, reads, fires, reader_stops,
  reader_cancels_token, drains, writes, writer_hangs_up, writer_stops, writer_cancels_token,
  writer_ends, drops_client, Reach, start, next,
}
use patina_rpc.Client.Closing.{Sent-cases}
use patina_rpc.Client.Invariant.{ClientInv, Reach-Inv, issued_mono, call_id}
use patina_rpc.Client.Sending.{requests_under, each_id_sent_once}

module _ {O C T : Type 0} (oneshot : Oneshot O Envelope) (mpsc : Mpsc C Envelope)
    (tokens : CancellationToken T) (args : ℕ → Args) where
  -- If it is a request under the id `id`, then it is the request of the call `k`.
  abbrev pub IsOwnedBy : ℕ → ℕ → Envelope → Type 0
  IsOwnedBy k id (request r) = r.id ≡ id → request r ≡ request_of oneshot mpsc tokens args k id
  IsOwnedBy k id (response _) = Unit {0}
  IsOwnedBy k id (error _) = Unit {0}
  IsOwnedBy k id heartbeat = Unit {0}

  abbrev Owners : Client O C T → Type 0
  Owners s =
      (k id : ℕ)
      → call_id (s.calls k) ≡ some id
      → All (IsOwnedBy k id) (mpsc.queue s.outbound) × All (IsOwnedBy k id) s.wire

  none_owned : (k id : ℕ) (es : List Envelope) → requests_under id es ≡ 0 → All (IsOwnedBy k id) es
  none_owned k id [] h = tt
  none_owned k id (request r ∷ es) h =
      (λ e. absurd (ground arith), none_owned k id es (ground arith))
  none_owned k id (response _ ∷ es) h = (tt, none_owned k id es (omega (arith, h)))
  none_owned k id (error _ ∷ es) h = (tt, none_owned k id es (omega (arith, h)))
  none_owned k id (heartbeat ∷ es) h = (tt, none_owned k id es (omega (arith, h)))

  -- A step that leaves the channel and the wire alone, and gives no call an id.
  same-Owners :
      (s t : Client O C T)
      → t.outbound ≡ s.outbound
      → t.wire ≡ s.wire
      → ((k id : ℕ) → call_id (t.calls k) ≡ some id → call_id (s.calls k) ≡ some id)
      → Owners s
      → Owners t
  same-Owners s t o w same v k id h =
      let (a, b) = v k id (same k id h) in
      (
        subst (λ c. All (IsOwnedBy k id) (mpsc.queue c)) (sym o) a,
        subst (All (IsOwnedBy k id)) (sym w) b,
      )

  fetch_add-Owners :
      (s : Client O C T) (k : ℕ)
      → Reach oneshot mpsc tokens args s
      → s.issued < 2 ^ 64
      → Owners s
      → Owners (fetch_add oneshot mpsc tokens args k s)
  unfolding fetch_add
  fetch_add-Owners s k r fits v j id h = elim (Bool-cases (k == j)) [
    | inr other ↦ v j id (ground (arith, other))
    | inl own ↦
        let at : s.next_id ≡ id = ground (arith, own) in
        let inv = Reach-Inv oneshot mpsc tokens args r fits in
        let unused =
          (each_id_sent_once oneshot mpsc tokens args r fits 0 id (omega (arith, inv.counted))).1 in
        (
          none_owned j id (mpsc.queue s.outbound) (omega (arith, unused)),
          none_owned j id s.wire (omega (arith, unused)),
        )
  ]

  sent-Owners :
      (s : Client O C T) (k a : ℕ) (c : C)
      → ClientInv oneshot s
      → s.calls k ≡ sending a
      → mpsc.send (request_of oneshot mpsc tokens args k a) s.outbound ≡ sent c
      → Owners s
      → Owners (record s { outbound = c; calls = update s.calls k (awaiting a) })
  sent-Owners s k a c inv at done v j id h =
      let q = (mpsc.send_lem _ s.outbound c done).0 in
      let before : call_id (s.calls j) ≡ some id = ground (arith, at) in
      let (queued, written) = v j id before in
      let owner : a ≡ id → j ≡ k = λ e. inv.unique j k id before (ap call_id at ∙ ap some e) in
      let new : IsOwnedBy j id (request_of oneshot mpsc tokens args k a) =
        λ e. ground (arith, owner e, e) in
      (
        subst (All (IsOwnedBy j id)) (sym q)
            (All-append (IsOwnedBy j id) (mpsc.queue s.outbound) _ queued (new, tt)),
        written,
      )

  Step-Owners :
      {s t : Client O C T}
      → Step oneshot mpsc tokens args s t
      → Reach oneshot mpsc tokens args s
      → s.issued < 2 ^ 64
      → Owners s
      → Owners t
  unfolding enter park submit finish cancel read fire reader_cancels drain write writer_cancels
      writer_returns drop_client
  Step-Owners {s} (enters k _ at) r fits v = λ j id h. v j id (ground arith)
  Step-Owners {s} (numbers k at) r fits v = fetch_add-Owners s k r fits v
  Step-Owners {s} (parks k a at) r fits v = λ j id h. v j id (ground (arith, at))
  Step-Owners {s} (submits k a at) r fits v =
      elim (Sent-cases (mpsc.send (request_of oneshot mpsc tokens args k a) s.outbound)) [
        | inl (c, e) ↦
            rw (e, submit) (sent-Owners s k a c (Reach-Inv oneshot mpsc tokens args r fits) at e v)
        | inr (inl e) ↦ rw (e, submit) v
        | inr (inr e) ↦ rw (e, submit) (λ j id h. v j id (ground arith))
      ]
  Step-Owners {s} (finishes k a at) r fits v =
      same-Owners s (finish oneshot mpsc tokens args k a s) (ground arith) (ground arith)
        (λ j id h. ground arith) v
  Step-Owners {s} (cancels k a at) r fits v = λ j id h. v j id (ground arith)
  Step-Owners {s} (reads (some (ok e)) at) r fits v =
      same-Owners s (read oneshot mpsc tokens args (some (ok e)) s) (ground arith) (ground arith)
        (λ j id h. ground arith) v
  Step-Owners (reads (some (err _)) at) r fits v = v
  Step-Owners (reads none at) r fits v = v
  Step-Owners (fires j e at) r fits v = v
  Step-Owners (reader_stops at _) r fits v = v
  Step-Owners (reader_cancels_token at) r fits v = v
  Step-Owners (drains at) r fits v = v
  Step-Owners {s} (writes e c (ok _) on taken) r fits v = λ k id h.
      let (a, b) = v k id h in
      let (first, rest) = subst (All (IsOwnedBy k id)) (mpsc.recv_got e s.outbound c taken).0 a in
      (rest, All-append (IsOwnedBy k id) s.wire (e ∷ []) b (first, tt))
  Step-Owners {s} (writes e c (err _) on taken) r fits v = λ k id h.
      let (a, b) = v k id h in
      ((subst (All (IsOwnedBy k id)) (mpsc.recv_got e s.outbound c taken).0 a).1, b)
  Step-Owners (writer_hangs_up on last) r fits v = v
  Step-Owners (writer_stops on seen) r fits v = v
  Step-Owners (writer_cancels_token on) r fits v = v
  Step-Owners {s} (writer_ends on) r fits v = λ k id h.
      (subst (All (IsOwnedBy k id)) (sym (mpsc.drop_rx_lem s.outbound).0) tt, (v k id h).1)
  Step-Owners {s} (drops_client open_ free) r fits v = λ k id h.
      let (a, b) = v k id h in
      (subst (All (IsOwnedBy k id)) (sym (mpsc.drop_tx_lem s.outbound).0) a, b)

  Reach-Owners :
      {s : Client O C T} → Reach oneshot mpsc tokens args s → s.issued < 2 ^ 64 → Owners s
  unfolding from_stream
  Reach-Owners start fits = λ k id h. absurd (cc)
  Reach-Owners (next {s = before} r st) fits =
      let small : before.issued < 2 ^ 64 = omega (arith, issued_mono oneshot mpsc tokens args st) in
      Step-Owners st r small (Reach-Owners r small)

  -- A request that the client has put on the wire under the id of a call that is under way is that
  -- call's.
  pub request_of_owner :
      {s : Client O C T}
      → Reach oneshot mpsc tokens args s
      → s.issued < 2 ^ 64
      → (k : ℕ) (req : RequestData) → call_id (s.calls k) ≡ some req.id
      → Memᴰ (request req) s.wire
      → request req ≡ request_of oneshot mpsc tokens args k req.id
  request_of_owner {s} r fits k req h m =
      All-Mem (IsOwnedBy k req.id) (request req) s.wire (Reach-Owners r fits k req.id h).1 m refl
