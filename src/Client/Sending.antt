-- ===== src/Client/Sending.antt =====
-- What a client sends: `call` and `writer_loop` of crates/patina-rpc/src/client.rs.
use patina_rpc.Base.{
  ℕ, ◌+◌, ◌^◌, ◌≤◌, ◌<◌, ◌≡◌, inl, inr, sym, ap, ◌∙◌, List, [], ◌∷◌, ◌++◌, Option, none, some, ok,
  err, ◌==◌, nat_eq, if◌then◌else◌, arith, Bool-cases,
}
use patina_rpc.Envelope.{Envelope, request, response, error, heartbeat}
use patina_rpc.Runtime.{Oneshot, Mpsc, CancellationToken, sent}
use patina_rpc.Client.{
  Call, idle, entered, numbered, sending, awaiting, returned, dropped, Args, Client, update,
  from_stream, enter, fetch_add, park, request_of, submit, finish, cancel, read, fire,
  reader_cancels, drain, write, writer_cancels, writer_returns, drop_client, Step, enters, numbers,
  parks, submits, finishes, cancels, reads, fires, reader_stops, reader_cancels_token, drains,
  writes, writer_hangs_up, writer_stops, writer_cancels_token, writer_ends, drops_client, Reach,
  start, next, client_writer_channel_capacity,
}
use patina_rpc.Client.Closing.{Sent-cases}
use patina_rpc.Client.Invariant.{ClientInv, Reach-Inv, issued_mono, call_id}

abbrev pub requests_of : ℕ → Envelope → ℕ
requests_of i (request r) = if i == r.id then 1 else 0
requests_of i (response _) = 0
requests_of i (error _) = 0
requests_of i heartbeat = 0

-- How many of the envelopes are requests under the id `i`.
abbrev pub requests_under : ℕ → List Envelope → ℕ
requests_under i [] = 0
requests_under i (e ∷ es) = requests_of i e + requests_under i es

pub requests_under-append :
    (i : ℕ) (xs ys : List Envelope)
    → requests_under i (xs ++ ys) ≡ requests_under i xs + requests_under i ys
requests_under-append i [] ys = omega arith
requests_under-append i (x ∷ xs) ys = omega (arith, requests_under-append i xs ys)

-- The id of a call whose request is not in the channel yet.
abbrev pub unsent_id : Call → Option ℕ
unsent_id idle = none
unsent_id entered = none
unsent_id (numbered id) = some id
unsent_id (sending id) = some id
unsent_id (awaiting _) = none
unsent_id (returned _) = none
unsent_id dropped = none

call_id_of_unsent : (c : Call) (id : ℕ) → unsent_id c ≡ some id → call_id c ≡ some id
call_id_of_unsent c id h = ground arith

module _ {O C T : Type 0} (oneshot : Oneshot O Envelope) (mpsc : Mpsc C Envelope)
    (tokens : CancellationToken T) (args : ℕ → Args) where
  abbrev pub total : ℕ → Client O C T → ℕ
  total i s = requests_under i (mpsc.queue s.outbound) + requests_under i s.wire

  pub record Sends (s : Client O C T) : Type 0 where
    pub once : (i : ℕ) → total i s ≤ 1
    pub fresh : (k id : ℕ) → unsent_id (s.calls k) ≡ some id → total id s ≡ 0
    pub above : (i : ℕ) → s.issued ≤ i → total i s ≡ 0

  -- A step that sends nothing, and gives no call an id.
  fewer-Sends :
      (s t : Client O C T)
      → ((i : ℕ) → total i t ≤ total i s)
      → s.issued ≤ t.issued
      → ((k id : ℕ) → unsent_id (t.calls k) ≡ some id → unsent_id (s.calls k) ≡ some id)
      → Sends s
      → Sends t
  fewer-Sends s t less up same v = record {
    once = λ i. omega (arith, less i, v.once i);
    fresh = λ k id h. omega (arith, less id, v.fresh k id (same k id h));
    above = λ i h. omega (arith, less i, v.above i (omega arith));
  }

  same_wire :
      (s t : Client O C T)
      → mpsc.queue t.outbound ≡ mpsc.queue s.outbound
      → t.wire ≡ s.wire
      → (i : ℕ) → total i t ≤ total i s
  same_wire s t q w i = omega (arith, ap (requests_under i) q, ap (requests_under i) w)

  fetch_add-Sends :
      (s : Client O C T) (k : ℕ)
      → ClientInv oneshot s
      → (fetch_add oneshot mpsc tokens args k s).issued < 2 ^ 64
      → Sends s
      → Sends (fetch_add oneshot mpsc tokens args k s)
  unfolding fetch_add
  fetch_add-Sends s k inv fits v = record {
    once = v.once;
    fresh = λ j id h. elim (Bool-cases (k == j)) [
      | inl own ↦
          let at : s.next_id ≡ id = ground (arith, own) in v.above id (omega (arith, inv.counted))
      | inr other ↦ v.fresh j id (ground (arith, other))
    ];
    above = λ i h. v.above i (omega arith);
  }

  sent-Sends :
      (s : Client O C T) (k id : ℕ) (c : C)
      → ClientInv oneshot s
      → s.calls k ≡ sending id
      → mpsc.send (request_of oneshot mpsc tokens args k id) s.outbound ≡ sent c
      → Sends s
      → Sends (record s { outbound = c; calls = update s.calls k (awaiting id) })
  sent-Sends s k id c inv at done v =
      let q = (mpsc.send_lem _ s.outbound c done).0 in
      let grown : (i : ℕ)
          → requests_under i (mpsc.queue c)
            ≡ requests_under i (mpsc.queue s.outbound) + (if i == id then 1 else 0) =
        λ i.
          ap (requests_under i) q
          ∙ omega (
            arith,
            requests_under-append i (mpsc.queue s.outbound)
                (request_of oneshot mpsc tokens args k id ∷ []),
          ) in
      let has_id : unsent_id (s.calls k) ≡ some id = ap unsent_id at in
      let under : id < s.issued = inv.below k id (call_id_of_unsent (s.calls k) id has_id) in
      record {
        once = λ i. elim (Bool-cases (i == id)) [
          | inl own ↦
              let same : i ≡ id = ground (arith, own) in
              ground (arith, grown i, own, v.fresh k i (has_id ∙ ap some (sym same)))
          | inr other ↦ ground (arith, grown i, other, v.once i)
        ];
        fresh = λ j i h. elim (Bool-cases (k == j)) [
          | inl own ↦ absurd (ground (arith, own))
          | inr other ↦
              let before : unsent_id (s.calls j) ≡ some i = ground (arith, other) in
              let apart : (i ≡ id) → ⊥ = λ e.
                let same : j ≡ k =
                  inv.unique j k i (call_id_of_unsent (s.calls j) i before)
                    (call_id_of_unsent (s.calls k) i (has_id ∙ ap some (sym e))) in
                ground (arith, same, other) in
              ground (arith, grown i, v.fresh j i before, apart)
        ];
        above = λ i h. ground (arith, grown i, v.above i h, under);
      }

  Step-Sends :
      {s t : Client O C T}
      → Step oneshot mpsc tokens args s t
      → t.issued < 2 ^ 64
      → ClientInv oneshot s
      → Sends s
      → Sends t
  unfolding enter park submit finish cancel read fire reader_cancels drain write writer_cancels
      writer_returns drop_client
  Step-Sends {s} (enters k _ at) fits inv v =
      fewer-Sends s _ (λ i. omega arith) (omega arith) (λ j id h. ground arith) v
  Step-Sends {s} (numbers k at) fits inv v = fetch_add-Sends s k inv fits v
  Step-Sends {s} (parks k a at) fits inv v =
      fewer-Sends s _ (λ i. omega arith) (omega arith) (λ j id h. ground arith) v
  Step-Sends {s} (submits k a at) fits inv v =
      elim (Sent-cases (mpsc.send (request_of oneshot mpsc tokens args k a) s.outbound)) [
        | inl (c, e) ↦ rw (e, submit) (sent-Sends s k a c inv at e v)
        | inr (inl e) ↦ rw (e, submit) v
        | inr (inr e) ↦
            rw (e, submit)
              (fewer-Sends s _ (λ i. omega arith) (omega arith) (λ j id h. ground arith) v)
      ]
  Step-Sends {s} (finishes k a at) fits inv v =
      fewer-Sends s _ (λ i. ground arith) (ground arith) (λ j id h. ground arith) v
  Step-Sends {s} (cancels k a at) fits inv v =
      fewer-Sends s _ (λ i. omega arith) (omega arith) (λ j id h. ground arith) v
  Step-Sends {s} (reads (some (ok e)) at) fits inv v =
      fewer-Sends s _ (λ i. ground arith) (ground arith) (λ j id h. ground arith) v
  Step-Sends {s} (reads (some (err _)) at) fits inv v =
      fewer-Sends s _ (λ i. omega arith) (omega arith) (λ j id h. h) v
  Step-Sends {s} (reads none at) fits inv v =
      fewer-Sends s _ (λ i. omega arith) (omega arith) (λ j id h. h) v
  Step-Sends {s} (fires j e at) fits inv v =
      fewer-Sends s _ (λ i. omega arith) (omega arith) (λ j id h. h) v
  Step-Sends {s} (reader_stops at _) fits inv v =
      fewer-Sends s _ (λ i. omega arith) (omega arith) (λ j id h. h) v
  Step-Sends {s} (reader_cancels_token at) fits inv v =
      fewer-Sends s _ (λ i. omega arith) (omega arith) (λ j id h. h) v
  Step-Sends {s} (drains at) fits inv v =
      fewer-Sends s _ (λ i. omega arith) (omega arith) (λ j id h. h) v
  Step-Sends {s} (writes e c (ok _) on taken) fits inv v =
      fewer-Sends s _
        (λ i. omega (
          arith,
          ap (requests_under i) (mpsc.recv_got e s.outbound c taken).0,
          requests_under-append i s.wire (e ∷ []),
        ))
        (omega arith) (λ j id h. h) v
  Step-Sends {s} (writes e c (err _) on taken) fits inv v =
      fewer-Sends s _
        (λ i. omega (arith, ap (requests_under i) (mpsc.recv_got e s.outbound c taken).0))
        (omega arith) (λ j id h. h) v
  Step-Sends {s} (writer_hangs_up on last) fits inv v =
      fewer-Sends s _ (λ i. omega arith) (omega arith) (λ j id h. h) v
  Step-Sends {s} (writer_stops on seen) fits inv v =
      fewer-Sends s _ (λ i. omega arith) (omega arith) (λ j id h. h) v
  Step-Sends {s} (writer_cancels_token on) fits inv v =
      fewer-Sends s _ (λ i. omega arith) (omega arith) (λ j id h. h) v
  Step-Sends {s} (writer_ends on) fits inv v =
      fewer-Sends s _ (λ i. omega (arith, ap (requests_under i) (mpsc.drop_rx_lem s.outbound).0))
        (omega arith) (λ j id h. h) v
  Step-Sends {s} (drops_client open_ free) fits inv v =
      fewer-Sends s _ (λ i. omega (arith, ap (requests_under i) (mpsc.drop_tx_lem s.outbound).0))
        (omega arith) (λ j id h. h) v

  pub Reach-Sends :
      {s : Client O C T} → Reach oneshot mpsc tokens args s → s.issued < 2 ^ 64 → Sends s
  unfolding from_stream
  Reach-Sends start fits =
      let q = (mpsc.channel_lem client_writer_channel_capacity).0 in
      record {
        once = λ i. omega (arith, ap (requests_under i) q);
        fresh = λ k id h. absurd (cc);
        above = λ i h. omega (arith, ap (requests_under i) q);
      }
  Reach-Sends {s} (next {s = before} r st) fits =
      let small : before.issued < 2 ^ 64 = omega (arith, issued_mono oneshot mpsc tokens args st) in
      Step-Sends st fits (Reach-Inv oneshot mpsc tokens args r small) (Reach-Sends r small)

  -- In a reachable state, while fewer than 2 ^ 64 ids were handed out, no id is sent twice: among
  -- the envelopes in the channel to the writer and on the wire there is at most one request under
  -- each id `i`, and none under an id `j` that was not handed out.
  pub each_id_sent_once :
      {s : Client O C T}
      → Reach oneshot mpsc tokens args s
      → s.issued < 2 ^ 64
      → (i j : ℕ) → s.issued ≤ j
      → (requests_under i (mpsc.queue s.outbound) + requests_under i s.wire ≤ 1)
        × (requests_under j (mpsc.queue s.outbound) + requests_under j s.wire ≡ 0)
  each_id_sent_once r fits i j h = let v = Reach-Sends r fits in (v.once i, v.above j h)
