-- ===== src/Client/Invariant/Moves.antt =====
-- What each move of a call, the reader or the writer keeps (crates/patina-rpc/src/client.rs).
use patina_rpc.Client.Invariant.Defs.{call_id, parked_id, was_parked, call_id_of_parked, Inv}
use patina_rpc.Client.Invariant.Calls.{nobody_parked, park-Inv, resubmit-Inv, leave-Inv}
use patina_rpc.Client.Invariant.Reading.{
  contains-values, quiet-Inv, missed-Inv, found-Inv, drain-Inv,
}
use patina_rpc.Base.{
  ℕ, ◌≡◌, ◌≢◌, inl, inr, refl, sym, ap, ◌∙◌, true, Option, none, some, Result, ok, err, nat_eq,
  lookup, remove, lookup-remove, lookup-Has, Has-remove, arith, Option-cases,
}
use patina_rpc.Envelope.{Envelope}
use patina_rpc.Error.{WireError, closed}
use patina_rpc.Runtime.{
  Oneshot, Mpsc, CancellationToken, Polled, recv_error, Sent, sent, full, refused,
}
use patina_rpc.Client.Pending
use patina_rpc.Client.{
  Outcome, Call, numbered, sending, awaiting, returned, dropped, reading, leaving, draining, Args,
  Client, update, id_of, outcome, from_stream, drop_sender, park, request_of, submit, finish,
  cancel, read, drain,
}

abbrev pub ClientInv : {O C T : Type 0} → Oneshot O Envelope → Client O C T → Type 0
ClientInv oneshot s = Inv oneshot s.next_id s.issued s.pending.inner s.cells s.calls s.reader

module _ {O C T : Type 0} (oneshot : Oneshot O Envelope) (mpsc : Mpsc C Envelope)
    (tokens : CancellationToken T) (args : ℕ → Args) where
  pub from_stream-Inv : ClientInv oneshot (from_stream oneshot mpsc tokens args)
  unfolding from_stream Pending.default
  from_stream-Inv = record {
    counted = refl;
    below = λ k id h. cc;
    unique = λ j k id h g. cc;
    entry = λ k id h. absurd h;
    waits = λ k id h. cc;
    fired = λ k e h. cc;
    aimed = λ k id e h g. cc;
  }

  -- The guard of the call `k` drops no other call's sender.
  pub drop_sender-other :
      (s : Client O C T) (k id j : ℕ)
      → ClientInv oneshot s
      → parked_id (s.calls k) ≡ some id
      → j ≢ k
      → drop_sender oneshot mpsc tokens args (lookup id s.pending.inner) s.cells j ≡ s.cells j
  drop_sender-other s k id j v at ne = elim (Option-cases (lookup id s.pending.inner)) [
    | inl e ↦ rw e
    | inr (m, e) ↦
        let own = (v.entry m id (lookup-Has id m _ e)).0 in
        let same : m ≡ k =
          v.unique m k id (call_id_of_parked _ id own) (call_id_of_parked _ id at) in
        rw e (ground arith)
  ]

  -- A guard that drops the entry of the call `k`, which ends.
  drop_guard-Inv :
      (s : Client O C T) (k id : ℕ) (c : Call) (cells' : ℕ → O)
      → ClientInv oneshot s
      → parked_id (s.calls k) ≡ some id
      → call_id c ≡ none
      → parked_id c ≡ none
      → was_parked c ≡ true
      → ((j : ℕ)
          → j ≢ k
          → cells' j ≡ drop_sender oneshot mpsc tokens args (lookup id s.pending.inner) s.cells j)
      → Inv oneshot s.next_id s.issued
          (remove id s.pending.inner)
          cells'
          (update s.calls k c)
          s.reader
  drop_guard-Inv s k id c cells' v at no_id unparked was spare =
      leave-Inv oneshot v k id c _ cells' at no_id unparked was
        (λ j a h.
          let (old, other) = Has-remove id a j _ h in (old, λ q. ground (arith, v.entry j a old)))
        (λ a ne. ground (arith, lookup-remove id a s.pending.inner))
        (λ j ne. spare j ne ∙ drop_sender-other s k id j v at ne)

  pub submit-Inv :
      (s : Client O C T) (k id : ℕ)
      → s.calls k ≡ sending id
      → ClientInv oneshot s
      → ClientInv oneshot (submit oneshot mpsc tokens args k id s)
  unfolding submit Pending.remove
  submit-Inv s k id at v = go (mpsc.send (request_of oneshot mpsc tokens args k id) s.outbound) refl
    where
      go :
          (x : Sent C)
          → mpsc.send (request_of oneshot mpsc tokens args k id) s.outbound ≡ x
          → ClientInv oneshot (submit oneshot mpsc tokens args k id s)
      go (sent c) e = rw (e, submit) (resubmit-Inv oneshot v k id at)
      go full e = rw (e, submit) v
      go refused e =
          rw (e, submit)
            (drop_guard-Inv s k id (returned (err closed)) _ v (ap parked_id at) refl refl refl
              (λ j ne. refl))

  pub finish-Inv :
      (s : Client O C T) (k id : ℕ)
      → s.calls k ≡ awaiting id
      → ClientInv oneshot s
      → ClientInv oneshot (finish oneshot mpsc tokens args k id s)
  unfolding finish
  finish-Inv s k id at v = go (oneshot.poll (s.cells k)) refl
    where
      resolves :
          (x : Polled Envelope) (o : Outcome)
          → oneshot.poll (s.cells k) ≡ x
          → x ≢ Polled.pending
          → Inv oneshot s.next_id s.issued s.pending.inner s.cells
              (update s.calls k (returned o))
              s.reader
      resolves x o e used =
          leave-Inv oneshot v k id (returned o) _ s.cells (ap parked_id at) refl refl refl
            (λ j a h. (
              h,
              λ q. used (
                  sym e
                  ∙ ap (λ m. oneshot.poll (s.cells m)) (sym q)
                  ∙ ap oneshot.poll (v.entry j a h).1
                  ∙ oneshot.poll-channel),
            ))
            (λ a ne. refl) (λ j ne. refl)

      go :
          (x : Polled Envelope)
          → oneshot.poll (s.cells k) ≡ x
          → ClientInv oneshot (finish oneshot mpsc tokens args k id s)
      go Polled.pending e = rw (e, finish) v
      go (Polled.received m) e = rw (e, finish) (resolves _ (outcome m) e (λ q. cc))
      go recv_error e = rw (e, finish) (resolves _ (err closed) e (λ q. cc))

  pub cancel-Inv :
      (s : Client O C T) (k id : ℕ)
      → parked_id (s.calls k) ≡ some id
      → ClientInv oneshot s
      → ClientInv oneshot (cancel oneshot mpsc tokens args k id s)
  unfolding cancel Pending.remove
  cancel-Inv s k id at v =
      drop_guard-Inv s k id dropped _ v at refl refl refl (λ j ne. ground arith)

  pub park-step-Inv :
      (s : Client O C T) (k id : ℕ)
      → s.calls k ≡ numbered id
      → ClientInv oneshot s
      → ClientInv oneshot (park oneshot mpsc tokens args k id s)
  unfolding park
  park-step-Inv s k id at v =
      rw (nobody_parked oneshot v k id at, park) (park-Inv oneshot v k id at)

  pub read-Inv :
      (s : Client O C T) (f : Option (Result Envelope WireError))
      → s.reader ≡ reading
      → ClientInv oneshot s
      → ClientInv oneshot (read oneshot mpsc tokens args f s)
  unfolding read
  read-Inv s (some (ok e)) at v = elim (Option-cases (id_of e)) [
    | inl none_in ↦ rw (none_in, read) v
    | inr (id, addressed) ↦ elim (Option-cases (lookup id s.pending.inner)) [
      | inl missing ↦
          rw (addressed, read)
            (rw (missing, read)
              (quiet-Inv oneshot (missed-Inv oneshot v id missing) reading (λ k x h. cc)
                (λ k x h. cc)))
      | inr (k, found) ↦
          rw (addressed, read)
            (rw (found, read) (found-Inv oneshot v id k e (λ j x h. cc) addressed found))
    ]
  ]
  read-Inv s (some (err x)) at v = quiet-Inv oneshot v leaving (λ k e h. cc) (λ k e h. cc)
  read-Inv s none at v = quiet-Inv oneshot v leaving (λ k e h. cc) (λ k e h. cc)

  pub drain-step-Inv :
      (s : Client O C T)
      → s.reader ≡ draining
      → ClientInv oneshot s
      → ClientInv oneshot (drain oneshot mpsc tokens args s)
  unfolding drain Pending.default
  drain-step-Inv s at v = drain-Inv oneshot v _ at (λ j. rw (contains-values j s.pending.inner))
