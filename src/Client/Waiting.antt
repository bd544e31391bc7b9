-- ===== src/Client/Waiting.antt =====
-- How a call comes to stand in the map, and what leaves it there (`call` and `reader_loop` of
-- crates/patina-rpc/src/client.rs).
use patina_rpc.Base.{
  ℕ, ◌≡◌, ◌≢◌, ◌⊎◌, inl, inr, refl, Option, none, some, ok, err, ◌==◌, nat_eq, lookup, remove,
  lookup-insert, lookup-remove, arith, Bool-cases, Option-cases,
}
use patina_rpc.Envelope.{Envelope}
use patina_rpc.Runtime.{Oneshot, Mpsc, CancellationToken}
use patina_rpc.Client.Pending
use patina_rpc.Client.{
  numbered, sending, Args, Client, id_of, enter, fetch_add, park, request_of, submit, finish,
  cancel, read, fire, reader_cancels, drain, write, writer_cancels, writer_returns, drop_client,
  Step, enters, numbers, parks, submits, finishes, cancels, reads, fires, reader_stops,
  reader_cancels_token, drains, writes, writer_hangs_up, writer_stops, writer_cancels_token,
  writer_ends, drops_client,
}
use patina_rpc.Client.Closing.{Sent-cases}
use patina_rpc.Client.Hearing.{heard}
use patina_rpc.Client.Invariant.{parked_id}

module _ {O C T : Type 0} (oneshot : Oneshot O Envelope) (mpsc : Mpsc C Envelope)
    (tokens : CancellationToken T) (args : ℕ → Args) where
  -- The call is parked, and its entry is in the map.
  abbrev pub IsListed : Client O C T → ℕ → ℕ → Type 0
  IsListed s k id = (parked_id (s.calls k) ≡ some id) × (lookup id s.pending.inner ≡ some k)

  -- It was so before the step, which took no answer to it, or the step parks it.
  abbrev pub Origin : Client O C T → Option Envelope → ℕ → ℕ → Type 0
  Origin s o k id =
      (IsListed s k id × ((e : Envelope) → o ≡ some e → id_of e ≢ some id))
      ⊎ ((s.calls k ≡ numbered id) × (o ≡ none))

  still :
      (s : Client O C T) (k id : ℕ)
      → parked_id (s.calls k) ≡ some id
      → lookup id s.pending.inner ≡ some k
      → Origin s none k id
  still s k id p l = inl ((p, l), λ e h. absurd (cc))

  not_removed :
      (s : Client O C T) (a k id : ℕ)
      → lookup id (remove a s.pending.inner) ≡ some k
      → (lookup id s.pending.inner ≡ some k) × (a ≢ id)
  not_removed s a k id h = elim (Bool-cases (a == id)) [
    | inl own ↦ absurd (ground (arith, lookup-remove a id s.pending.inner))
    | inr other ↦ (ground (arith, lookup-remove a id s.pending.inner), ground arith)
  ]

  park-Origin :
      (s : Client O C T) (j a k id : ℕ)
      → s.calls j ≡ numbered a
      → IsListed (park oneshot mpsc tokens args j a s) k id
      → Origin s none k id
  unfolding park Pending.insert
  park-Origin s j a k id at (p, l) = elim (Bool-cases (j == k)) [
    | inl own ↦ inr (ground (arith, own, at), refl)
    | inr other ↦ still s k id (ground arith) (ground (arith, lookup-insert a id j s.pending.inner))
  ]

  read-Origin :
      (s : Client O C T) (e : Envelope) (k id : ℕ)
      → IsListed (read oneshot mpsc tokens args (some (ok e)) s) k id
      → Origin s (some e) k id
  unfolding read
  read-Origin s e k id = elim (Option-cases (id_of e)) [
    | inl nobody ↦ rw (nobody, read) (λ (p, l). inl ((p, l), λ x h. cc))
    | inr (a, own) ↦
        rw (own, read)
          (λ (p, l).
            let (before, apart) = not_removed s a k id l in inl ((p, before), λ x h g. apart (cc)))
  ]

  submit-Origin :
      (s : Client O C T) (j a k id : ℕ)
      → s.calls j ≡ sending a
      → IsListed (submit oneshot mpsc tokens args j a s) k id
      → Origin s none k id
  unfolding submit Pending.remove
  submit-Origin s j a k id at =
      elim (Sent-cases (mpsc.send (request_of oneshot mpsc tokens args j a) s.outbound)) [
        | inl (c, e) ↦ rw (e, submit) (λ (p, l). still s k id (ground (arith, at)) l)
        | inr (inl e) ↦ rw (e, submit) (λ (p, l). still s k id p l)
        | inr (inr e) ↦
            rw (e, submit) (λ (p, l). still s k id (ground arith) (not_removed s a k id l).0)
      ]

  pub Step-Origin :
      {s t : Client O C T} (st : Step oneshot mpsc tokens args s t) (k id : ℕ)
      → IsListed t k id
      → Origin s (heard oneshot mpsc tokens args st) k id
  unfolding enter fetch_add submit finish cancel read fire reader_cancels drain write Pending.remove
      Pending.default writer_cancels writer_returns drop_client lookup
  Step-Origin {s} (enters j _ at) k id (p, l) = still s k id (ground arith) l
  Step-Origin {s} (numbers j at) k id (p, l) = still s k id (ground arith) l
  Step-Origin {s} (parks j a at) k id h = park-Origin s j a k id at h
  Step-Origin {s} (submits j a at) k id h = submit-Origin s j a k id at h
  Step-Origin {s} (finishes j a at) k id (p, l) = still s k id (ground arith) (ground arith)
  Step-Origin {s} (cancels j a at) k id (p, l) =
      still s k id (ground arith) (not_removed s a k id l).0
  Step-Origin {s} (reads (some (ok e)) at) k id h = read-Origin s e k id h
  Step-Origin {s} (reads (some (err _)) at) k id (p, l) = still s k id p l
  Step-Origin {s} (reads none at) k id (p, l) = still s k id p l
  Step-Origin {s} (fires j e at) k id (p, l) = still s k id p l
  Step-Origin {s} (reader_stops at _) k id (p, l) = still s k id p l
  Step-Origin {s} (reader_cancels_token at) k id (p, l) = still s k id p l
  Step-Origin {s} (drains at) k id (p, l) = absurd (cc)
  Step-Origin {s} (writes e c (ok _) on taken) k id (p, l) = still s k id p l
  Step-Origin {s} (writes e c (err _) on taken) k id (p, l) = still s k id p l
  Step-Origin {s} (writer_hangs_up on last) k id (p, l) = still s k id p l
  Step-Origin {s} (writer_stops on seen) k id (p, l) = still s k id p l
  Step-Origin {s} (writer_cancels_token on) k id (p, l) = still s k id p l
  Step-Origin {s} (writer_ends on) k id (p, l) = still s k id p l
  Step-Origin {s} (drops_client open_ free) k id (p, l) = still s k id p l
