-- ===== src/Client/Hearing.antt =====
-- What reaches a client's calls: the envelopes in the reader's hand and in the channels of the parked
-- calls, and the results that calls return (crates/patina-rpc/src/client.rs).
use patina_rpc.Base.{
  ℕ, ◌≡◌, ◌≢◌, inl, inr, refl, sym, ap, subst, ◌∙◌, Option, none, some, ok, err, ◌==◌, nat_eq,
  lookup, has_value, has_value-Has, arith, Bool-cases,
}
use patina_rpc.Envelope.{Envelope}
use patina_rpc.Runtime.{Oneshot, Mpsc, CancellationToken, Polled, refused}
use patina_rpc.Client.Pending
use patina_rpc.Client.{
  numbered, sending, firing, Args, Client, drop_sender, from_stream, enter, fetch_add, park,
  request_of, submit, finish, cancel, read, fire, reader_cancels, drain, write, writer_cancels,
  writer_returns, drop_client, Step, enters, numbers, parks, submits, finishes, cancels, reads,
  fires, reader_stops, reader_cancels_token, drains, writes, writer_hangs_up, writer_stops,
  writer_cancels_token, writer_ends, drops_client,
}
use patina_rpc.Client.Closing.{Sent-cases}
use patina_rpc.Client.Teardown.{parked_of}
use patina_rpc.Client.Invariant.{
  ClientInv, parked_id, nobody_parked, contains-values, drop_sender-other,
}

module _ {O C T : Type 0} (oneshot : Oneshot O Envelope) (mpsc : Mpsc C Envelope)
    (tokens : CancellationToken T) (args : ℕ → Args) where
  -- The envelope that a step takes from the stream.
  abbrev pub heard : {s t : Client O C T} → Step oneshot mpsc tokens args s t → Option Envelope
  heard (reads (some (ok e)) _) = some e
  heard _ = none

  pub record Heard (P : Envelope → Type 0) (s : Client O C T) : Type 0 where
    pub in_hand : (k : ℕ) (e : Envelope) → s.reader ≡ firing k e → P e
    pub in_cell :
        (k id : ℕ) (e : Envelope)
        → parked_id (s.calls k) ≡ some id
        → oneshot.poll (s.cells k) ≡ Polled.received e
        → P e

module _ {O C T : Type 0} (oneshot : Oneshot O Envelope) (mpsc : Mpsc C Envelope)
    (tokens : CancellationToken T) (args : ℕ → Args) (P : Envelope → Type 0) where
  pub from_stream-Heard : Heard oneshot mpsc tokens args P (from_stream oneshot mpsc tokens args)
  unfolding from_stream
  from_stream-Heard = record { in_hand = λ k e h. cc; in_cell = λ k id e h p. cc }

  -- A call that is parked, other than the one that a guard is dropped for, keeps its channel.
  pub spared :
      (s : Client O C T) (k a j : ℕ)
      → ClientInv oneshot s
      → parked_id (s.calls k) ≡ some a
      → j ≢ k
      → oneshot.poll (drop_sender oneshot mpsc tokens args (lookup a s.pending.inner) s.cells j)
        ≡ oneshot.poll (s.cells j)
  spared s k a j inv at ne =
      ap oneshot.poll (drop_sender-other oneshot mpsc tokens args s k a j inv at ne)

  refused-Heard :
      (s : Client O C T) (k a : ℕ)
      → ClientInv oneshot s
      → s.calls k ≡ sending a
      → mpsc.send (request_of oneshot mpsc tokens args k a) s.outbound ≡ refused
      → Heard oneshot mpsc tokens args P s
      → Heard oneshot mpsc tokens args P (submit oneshot mpsc tokens args k a s)
  unfolding submit Pending.remove
  refused-Heard s k a inv at e v =
      rw (e, submit)
        (record {
          in_hand = v.in_hand;
          in_cell = λ j id x h p.
              let ne : j ≢ k = λ q. ground (arith) in
              v.in_cell j id x (ground arith) (sym (spared s k a j inv (ap parked_id at) ne) ∙ p);
        })

  park-Heard :
      (s : Client O C T) (k a : ℕ)
      → ClientInv oneshot s
      → s.calls k ≡ numbered a
      → Heard oneshot mpsc tokens args P s
      → Heard oneshot mpsc tokens args P (park oneshot mpsc tokens args k a s)
  unfolding park
  park-Heard s k a inv at v =
      rw (nobody_parked oneshot inv k a at, park)
        (record {
          in_hand = v.in_hand;
          in_cell = λ j id x h p. elim (Bool-cases (k == j)) [
            | inl own ↦ absurd (ground (arith, oneshot.poll-channel))
            | inr other ↦ v.in_cell j id x (ground arith) (ground arith)
          ];
        })

  cancel-Heard :
      (s : Client O C T) (k a : ℕ)
      → ClientInv oneshot s
      → parked_id (s.calls k) ≡ some a
      → Heard oneshot mpsc tokens args P s
      → Heard oneshot mpsc tokens args P (cancel oneshot mpsc tokens args k a s)
  unfolding cancel Pending.remove
  cancel-Heard s k a inv at v = record {
    in_hand = v.in_hand;
    in_cell = λ j id x h p. elim (Bool-cases (k == j)) [
      | inl own ↦ absurd (ground arith)
      | inr other ↦
          v.in_cell j id x (ground arith)
            (sym (spared s k a j inv at (ground arith)) ∙ ground arith)
    ];
  }

  drain-Heard :
      (s : Client O C T)
      → ClientInv oneshot s
      → Heard oneshot mpsc tokens args P s
      → Heard oneshot mpsc tokens args P (drain oneshot mpsc tokens args s)
  unfolding drain Pending.default
  drain-Heard s inv v = record {
    in_hand = λ k e h. cc;
    in_cell = λ j id x h p. elim (Bool-cases (has_value j s.pending.inner)) [
      | inl in_map ↦
          let (b, entry) = has_value-Has j s.pending.inner in_map in
          let empty = (inv.entry j b entry).1 in
          absurd (ground (arith, contains-values j s.pending.inner, empty, oneshot.poll-drop_tx))
      | inr out ↦ v.in_cell j id x h (ground (arith, contains-values j s.pending.inner))
    ];
  }

  fire-Heard :
      (s : Client O C T) (k : ℕ) (e : Envelope)
      → ClientInv oneshot s
      → s.reader ≡ firing k e
      → Heard oneshot mpsc tokens args P s
      → Heard oneshot mpsc tokens args P (fire oneshot mpsc tokens args k e s)
  unfolding fire
  fire-Heard s k e inv at v = record {
    in_hand = λ j x h. cc;
    in_cell = λ j id x h p. elim (Bool-cases (k == j)) [
      | inl own ↦
          let empty = (inv.aimed k id e at (ground arith)).1 in
          let same : e ≡ x = ground (arith, empty, oneshot.poll-send e) in
          subst P same (v.in_hand k e at)
      | inr other ↦ v.in_cell j id x h (ground arith)
    ];
  }

  -- Each step keeps it, if `P` holds of the envelope that it takes from the stream.
  pub Step-Heard :
      {s t : Client O C T} (st : Step oneshot mpsc tokens args s t)
      → ClientInv oneshot s
      → ((e : Envelope) → heard oneshot mpsc tokens args st ≡ some e → P e)
      → Heard oneshot mpsc tokens args P s
      → Heard oneshot mpsc tokens args P t
  unfolding enter fetch_add submit finish read reader_cancels write writer_cancels writer_returns
      drop_client
  Step-Heard {s} (enters k _ at) inv new v = record {
    in_hand = v.in_hand;
    in_cell = λ j id x h p. v.in_cell j id x (ground arith) p;
  }
  Step-Heard {s} (numbers k at) inv new v = record {
    in_hand = v.in_hand;
    in_cell = λ j id x h p. v.in_cell j id x (ground arith) p;
  }
  Step-Heard {s} (parks k a at) inv new v = park-Heard s k a inv at v
  Step-Heard {s} (submits k a at) inv new v =
      elim (Sent-cases (mpsc.send (request_of oneshot mpsc tokens args k a) s.outbound)) [
        | inl (c, e) ↦
            rw (e, submit)
              (record {
                in_hand = v.in_hand;
                in_cell = λ j id x h p. v.in_cell j id x (ground (arith, at)) p;
              })
        | inr (inl e) ↦ rw (e, submit) v
        | inr (inr e) ↦ refused-Heard s k a inv at e v
      ]
  Step-Heard {s} (finishes k a at) inv new v = record {
    in_hand = λ j x h. v.in_hand j x (ground arith);
    in_cell = λ j id x h p. v.in_cell j id x (ground arith) (ground arith);
  }
  Step-Heard {s} (cancels k a at) inv new v = cancel-Heard s k a inv (parked_of (s.calls k) a at) v
  Step-Heard {s} (reads (some (ok e)) at) inv new v = record {
    in_hand = λ k x h. let same : e ≡ x = ground arith in subst P same (new e refl);
    in_cell = λ j id x h p. v.in_cell j id x (ground arith) (ground arith);
  }
  Step-Heard {s} (reads (some (err _)) at) inv new v = record {
    in_hand = λ k x h. cc;
    in_cell = v.in_cell;
  }
  Step-Heard {s} (reads none at) inv new v = record { in_hand = λ k x h. cc; in_cell = v.in_cell }
  Step-Heard {s} (fires k e at) inv new v = fire-Heard s k e inv at v
  Step-Heard {s} (reader_stops at _) inv new v = record {
    in_hand = λ k x h. cc;
    in_cell = v.in_cell;
  }
  Step-Heard {s} (reader_cancels_token at) inv new v = record {
    in_hand = λ k x h. cc;
    in_cell = v.in_cell;
  }
  Step-Heard {s} (drains at) inv new v = drain-Heard s inv v
  Step-Heard {s} (writes e c (ok _) on taken) inv new v = record {
    in_hand = v.in_hand;
    in_cell = v.in_cell;
  }
  Step-Heard {s} (writes e c (err _) on taken) inv new v = record {
    in_hand = v.in_hand;
    in_cell = v.in_cell;
  }
  Step-Heard {s} (writer_hangs_up on last) inv new v = record {
    in_hand = v.in_hand;
    in_cell = v.in_cell;
  }
  Step-Heard {s} (writer_stops on seen) inv new v = record {
    in_hand = v.in_hand;
    in_cell = v.in_cell;
  }
  Step-Heard {s} (writer_cancels_token on) inv new v = record {
    in_hand = v.in_hand;
    in_cell = v.in_cell;
  }
  Step-Heard {s} (writer_ends on) inv new v = record { in_hand = v.in_hand; in_cell = v.in_cell }
  Step-Heard {s} (drops_client open_ free) inv new v = record {
    in_hand = v.in_hand;
    in_cell = v.in_cell;
  }
