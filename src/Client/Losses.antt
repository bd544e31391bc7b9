-- ===== src/Client/Losses.antt =====
-- When a call returns `Closed` (crates/patina-rpc/src/client.rs).
use patina_rpc.Base.{
  ℕ, ◌^◌, ◌<◌, ◌≡◌, ◌≢◌, inl, inr, sym, ap, ◌∙◌, true, false, none, some, ok, err, ◌==◌, nat_eq,
  arith, Bool-cases,
}
use patina_rpc.Envelope.{Envelope, request, response, error, heartbeat}
use patina_rpc.Error.{closed}
use patina_rpc.Runtime.{Oneshot, Mpsc, CancellationToken, Polled, recv_error}
use patina_rpc.Client.Pending
use patina_rpc.Client.{
  numbered, awaiting, returned, firing, Args, Client, id_of, outcome, is_closed, from_stream, enter,
  fetch_add, park, request_of, submit, finish, cancel, read, fire, reader_cancels, drain, write,
  writer_cancels, writer_returns, drop_client, Step, enters, numbers, parks, submits, finishes,
  cancels, reads, fires, reader_stops, reader_cancels_token, drains, writes, writer_hangs_up,
  writer_stops, writer_cancels_token, writer_ends, drops_client, Reach, start, next,
  client_writer_channel_capacity,
}
use patina_rpc.Client.Closing.{Sent-cases, Reach-Guarded}
use patina_rpc.Client.Hearing.{spared}
use patina_rpc.Client.Invariant.{ClientInv, Reach-Inv, issued_mono, parked_id, nobody_parked}
use patina_rpc.Client.Routing.{Polled-cases, finish_received, received-id}
use patina_rpc.Client.Teardown.{parked_of}

outcome-ne-closed : (e : Envelope) (id : ℕ) → id_of e ≡ some id → outcome e ≢ err closed
unfolding id_of outcome
outcome-ne-closed (request _) id h q = cc
outcome-ne-closed (response _) id h q = cc
outcome-ne-closed (error _) id h q = cc
outcome-ne-closed heartbeat id h q = cc

module _ {O C T : Type 0} (oneshot : Oneshot O Envelope) (mpsc : Mpsc C Envelope)
    (tokens : CancellationToken T) (args : ℕ → Args) where
  abbrev Off : Client O C T → Type 0
  Off s = tokens.is_cancelled s.token ≡ true

  -- Whatever makes a call return `Closed` happens after the token was cancelled.
  record Losses (s : Client O C T) : Type 0 where
    cut :
        (k id : ℕ) → parked_id (s.calls k) ≡ some id → oneshot.poll (s.cells k) ≡ recv_error → Off s
    told : (k : ℕ) → s.calls k ≡ returned (err closed) → Off s
    deaf : mpsc.has_receiver s.outbound ≡ false → Off s

  off-Losses : (s : Client O C T) → Off s → Losses s
  off-Losses s off = record { cut = λ k id h p. off; told = λ k h. off; deaf = λ h. off }

  finish-Losses :
      (s : Client O C T) (k a : ℕ)
      → ((e : Envelope) → oneshot.poll (s.cells k) ≡ Polled.received e → id_of e ≡ some a)
      → s.calls k ≡ awaiting a
      → Losses s
      → Losses (finish oneshot mpsc tokens args k a s)
  unfolding finish
  finish-Losses s k a own at v = elim (Polled-cases (oneshot.poll (s.cells k))) [
    | inl wait ↦ rw (wait, finish) v
    | inr (inl (e, got_it)) ↦
        let ne = outcome-ne-closed e a (own e got_it) in
        rw (finish_received oneshot mpsc tokens args k a e s got_it) (record {
          cut = λ j id h p. v.cut j id (ground arith) p;
          told = λ j h. elim (Bool-cases (k == j)) [
            | inl hit ↦ absurd (ne (ground arith))
            | inr miss ↦ v.told j (ground arith)
          ];
          deaf = v.deaf;
        })
    | inr (inr lost) ↦
        off-Losses (finish oneshot mpsc tokens args k a s)
          (rw (lost, finish) (v.cut k a (ap parked_id at) lost))
  ]

  park-Losses :
      (s : Client O C T) (k a : ℕ)
      → ClientInv oneshot s
      → s.calls k ≡ numbered a
      → Losses s
      → Losses (park oneshot mpsc tokens args k a s)
  unfolding park
  park-Losses s k a inv at v =
      rw (nobody_parked oneshot inv k a at, park)
        (record {
          cut = λ j id h p. elim (Bool-cases (k == j)) [
            | inl own ↦ absurd (ground (arith, oneshot.poll-channel))
            | inr other ↦ v.cut j id (ground arith) (ground arith)
          ];
          told = λ j h. v.told j (ground arith);
          deaf = v.deaf;
        })

  cancel-Losses :
      (s : Client O C T) (k a : ℕ)
      → ClientInv oneshot s
      → parked_id (s.calls k) ≡ some a
      → Losses s
      → Losses (cancel oneshot mpsc tokens args k a s)
  unfolding cancel Pending.remove
  cancel-Losses s k a inv at v = record {
    cut = λ j id h p. elim (Bool-cases (k == j)) [
      | inl own ↦ absurd (ground arith)
      | inr other ↦ v.cut j id (ground arith) (
          sym (spared oneshot mpsc tokens args (λ e. Unit {0}) s k a j inv at (ground arith))
          ∙ ground arith)
    ];
    told = λ j h. v.told j (ground arith);
    deaf = v.deaf;
  }

  fire-Losses :
      (s : Client O C T) (k : ℕ) (e : Envelope)
      → ClientInv oneshot s
      → s.reader ≡ firing k e
      → Losses s
      → Losses (fire oneshot mpsc tokens args k e s)
  unfolding fire
  fire-Losses s k e inv at v = record {
    cut = λ j id h p. elim (Bool-cases (k == j)) [
      | inl own ↦
          let empty = (inv.aimed k id e at (ground arith)).1 in
          absurd (ground (arith, empty, oneshot.poll-send e))
      | inr other ↦ v.cut j id h (ground arith)
    ];
    told = v.told;
    deaf = v.deaf;
  }

  Step-Losses :
      {s t : Client O C T}
      → Step oneshot mpsc tokens args s t
      → Reach oneshot mpsc tokens args s
      → s.issued < 2 ^ 64
      → Losses s
      → Losses t
  unfolding enter fetch_add submit read reader_cancels drain write writer_cancels writer_returns
      drop_client Pending.remove
  Step-Losses {s} (enters k _ at) r fits v = elim (Bool-cases (tokens.is_cancelled s.token)) [
    | inl late ↦ off-Losses (enter oneshot mpsc tokens args k s) late
    | inr early ↦
        rw (early, enter)
          (record {
            cut = λ j id h p. v.cut j id (ground arith) p;
            told = λ j h. v.told j (ground arith);
            deaf = v.deaf;
          })
  ]
  Step-Losses {s} (numbers k at) r fits v = record {
    cut = λ j id h p. v.cut j id (ground arith) p;
    told = λ j h. v.told j (ground arith);
    deaf = v.deaf;
  }
  Step-Losses {s} (parks k a at) r fits v =
      park-Losses s k a (Reach-Inv oneshot mpsc tokens args r fits) at v
  Step-Losses {s} (submits k a at) r fits v =
      elim (Sent-cases (mpsc.send (request_of oneshot mpsc tokens args k a) s.outbound)) [
        | inl (c, e) ↦
            rw (e, submit)
              (record {
                cut = λ j id h p. v.cut j id (ground (arith, at)) p;
                told = λ j h. v.told j (ground arith);
                deaf = λ h. absurd (cc (h, (mpsc.send_lem _ s.outbound c e).3));
              })
        | inr (inl e) ↦ rw (e, submit) v
        | inr (inr e) ↦
            off-Losses (submit oneshot mpsc tokens args k a s)
              (rw (e, submit) (v.deaf (mpsc.send_refused _ s.outbound e)))
      ]
  Step-Losses {s} (finishes k a at) r fits v =
      finish-Losses s k a (λ e q. received-id oneshot mpsc tokens args r fits k a e at q) at v
  Step-Losses {s} (cancels k a at) r fits v =
      cancel-Losses s k a (Reach-Inv oneshot mpsc tokens args r fits) (parked_of (s.calls k) a at) v
  Step-Losses {s} (reads (some (ok e)) at) r fits v = record {
    cut = λ j id h p. ground (arith, v.cut j id (ground arith) (ground arith));
    told = λ j h. ground (arith, v.told j (ground arith));
    deaf = λ h. ground (arith, v.deaf (ground arith));
  }
  Step-Losses {s} (reads (some (err _)) at) r fits v = record {
    cut = v.cut;
    told = v.told;
    deaf = v.deaf;
  }
  Step-Losses {s} (reads none at) r fits v = record { cut = v.cut; told = v.told; deaf = v.deaf }
  Step-Losses {s} (fires k e at) r fits v =
      fire-Losses s k e (Reach-Inv oneshot mpsc tokens args r fits) at v
  Step-Losses {s} (reader_stops at _) r fits v = record {
    cut = v.cut;
    told = v.told;
    deaf = v.deaf;
  }
  Step-Losses {s} (reader_cancels_token at) r fits v =
      off-Losses (reader_cancels oneshot mpsc tokens args s) (tokens.is_cancelled-cancel s.token)
  Step-Losses {s} (drains at) r fits v =
      off-Losses (drain oneshot mpsc tokens args s)
        ((Reach-Guarded oneshot mpsc tokens args r).0 at)
  Step-Losses {s} (writes e c (ok _) on taken) r fits v = record {
    cut = v.cut;
    told = v.told;
    deaf = λ h. v.deaf (sym (mpsc.recv_got e s.outbound c taken).2 ∙ h);
  }
  Step-Losses {s} (writes e c (err _) on taken) r fits v = record {
    cut = v.cut;
    told = v.told;
    deaf = λ h. v.deaf (sym (mpsc.recv_got e s.outbound c taken).2 ∙ h);
  }
  Step-Losses {s} (writer_hangs_up on last) r fits v = record {
    cut = v.cut;
    told = v.told;
    deaf = v.deaf;
  }
  Step-Losses {s} (writer_stops on seen) r fits v = record {
    cut = v.cut;
    told = v.told;
    deaf = v.deaf;
  }
  Step-Losses {s} (writer_cancels_token on) r fits v =
      off-Losses (writer_cancels oneshot mpsc tokens args s) (tokens.is_cancelled-cancel s.token)
  Step-Losses {s} (writer_ends on) r fits v =
      off-Losses (writer_returns oneshot mpsc tokens args s)
        ((Reach-Guarded oneshot mpsc tokens args r).2 on)
  Step-Losses {s} (drops_client open_ free) r fits v = record {
    cut = v.cut;
    told = v.told;
    deaf = λ h. v.deaf (sym (mpsc.drop_tx_lem s.outbound).2 ∙ h);
  }

  Reach-Losses :
      {s : Client O C T} → Reach oneshot mpsc tokens args s → s.issued < 2 ^ 64 → Losses s
  unfolding from_stream
  Reach-Losses start fits = record {
    cut = λ k id h p. absurd (cc);
    told = λ k h. absurd (cc);
    deaf = λ h. absurd (cc (h, (mpsc.channel_lem client_writer_channel_capacity).2));
  }
  Reach-Losses (next {s = before} r st) fits =
      let small : before.issued < 2 ^ 64 = omega (arith, issued_mono oneshot mpsc tokens args st) in
      Step-Losses st r small (Reach-Losses r small)

  -- In a reachable state, while fewer than 2 ^ 64 ids were handed out, a call has returned `Closed`
  -- only if the client is closed.
  pub is_closed_of_closed :
      {s : Client O C T}
      → Reach oneshot mpsc tokens args s
      → s.issued < 2 ^ 64
      → (k : ℕ) → s.calls k ≡ returned (err closed)
      → is_closed oneshot mpsc tokens args s ≡ true
  unfolding is_closed
  is_closed_of_closed r fits k h = (Reach-Losses r fits).told k h
