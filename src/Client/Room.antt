-- ===== src/Client/Room.antt =====
-- While a client's writer runs, its channel takes a request as soon as it is empty (`call` and
-- `writer_loop` of crates/patina-rpc/src/client.rs).
use patina_rpc.Base.{
  ◌≡◌, ◌≢◌, inl, inr, refl, ap, sym, ◌∙◌, ℕ, ◌≤◌, [], ◌∷◌, true, false, none, some, ok, err, length,
  length-append, nat_eq, arith,
}
use patina_rpc.Envelope.{Envelope}
use patina_rpc.Runtime.{Oneshot, Mpsc, CancellationToken, sent}
use patina_rpc.Client.{
  writing, done, Args, Client, from_stream, enter, fetch_add, park, request_of, submit, finish,
  cancel, read, fire, reader_cancels, drain, write, writer_cancels, writer_returns, drop_client,
  Step, enters, numbers, parks, submits, finishes, cancels, reads, fires, reader_stops,
  reader_cancels_token, drains, writes, writer_hangs_up, writer_stops, writer_cancels_token,
  writer_ends, drops_client, Reach, start, next, client_writer_channel_capacity,
}
use patina_rpc.Client.Closing.{Sent-cases}

module _ {O C T : Type 0} (oneshot : Oneshot O Envelope) (mpsc : Mpsc C Envelope)
    (tokens : CancellationToken T) (args : ℕ → Args) where
  pub record HasRoom (s : Client O C T) : Type 0 where
    pub open_ : s.writer ≢ done → mpsc.has_receiver s.outbound ≡ true
    pub shut : s.writer ≡ done → mpsc.has_receiver s.outbound ≡ false
    pub sized : mpsc.capacity s.outbound ≡ client_writer_channel_capacity
    pub bounded : length (mpsc.queue s.outbound) ≤ client_writer_channel_capacity

  sent-HasRoom :
      (s : Client O C T) (k a : ℕ) (c : C)
      → mpsc.send (request_of oneshot mpsc tokens args k a) s.outbound ≡ sent c
      → HasRoom s
      → HasRoom (submit oneshot mpsc tokens args k a s)
  unfolding submit
  sent-HasRoom s k a c e v =
      let sent_it = mpsc.send_lem _ s.outbound c e in
      rw (e, submit)
        (record {
          open_ = λ _. sent_it.3;
          shut = λ q. absurd (cc (sent_it.2, v.shut q));
          sized = sent_it.4 ∙ v.sized;
          bounded = omega (
            arith,
            ap length sent_it.0,
            length-append (mpsc.queue s.outbound) (request_of oneshot mpsc tokens args k a ∷ []),
            sent_it.5,
            v.sized,
          );
        })

  -- A step that leaves the channel and the writer alone.
  same-HasRoom :
      (s t : Client O C T) → t.outbound ≡ s.outbound → t.writer ≡ s.writer → HasRoom s → HasRoom t
  same-HasRoom s t o w v = record {
    open_ = λ h. ap mpsc.has_receiver o ∙ v.open_ (λ q. h (w ∙ q));
    shut = λ q. ap mpsc.has_receiver o ∙ v.shut (sym w ∙ q);
    sized = ap mpsc.capacity o ∙ v.sized;
    bounded = omega (arith, ap (λ c. length (mpsc.queue c)) o, v.bounded);
  }

  Step-HasRoom : {s t : Client O C T} → Step oneshot mpsc tokens args s t → HasRoom s → HasRoom t
  unfolding enter fetch_add park submit finish cancel read fire reader_cancels drain write
      writer_cancels writer_returns drop_client
  Step-HasRoom {s} {t} (enters k _ at) v = same-HasRoom s t refl refl v
  Step-HasRoom {s} {t} (numbers k at) v = same-HasRoom s t refl refl v
  Step-HasRoom {s} {t} (parks k a at) v = same-HasRoom s t refl refl v
  Step-HasRoom {s} {t} (submits k a at) v =
      elim (Sent-cases (mpsc.send (request_of oneshot mpsc tokens args k a) s.outbound)) [
        | inl (c, e) ↦ sent-HasRoom s k a c e v
        | inr (inl e) ↦ rw (e, submit) v
        | inr (inr e) ↦ rw (e, submit) (same-HasRoom s _ refl refl v)
      ]
  Step-HasRoom {s} (finishes k a at) v =
      same-HasRoom s (finish oneshot mpsc tokens args k a s) (ground arith) (ground arith) v
  Step-HasRoom {s} {t} (cancels k a at) v = same-HasRoom s t refl refl v
  Step-HasRoom {s} (reads (some (ok e)) at) v =
      same-HasRoom s (read oneshot mpsc tokens args (some (ok e)) s) (ground arith) (ground arith) v
  Step-HasRoom {s} {t} (reads (some (err _)) at) v = same-HasRoom s t refl refl v
  Step-HasRoom {s} {t} (reads none at) v = same-HasRoom s t refl refl v
  Step-HasRoom {s} {t} (fires j e at) v = same-HasRoom s t refl refl v
  Step-HasRoom {s} {t} (reader_stops at _) v = same-HasRoom s t refl refl v
  Step-HasRoom {s} {t} (reader_cancels_token at) v = same-HasRoom s t refl refl v
  Step-HasRoom {s} {t} (drains at) v = same-HasRoom s t refl refl v
  Step-HasRoom {s} (writes e c (ok _) on taken) v =
      let (front, _, same, sized) = mpsc.recv_got e s.outbound c taken in
      record {
        open_ = λ h. same ∙ v.open_ h;
        shut = λ q. same ∙ v.shut q;
        sized = sized ∙ v.sized;
        bounded = omega (arith, ap length front, v.bounded);
      }
  Step-HasRoom {s} (writes e c (err _) on taken) v =
      let (front, _, same, sized) = mpsc.recv_got e s.outbound c taken in
      record {
        open_ = λ h. same ∙ v.open_ (λ q. cc);
        shut = λ q. absurd (cc);
        sized = sized ∙ v.sized;
        bounded = omega (arith, ap length front, v.bounded);
      }
  Step-HasRoom {s} (writer_hangs_up on last) v = record {
    open_ = λ h. v.open_ (λ q. cc);
    shut = λ q. absurd (cc);
    sized = v.sized;
    bounded = v.bounded;
  }
  Step-HasRoom {s} (writer_stops on seen) v = record {
    open_ = λ h. v.open_ (λ q. cc);
    shut = λ q. absurd (cc);
    sized = v.sized;
    bounded = v.bounded;
  }
  Step-HasRoom {s} (writer_cancels_token on) v = record {
    open_ = λ h. v.open_ (λ q. cc);
    shut = λ q. absurd (cc);
    sized = v.sized;
    bounded = v.bounded;
  }
  Step-HasRoom {s} (writer_ends on) v = record {
    open_ = λ h. absurd (h refl);
    shut = λ _. (mpsc.drop_rx_lem s.outbound).2;
    sized = (mpsc.drop_rx_lem s.outbound).3 ∙ v.sized;
    bounded = omega (arith, ap length (mpsc.drop_rx_lem s.outbound).0);
  }
  Step-HasRoom {s} (drops_client _ free) v =
      let (front, _, same, sized) = mpsc.drop_tx_lem s.outbound in
      record {
        open_ = λ h. same ∙ v.open_ h;
        shut = λ q. same ∙ v.shut q;
        sized = sized ∙ v.sized;
        bounded = omega (arith, ap length front, v.bounded);
      }

  pub Reach-HasRoom : {s : Client O C T} → Reach oneshot mpsc tokens args s → HasRoom s
  unfolding from_stream
  Reach-HasRoom start =
      let (empty, _, on, sized) = mpsc.channel_lem client_writer_channel_capacity in
      record {
        open_ = λ _. on;
        shut = λ q. absurd (cc);
        sized = sized;
        bounded = omega (arith, ap length empty);
      }
  Reach-HasRoom (next r st) = Step-HasRoom st (Reach-HasRoom r)

  pub empty_takes :
      {s : Client O C T}
      → Reach oneshot mpsc tokens args s
      → s.writer ≡ writing
      → mpsc.queue s.outbound ≡ []
      → (e : Envelope) → (c : C) × (mpsc.send e s.outbound ≡ sent c)
  empty_takes {s} r on none_queued e =
      let v = Reach-HasRoom r in
      mpsc.send_room e s.outbound (v.open_ (λ q. cc (on, q)))
        (omega (arith, ap length none_queued, v.sized))
