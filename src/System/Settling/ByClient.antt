-- ===== src/System/Settling/ByClient.antt =====
-- What the moves of a client's reader and writer leave (crates/patina-rpc/src/client.rs).
use patina_rpc.Base.{
  ℕ, ◌≤◌, ◌≡◌, refl, sym, ap, ◌∙◌, List, [], ◌∷◌, ◌++◌, Assoc, none, some, ok, err, String, length,
  length-append, arith, nat_eq, inl, inr, subst, lookup, Option-cases,
}
use patina_rpc.Envelope.{Envelope}
use patina_rpc.Runtime.{Oneshot, Mpsc, CancellationToken}
use patina_rpc.Server.{Handler}
use patina_rpc.Client
use patina_rpc.Client.{Args, Client, read, fire, write, reads, fires, writes, id_of}
use patina_rpc.Client.Hearing.{heard}
use patina_rpc.System.{System, Takes, client_said}
use patina_rpc.System.Settling.Moves.{
  reader_moves, IsListening, IsHealthy, IsClientMove, moves_left, Lowers,
}

module _ {O C T W D : Type 0} (oneshot : Oneshot O Envelope) (mpsc : Mpsc C Envelope)
    (tokens : CancellationToken T) (args : ℕ → Args) (channels : Mpsc D Envelope)
    (handlers : Assoc String (Handler W)) where
  -- What a round of the reader leaves: it goes on, or has a sender in hand.
  read_keeps :
      (s : Client O C T) (e : Envelope)
      → s.reader ≡ Client.reading
      → let t = read oneshot mpsc tokens args (some (ok e)) s in
        (reader_moves t.reader ≤ 1)
        × IsListening t.reader
        × (t.writer ≡ s.writer)
        × (t.outbound ≡ s.outbound)
        × (t.issued ≡ s.issued)
  unfolding read
  read_keeps s e at = elim (Option-cases (id_of e)) [
    | inl nobody ↦
        rw (nobody, read) (ground (arith, at), subst IsListening (sym at) tt, refl, refl, refl)
    | inr (id, own) ↦ elim (Option-cases (lookup id s.pending.inner)) [
      | inl missing ↦ rw (own, read) (rw (missing, read) (omega arith, tt, refl, refl, refl))
      | inr (k, found) ↦ rw (own, read) (rw (found, read) (omega arith, tt, refl, refl, refl))
    ]
  ]

  pub client-Lowers :
      {y : System O C T W D} {t : Client O C T}
      (st : Client.Step oneshot mpsc tokens args y.client t) (rest : List Envelope)
      (h : Takes (heard oneshot mpsc tokens args st) y.to_client rest)
      → IsClientMove oneshot mpsc tokens args channels handlers st
      → IsHealthy oneshot mpsc tokens args channels handlers y
      → Lowers oneshot mpsc tokens args channels handlers y (record y {
        client = t;
        to_server = y.to_server ++ client_said oneshot mpsc tokens args channels handlers st;
        to_client = rest;
      })
  unfolding moves_left fire write
  client-Lowers {y} (reads (some (ok e)) at) rest h own v =
      let (few, on, same_writer, same_outbound, same_issued) = read_keeps y.client e at in
      (
        omega (
          arith,
          ap length h,
          few,
          ap (λ c. length (mpsc.queue c)) same_outbound,
          length-append y.to_server [],
        ),
        record {
          listening = on;
          sending_on = same_writer ∙ v.sending_on;
          accepting = v.accepting;
          replying_on = v.replying_on;
        },
        same_issued,
      )
  client-Lowers {y} (fires k e at) rest h own v = (
    omega (arith, ap length h, ap reader_moves at, length-append y.to_server []),
    record {
      listening = tt;
      sending_on = v.sending_on;
      accepting = v.accepting;
      replying_on = v.replying_on;
    },
    refl,
  )
  client-Lowers {y} (writes e c (ok _) on taken) rest h own v = (
    omega (
      arith,
      ap length h,
      ap length (mpsc.recv_got e y.client.outbound c taken).0,
      length-append y.to_server (e ∷ []),
    ),
    record {
      listening = v.listening;
      sending_on = v.sending_on;
      accepting = v.accepting;
      replying_on = v.replying_on;
    },
    refl,
  )
  client-Lowers (Client.enters _ _ _) rest h own v = elim own [ ]
  client-Lowers (Client.numbers _ _) rest h own v = elim own [ ]
  client-Lowers (Client.parks _ _ _) rest h own v = elim own [ ]
  client-Lowers (Client.submits _ _ _) rest h own v = elim own [ ]
  client-Lowers (Client.finishes _ _ _) rest h own v = elim own [ ]
  client-Lowers (Client.cancels _ _ _) rest h own v = elim own [ ]
  client-Lowers (reads (some (err _)) _) rest h own v = elim own [ ]
  client-Lowers (reads none _) rest h own v = elim own [ ]
  client-Lowers (Client.reader_stops _ _) rest h own v = elim own [ ]
  client-Lowers (Client.reader_cancels_token _) rest h own v = elim own [ ]
  client-Lowers (Client.drains _) rest h own v = elim own [ ]
  client-Lowers (writes _ _ (err _) _ _) rest h own v = elim own [ ]
  client-Lowers (Client.writer_hangs_up _ _) rest h own v = elim own [ ]
  client-Lowers (Client.writer_stops _ _) rest h own v = elim own [ ]
  client-Lowers (Client.writer_cancels_token _) rest h own v = elim own [ ]
  client-Lowers (Client.writer_ends _) rest h own v = elim own [ ]
  client-Lowers (Client.drops_client _ _) rest h own v = elim own [ ]
