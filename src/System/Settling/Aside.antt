-- ===== src/System/Settling/Aside.antt =====
-- What the calls of a client, and the rest of the server, may do between two moves of messages
-- (`call` of crates/patina-rpc/src/client.rs, the handlers' state of crates/patina-rpc/src/server.rs).
use patina_rpc.Base.{
  ℕ, suc, ◌+◌, ◌*◌, ◌^◌, ◌≤◌, ◌<◌, ◌≡◌, refl, sym, ap, subst, ◌∙◌, [], Assoc, none, String, length,
  length-append, arith, nat_eq,
}
use patina_rpc.Envelope.{Envelope}
use patina_rpc.Runtime.{Oneshot, Mpsc, CancellationToken}
use patina_rpc.Server.{Handler}
use patina_rpc.Client
use patina_rpc.Client.{Args, Client}
use patina_rpc.Client.Ending.Steps.{IsOfCall, call-raises}
use patina_rpc.Client.Hearing.{heard}
use patina_rpc.Server.Connection
use patina_rpc.Server.Connection.{Connection, elsewhere}
use patina_rpc.System.{System, Takes, client_said, Step, client_step, server_step, Reach, next}
use patina_rpc.System.Settling.Moves.{reader_moves, IsListening, IsHealthy, moves_left}

module _ {O C T W D : Type 0} (oneshot : Oneshot O Envelope) (mpsc : Mpsc C Envelope)
    (tokens : CancellationToken T) (args : ℕ → Args) (channels : Mpsc D Envelope)
    (handlers : Assoc String (Handler W)) where
  abbrev IsElsewhere : {s t : Connection W D} → Connection.Step channels handlers s t → Type 0
  IsElsewhere (elsewhere _) = Unit {0}
  IsElsewhere _ = ⊥

  -- A step of a call or of the owner of the client, or a change of the handlers' state.
  abbrev pub IsAside :
      {y z : System O C T W D} → Step oneshot mpsc tokens args channels handlers y z → Type 0
  IsAside (client_step st _ _) = IsOfCall oneshot mpsc tokens args st
  IsAside (server_step st _ _) = IsElsewhere st

  abbrev pub queued : System O C T W D → ℕ
  queued y = length (mpsc.queue y.client.outbound)

  -- From a budget of `m` to one of `n`: a step that puts a request in the client's channel or takes
  -- an id costs one, the others nothing.
  pub data Between (m : ℕ) (y : System O C T W D) : ℕ → System O C T W D → Type 0 where
    still : Between m y m y
    free :
        {n : ℕ} {z x : System O C T W D}
        → Between m y n z
        → (st : Step oneshot mpsc tokens args channels handlers z x) → IsAside st
        → queued x ≡ queued z
        → x.client.issued ≡ z.client.issued
        → Between m y n x
    paid :
        {n : ℕ} {z x : System O C T W D}
        → Between m y (suc n) z
        → (st : Step oneshot mpsc tokens args channels handlers z x) → IsAside st
        → Between m y n x

  -- The calls take nothing from the wires and put nothing on them.
  call_quiet :
      {s t : Client O C T} (st : Client.Step oneshot mpsc tokens args s t)
      → IsOfCall oneshot mpsc tokens args st
      → (heard oneshot mpsc tokens args st ≡ none)
        × (client_said oneshot mpsc tokens args channels handlers st ≡ [])
  call_quiet (Client.enters _ _ _) own = (refl, refl)
  call_quiet (Client.numbers _ _) own = (refl, refl)
  call_quiet (Client.parks _ _ _) own = (refl, refl)
  call_quiet (Client.submits _ _ _) own = (refl, refl)
  call_quiet (Client.finishes _ _ _) own = (refl, refl)
  call_quiet (Client.cancels _ _ _) own = (refl, refl)
  call_quiet (Client.drops_client _ _) own = (refl, refl)
  call_quiet (Client.reads _ _) own = elim own [ ]
  call_quiet (Client.fires _ _ _) own = elim own [ ]
  call_quiet (Client.reader_stops _ _) own = elim own [ ]
  call_quiet (Client.reader_cancels_token _) own = elim own [ ]
  call_quiet (Client.drains _) own = elim own [ ]
  call_quiet (Client.writes _ _ _ _ _) own = elim own [ ]
  call_quiet (Client.writer_hangs_up _ _) own = elim own [ ]
  call_quiet (Client.writer_stops _ _) own = elim own [ ]
  call_quiet (Client.writer_cancels_token _) own = elim own [ ]
  call_quiet (Client.writer_ends _) own = elim own [ ]

  -- What a step aside leaves: the loops run on, and one request more is queued at most.
  record Leaves (y z : System O C T W D) : Type 0 where
    healthy :
        IsHealthy oneshot mpsc tokens args channels handlers y
        → IsHealthy oneshot mpsc tokens args channels handlers z
    moves :
        moves_left oneshot mpsc tokens args channels handlers z + 8 * queued y
        ≡ moves_left oneshot mpsc tokens args channels handlers y + 8 * queued z
    one_more : queued z ≤ queued y + 1
    one_id : z.client.issued ≤ y.client.issued + 1

  aside-Leaves :
      {y z : System O C T W D} (st : Step oneshot mpsc tokens args channels handlers y z)
      → IsAside st
      → Leaves y z
  unfolding moves_left
  aside-Leaves {y} (client_step {t} st rest h) own =
      let (r, o, more, ids) = call-raises oneshot mpsc tokens args st own in
      let (deaf, mute) = call_quiet st own in
      let same : y.to_client ≡ rest = subst (λ o. Takes o y.to_client rest) deaf h in
      record {
        healthy = λ v. record {
          listening = subst IsListening (sym r) v.listening;
          sending_on = o ∙ v.sending_on;
          accepting = v.accepting;
          replying_on = v.replying_on;
        };
        moves = omega (
          arith,
          ap length same,
          ap length mute,
          ap reader_moves r,
          length-append y.to_server (client_said oneshot mpsc tokens args channels handlers st),
        );
        one_more = more;
        one_id = ids;
      }
  aside-Leaves {y} (server_step (elsewhere w) rest h) own = record {
    healthy = λ v. record {
      listening = v.listening;
      sending_on = v.sending_on;
      accepting = v.accepting;
      replying_on = v.replying_on;
    };
    moves = omega (arith, ap length h, length-append y.to_client []);
    one_more = omega arith;
    one_id = omega arith;
  }
  aside-Leaves (server_step (Connection.frame _ _) rest h) own = elim own [ ]
  aside-Leaves (server_step (Connection.run _ _ _ _) rest h) own = elim own [ ]
  aside-Leaves (server_step (Connection.send _ _ _ _ _ _) rest h) own = elim own [ ]
  aside-Leaves (server_step (Connection.send_fails _ _ _ _ _) rest h) own = elim own [ ]
  aside-Leaves (server_step (Connection.writes _ _ _ _ _) rest h) own = elim own [ ]
  aside-Leaves (server_step (Connection.write_ends _ _) rest h) own = elim own [ ]
  aside-Leaves (server_step (Connection.join _ _) rest h) own = elim own [ ]
  aside-Leaves (server_step (Connection.abort _ _) rest h) own = elim own [ ]
  aside-Leaves (server_step (Connection.writer_aborted _ _) rest h) own = elim own [ ]

  -- A reachable system with all loops running, and ids for a budget of `m`.
  pub record Runs (w : W) (m : ℕ) (y : System O C T W D) : Type 0 where
    pub reached : Reach oneshot mpsc tokens args channels handlers w y
    pub fits : y.client.issued + m < 2 ^ 64
    pub healthy : IsHealthy oneshot mpsc tokens args channels handlers y

  -- What is done between two moves costs what it adds.
  pub Between-Runs :
      {w : W} {m : ℕ} {y : System O C T W D} {n : ℕ} {z : System O C T W D}
      → Between m y n z
      → Runs w m y
      → Runs w n z
        × (moves_left oneshot mpsc tokens args channels handlers z + 8 * n
            ≤ moves_left oneshot mpsc tokens args channels handlers y + 8 * m)
  Between-Runs still v = (v, omega arith)
  Between-Runs (free b st own q i) v =
      let (u, le) = Between-Runs b v in
      let s = aside-Leaves st own in
      (
        record {
          reached = next u.reached st;
          fits = omega (arith, i, u.fits);
          healthy = s.healthy u.healthy;
        },
        omega (arith, le, s.moves, q),
      )
  Between-Runs (paid b st own) v =
      let (u, le) = Between-Runs b v in
      let s = aside-Leaves st own in
      (
        record {
          reached = next u.reached st;
          fits = omega (arith, s.one_id, u.fits);
          healthy = s.healthy u.healthy;
        },
        omega (arith, le, s.moves, s.one_more),
      )
