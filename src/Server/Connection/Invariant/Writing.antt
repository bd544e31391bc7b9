-- ===== src/Server/Connection/Invariant/Writing.antt =====
-- The writer, and the end of a connection, keep the invariant.
use patina_rpc.Base.{
  ℕ, ◌+◌, ◌≡◌, refl, ap, ◌∙◌, sym, [], ◌∷◌, Assoc, Result, ok, err, String, length, arith, nat_eq,
}
use patina_rpc.Envelope.{Envelope}
use patina_rpc.Error.{WireError}
use patina_rpc.Runtime.{Mpsc, got, ended}
use patina_rpc.Server.{Handler}
use patina_rpc.Server.Connection.{
  Phase, reading, joining, finished, aborted, running, Connection, write, writer_ends, without_loop,
  drop_future, abort_writer,
}
use patina_rpc.Server.Connection.Tally.{replies_for, replies_for-append}
use patina_rpc.Server.Connection.Invariant.Defs.{Inv, loop_senders, is_clean, nobody_left}

module _ {W C : Type 0} (mpsc : Mpsc C Envelope) (handlers : Assoc String (Handler W)) where
  pub write-Inv :
      (s : Connection W C) (e : Envelope) (c : C) (r : Result (Unit {0}) WireError)
      → s.writer ≡ running
      → mpsc.recv s.channel ≡ got e c
      → Inv mpsc s
      → Inv mpsc (write mpsc handlers e c r s)
  unfolding write
  write-Inv s e c (ok _) on taken v =
      let (q, n, r, k) = mpsc.recv_got e s.channel c taken in
      record {
        balance = λ i.
            omega (arith, v.balance i, ap (replies_for i) q, replies_for-append i s.wire (e ∷ []));
        counted = n ∙ v.counted;
        bounded = omega (arith, v.bounded, ap length q);
        capacity = k ∙ v.capacity;
        alive = r ∙ v.alive;
        quiet = λ h. absurd (h on);
        at_end = v.at_end;
        clean = v.clean;
        joined = v.joined;
      }
  write-Inv s e c (err _) on taken v =
      let (q, n, r, k) = mpsc.recv_got e s.channel c taken in
      let (q', n', r', k') = mpsc.drop_rx_lem c in
      record {
        balance = λ i. omega (
          arith,
          v.balance i,
          ap (replies_for i) q,
          ap (replies_for i) q',
          replies_for-append i (mpsc.queue c) s.lost,
        );
        counted = n' ∙ n ∙ v.counted;
        bounded = rw q' (omega arith);
        capacity = k' ∙ k ∙ v.capacity;
        alive = r';
        quiet = λ h. q';
        at_end = λ h. cc;
        clean = λ h. cc;
        joined = λ h. absurd (v.joined h on);
      }

  without_loop-counted :
      (p : Phase) (c : C) (n : ℕ)
      → mpsc.senders c ≡ loop_senders p + n
      → mpsc.senders (without_loop mpsc handlers p c) ≡ n
  without_loop-counted reading c n h = omega (arith, (mpsc.drop_tx_lem c).1)
  without_loop-counted joining c n h = omega arith
  without_loop-counted finished c n h = omega arith
  without_loop-counted aborted c n h = omega arith

  -- All but the senders.
  pub without_loop_lem :
      (p : Phase) (c : C)
      → let d = without_loop mpsc handlers p c in
        (mpsc.queue d ≡ mpsc.queue c)
        × (mpsc.has_receiver d ≡ mpsc.has_receiver c)
        × (mpsc.capacity d ≡ mpsc.capacity c)
  without_loop_lem reading c = let (q, n, r, k) = mpsc.drop_tx_lem c in (q, r, k)
  without_loop_lem joining c = (refl, refl, refl)
  without_loop_lem finished c = (refl, refl, refl)
  without_loop_lem aborted c = (refl, refl, refl)

  pub writer_ends-Inv :
      (s : Connection W C)
      → s.writer ≡ running
      → mpsc.recv s.channel ≡ ended
      → Inv mpsc s
      → Inv mpsc (writer_ends mpsc handlers s)
  unfolding writer_ends
  writer_ends-Inv s on none_left v =
      let (q, n) = mpsc.recv_ended s.channel none_left in
      let (q', n', r', k') = mpsc.drop_rx_lem s.channel in
      record {
        balance = λ i. omega (arith, v.balance i, ap (replies_for i) q, ap (replies_for i) q');
        counted = n' ∙ v.counted;
        bounded = rw q' (omega arith);
        capacity = k' ∙ v.capacity;
        alive = r';
        quiet = λ h. q';
        at_end = λ h. nobody_left s.phase s.workers (sym v.counted ∙ n);
        clean = λ h. v.clean (ap is_clean on);
        joined = λ h. absurd (v.joined h on);
      }

  pub drop_future-Inv : (s : Connection W C) → Inv mpsc s → Inv mpsc (drop_future mpsc handlers s)
  unfolding drop_future
  drop_future-Inv s v =
      let (q, r, k) = without_loop_lem s.phase s.channel in
      record {
        balance = λ i. omega (arith, v.balance i, ap (replies_for i) q);
        counted = without_loop-counted s.phase s.channel (length s.workers) v.counted ∙ omega arith;
        bounded = rw q v.bounded;
        capacity = k ∙ v.capacity;
        alive = r ∙ v.alive;
        quiet = λ h. q ∙ v.quiet h;
        at_end = λ h. (λ p. cc, (v.at_end h).1);
        clean = v.clean;
        joined = λ h. cc;
      }

  pub abort_writer-Inv :
      (s : Connection W C)
      → s.phase ≡ aborted
      → Inv mpsc s
      → Inv mpsc (abort_writer mpsc handlers s)
  unfolding abort_writer
  abort_writer-Inv s p v =
      let (q, n, r, k) = mpsc.drop_rx_lem s.channel in
      record {
        balance = λ i. omega (
          arith,
          v.balance i,
          ap (replies_for i) q,
          replies_for-append i (mpsc.queue s.channel) s.lost,
        );
        counted = n ∙ v.counted;
        bounded = rw q (omega arith);
        capacity = k ∙ v.capacity;
        alive = r;
        quiet = λ h. q;
        at_end = λ h. cc;
        clean = λ h. cc;
        joined = λ h. absurd (cc (h, p));
      }
