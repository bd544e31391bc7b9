-- ===== src/Server/Connection/Invariant/Tasks.antt =====
-- The dispatcher loop and the workers keep the invariant.
use patina_rpc.Base.{
  ◌≡◌, ◌≢◌, refl, ap, ◌∙◌, sym, List, [], ◌∷◌, ◌++◌, Assoc, true, false, Option, none, some, Result,
  ok, err, String, length, length-append, arith, nat_eq,
}
use patina_rpc.Envelope.{Envelope, RequestData, request, response, error, heartbeat}
use patina_rpc.Error.{WireError}
use patina_rpc.Runtime.{Mpsc, sent, refused}
use patina_rpc.Server.{Handler, dispatch, writer_channel_capacity}
use patina_rpc.Server.Registry.{dispatch_cases}
use patina_rpc.Server.Connection.{
  reading, running, drained, Worker, working, replying, Connection, init, leave_loop, on_frame,
  run_handler, reply_sent, reply_dropped,
}
use patina_rpc.Server.Connection.Tally.{
  is_for, replies_for, workers_for, replies_for-append, workers_for-append,
}
use patina_rpc.Server.Connection.Invariant.Defs.{
  Inv, loop_senders, is_running, is_clean, drained_of,
}

module _ {W C : Type 0} (mpsc : Mpsc C Envelope) (handlers : Assoc String (Handler W)) where
  pub init-Inv : (w : W) → Inv mpsc (init mpsc handlers w)
  unfolding init
  init-Inv w =
      let (q, n, r, c) = mpsc.channel_lem writer_channel_capacity in
      record {
        balance = λ i. ground (arith, q);
        counted = ground (arith, n);
        bounded = ground (arith, q);
        capacity = c;
        alive = r;
        quiet = λ h. q;
        at_end = λ h. cc;
        clean = λ h. refl;
        joined = λ h. cc;
      }

  -- The invariant of a state with another channel that holds the same messages.
  pub leave_loop-Inv :
      (s : Connection W C) → s.phase ≡ reading → Inv mpsc s → Inv mpsc (leave_loop mpsc handlers s)
  leave_loop-Inv s p v =
      let (q, n, r, c) = mpsc.drop_tx_lem s.channel in
      record {
        balance = λ i. omega (arith, v.balance i, ap (replies_for i) q);
        counted = omega (arith, n, v.counted, ap loop_senders p);
        bounded = rw q v.bounded;
        capacity = c ∙ v.capacity;
        alive = r ∙ v.alive;
        quiet = λ h. q ∙ v.quiet h;
        at_end = λ h. absurd ((v.at_end h).0 p);
        clean = v.clean;
        joined = λ h. cc;
      }

  pub on_frame-Inv :
      (f : Option (Result Envelope WireError)) (s : Connection W C)
      → s.phase ≡ reading
      → Inv mpsc s
      → Inv mpsc (on_frame mpsc handlers f s)
  unfolding on_frame
  on_frame-Inv (some (ok (request req))) s p v =
      let (q, n, r, c) = mpsc.clone_tx_lem s.channel in
      record {
        balance = λ i. omega (arith, v.balance i, ap (replies_for i) q);
        counted = omega (arith, n, v.counted);
        bounded = rw q v.bounded;
        capacity = rw c v.capacity;
        alive = rw r v.alive;
        quiet = λ h. rw q (v.quiet h);
        at_end = λ h. absurd ((v.at_end h).0 p);
        clean = v.clean;
        joined = v.joined;
      }
  on_frame-Inv (some (ok heartbeat)) s p v = v
  on_frame-Inv (some (ok (response _))) s p v = v
  on_frame-Inv (some (ok (error _))) s p v = v
  on_frame-Inv (some (err e)) s p v = leave_loop-Inv s p v
  on_frame-Inv none s p v = leave_loop-Inv s p v

  module _ (s : Connection W C) (v : Inv mpsc s) (front : List Worker) (back : List Worker) where
    pub run_handler-Inv :
        (req : RequestData)
        → s.workers ≡ front ++ (working req ∷ back)
        → Inv mpsc (run_handler mpsc handlers front req back s)
    unfolding run_handler
    run_handler-Inv req at =
        let reply = (dispatch handlers req s.world).0 in
        let same_id = (dispatch_cases handlers req s.world).0 in
        let n = ap length at in
        record {
          balance = λ i. omega (
            arith,
            v.balance i,
            ap (workers_for i) at,
            ap (is_for i) same_id,
            workers_for-append i front (working req ∷ back),
            workers_for-append i front (replying reply ∷ back),
          );
          counted = omega (
            arith,
            v.counted,
            n,
            length-append front (working req ∷ back),
            length-append front (replying reply ∷ back),
          );
          bounded = v.bounded;
          capacity = v.capacity;
          alive = v.alive;
          quiet = v.quiet;
          at_end = λ h. absurd (no_worker h n);
          clean = v.clean;
          joined = v.joined;
        }
      where
        no_worker :
            s.writer ≡ drained → length s.workers ≡ length (front ++ (working req ∷ back)) → ⊥
        no_worker h n =
            omega (arith, n, ap length (v.at_end h).1, length-append front (working req ∷ back))

    pub reply_sent-Inv :
        (reply : Envelope) (c : C)
        → s.workers ≡ front ++ (replying reply ∷ back)
        → mpsc.send reply s.channel ≡ sent c
        → Inv mpsc (reply_sent mpsc handlers front back c s)
    unfolding reply_sent
    reply_sent-Inv reply c at done =
        let (q, n, r, r', k, room) = mpsc.send_lem reply s.channel c done in
        let (q', n', _, k') = mpsc.drop_tx_lem c in
        record {
          balance = λ i. omega (
            arith,
            v.balance i,
            ap (workers_for i) at,
            ap (replies_for i) q,
            ap (replies_for i) q',
            workers_for-append i front (replying reply ∷ back),
            workers_for-append i front back,
            replies_for-append i (mpsc.queue s.channel) (reply ∷ []),
          );
          counted = omega (
            arith,
            v.counted,
            n,
            n',
            ap length at,
            length-append front (replying reply ∷ back),
            length-append front back,
          );
          bounded = omega (
            arith,
            room,
            v.capacity,
            ap length q,
            ap length q',
            length-append (mpsc.queue s.channel) (reply ∷ []),
          );
          capacity = k' ∙ k ∙ v.capacity;
          alive = (mpsc.drop_tx_lem c).2 ∙ r' ∙ sym r ∙ v.alive;
          quiet = λ h. absurd (still_running r h);
          at_end = λ h. cc (v.alive, r);
          clean = v.clean;
          joined = v.joined;
        }
      where
        still_running : mpsc.has_receiver s.channel ≡ true → s.writer ≢ running → ⊥
        still_running r h = ground (arith, v.alive)

    pub reply_dropped-Inv :
        (reply : Envelope)
        → s.workers ≡ front ++ (replying reply ∷ back)
        → mpsc.send reply s.channel ≡ refused
        → Inv mpsc (reply_dropped mpsc handlers front reply back s)
    unfolding reply_dropped
    reply_dropped-Inv reply at done =
        let (q, n, r, k) = mpsc.drop_tx_lem s.channel in
        let gone = sym v.alive ∙ mpsc.send_refused reply s.channel done in
        record {
          balance = λ i. omega (
            arith,
            v.balance i,
            ap (workers_for i) at,
            ap (replies_for i) q,
            workers_for-append i front (replying reply ∷ back),
            workers_for-append i front back,
          );
          counted = omega (
            arith,
            v.counted,
            n,
            ap length at,
            length-append front (replying reply ∷ back),
            length-append front back,
          );
          bounded = rw q v.bounded;
          capacity = k ∙ v.capacity;
          alive = r ∙ v.alive;
          quiet = λ h. q ∙ v.quiet h;
          at_end = λ h. absurd (no_worker h);
          clean = λ h. absurd (not_clean gone h);
          joined = v.joined;
        }
      where
        no_worker : s.writer ≡ drained → ⊥
        no_worker h = omega (
          arith,
          ap length at,
          ap length (v.at_end h).1,
          length-append front (replying reply ∷ back),
        )

        not_clean : is_running s.writer ≡ false → is_clean s.writer ≡ true → ⊥
        not_clean gone h = no_worker (drained_of s.writer gone h)
