-- ===== src/Server/Connection/Answers.antt =====
-- What the replies of a connection are.
use patina_rpc.Base.{
  ◌≡◌, refl, List, [], ◌∷◌, ◌++◌, Assoc, none, some, ok, err, String, All, All-append,
  All_of_All-append, All-Mem, All_mono, subst, sym, ◌∙◌,
}
use mathlib.Core.List.{Memᴰ}
use mathlib.Core.List.Memᴰ.{head, tail}
use patina_rpc.Envelope.{Envelope, RequestData, request, response, error, heartbeat}
use patina_rpc.Runtime.{Mpsc}
use patina_rpc.Server.{Handler, dispatch, writer_channel_capacity}
use patina_rpc.Server.Connection.{
  Worker, working, replying, Connection, init, on_frame, run_handler, reply_sent, reply_dropped,
  write, writer_ends, drop_future, abort_writer, Step, frame, run, send, send_fails, writes,
  write_ends, join, abort, writer_aborted, elsewhere, Reach, start, next,
}
use patina_rpc.Server.Connection.Invariant.{without_loop_lem}

module _ {W C : Type 0} (mpsc : Mpsc C Envelope) (handlers : Assoc String (Handler W)) where
  -- What `dispatch` gives for one of the requests, in some state of the handlers.
  abbrev pub IsAnswer : List RequestData → Envelope → Type 0
  IsAnswer accepted e =
      (req : RequestData) × (w : W) × Memᴰ req accepted × (e ≡ (dispatch handlers req w).0)

  abbrev IsWorkerFor : List RequestData → Worker → Type 0
  IsWorkerFor accepted (working req) = Memᴰ req accepted
  IsWorkerFor accepted (replying e) = IsAnswer accepted e

  more :
      (r : RequestData) (acc : List RequestData) (x : Worker)
      → IsWorkerFor acc x
      → IsWorkerFor (r ∷ acc) x
  more r acc (working req) h = tail h
  more r acc (replying e) (req, w, h, q) = (req, w, tail h, q)

  record Answers (s : Connection W C) : Type 0 where
    at_work : All (IsWorkerFor s.accepted) s.workers
    queued : All (IsAnswer s.accepted) (mpsc.queue s.channel)
    written : All (IsAnswer s.accepted) s.wire

  worker_parts :
      (s : Connection W C) (front : List Worker) (x : Worker) (back : List Worker)
      → Answers s
      → s.workers ≡ front ++ (x ∷ back)
      → All (IsWorkerFor s.accepted) front
        × IsWorkerFor s.accepted x
        × All (IsWorkerFor s.accepted) back
  worker_parts s front x back v at =
      let (a, (b, c)) =
        All_of_All-append (IsWorkerFor s.accepted) front (x ∷ back)
          (subst (All (IsWorkerFor s.accepted)) at v.at_work) in
      (a, b, c)

  Step-Answers : {s t : Connection W C} → Step mpsc handlers s t → Answers s → Answers t
  unfolding on_frame run_handler reply_sent reply_dropped write writer_ends drop_future abort_writer
  Step-Answers {s} (frame (some (ok (request req))) p) v = record {
    at_work = (
      head refl,
      All_mono (IsWorkerFor s.accepted) (IsWorkerFor (req ∷ s.accepted)) (more req s.accepted)
          s.workers v.at_work,
    );
    queued = subst (All (IsAnswer (req ∷ s.accepted))) (sym (mpsc.clone_tx_lem s.channel).0) (
        All_mono (IsAnswer s.accepted) (IsAnswer (req ∷ s.accepted))
          (λ e a. more req s.accepted (replying e) a) (mpsc.queue s.channel) v.queued);
    written =
        All_mono (IsAnswer s.accepted) (IsAnswer (req ∷ s.accepted))
          (λ e a. more req s.accepted (replying e) a) s.wire v.written;
  }
  Step-Answers (frame (some (ok heartbeat)) p) v = v
  Step-Answers (frame (some (ok (response _))) p) v = v
  Step-Answers (frame (some (ok (error _))) p) v = v
  Step-Answers {s} (frame (some (err e)) p) v = record {
    at_work = v.at_work;
    queued = subst (All (IsAnswer s.accepted)) (sym (mpsc.drop_tx_lem s.channel).0) v.queued;
    written = v.written;
  }
  Step-Answers {s} (frame none p) v = record {
    at_work = v.at_work;
    queued = subst (All (IsAnswer s.accepted)) (sym (mpsc.drop_tx_lem s.channel).0) v.queued;
    written = v.written;
  }
  Step-Answers {s} (run front req back at) v =
      let (a, b, c) = worker_parts s front (working req) back v at in
      record {
        at_work =
            All-append (IsWorkerFor s.accepted) front
              (replying (dispatch handlers req s.world).0 ∷ back) a ((req, s.world, b, refl), c);
        queued = v.queued;
        written = v.written;
      }
  Step-Answers {s} (send front reply back c at done) v =
      let (a, b, d) = worker_parts s front (replying reply) back v at in
      let same : mpsc.queue (mpsc.drop_tx c) ≡ mpsc.queue s.channel ++ (reply ∷ []) =
        (mpsc.drop_tx_lem c).0 ∙ (mpsc.send_lem reply s.channel c done).0 in
      let longer =
        All-append (IsAnswer s.accepted) (mpsc.queue s.channel) (reply ∷ []) v.queued (b, tt) in
      record {
        at_work = All-append (IsWorkerFor s.accepted) front back a d;
        queued = subst (All (IsAnswer s.accepted)) (sym same) longer;
        written = v.written;
      }
  Step-Answers {s} (send_fails front reply back at done) v =
      let (a, b, d) = worker_parts s front (replying reply) back v at in
      record {
        at_work = All-append (IsWorkerFor s.accepted) front back a d;
        queued = subst (All (IsAnswer s.accepted)) (sym (mpsc.drop_tx_lem s.channel).0) v.queued;
        written = v.written;
      }
  Step-Answers {s} (writes e c (ok _) on taken) v =
      let (here, rest) =
        subst (All (IsAnswer s.accepted)) (mpsc.recv_got e s.channel c taken).0 v.queued in
      record {
        at_work = v.at_work;
        queued = rest;
        written = All-append (IsAnswer s.accepted) s.wire (e ∷ []) v.written (here, tt);
      }
  Step-Answers {s} (writes e c (err _) on taken) v = record {
    at_work = v.at_work;
    queued = subst (All (IsAnswer s.accepted)) (sym (mpsc.drop_rx_lem c).0) tt;
    written = v.written;
  }
  Step-Answers {s} (write_ends on none_left) v = record {
    at_work = v.at_work;
    queued = subst (All (IsAnswer s.accepted)) (sym (mpsc.drop_rx_lem s.channel).0) tt;
    written = v.written;
  }
  Step-Answers (join p gone) v = record {
    at_work = v.at_work;
    queued = v.queued;
    written = v.written;
  }
  Step-Answers {s} (abort _ _) v = record {
    at_work = v.at_work;
    queued =
        subst (All (IsAnswer s.accepted)) (sym (without_loop_lem mpsc handlers s.phase s.channel).0)
          v.queued;
    written = v.written;
  }
  Step-Answers {s} (writer_aborted _ _) v = record {
    at_work = v.at_work;
    queued = subst (All (IsAnswer s.accepted)) (sym (mpsc.drop_rx_lem s.channel).0) tt;
    written = v.written;
  }
  Step-Answers (elsewhere w) v = record {
    at_work = v.at_work;
    queued = v.queued;
    written = v.written;
  }

  Reach-Answers : {w : W} {s : Connection W C} → Reach mpsc handlers w s → Answers s
  unfolding init
  Reach-Answers start = record {
    at_work = tt;
    queued = subst (All (IsAnswer [])) (sym (mpsc.channel_lem writer_channel_capacity).0) tt;
    written = tt;
  }
  Reach-Answers (next r st) = Step-Answers st (Reach-Answers r)

  -- In every reachable state, each envelope on the wire is what `dispatch` gives for one of the
  -- requests that were accepted, in some state of the handlers.
  pub wire-IsAnswer :
      {w : W} {s : Connection W C}
      → Reach mpsc handlers w s
      → (e : Envelope) → Memᴰ e s.wire
      → IsAnswer s.accepted e
  wire-IsAnswer {s} r e h = All-Mem (IsAnswer s.accepted) e s.wire (Reach-Answers r).written h
