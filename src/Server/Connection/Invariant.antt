-- ===== src/Server/Connection/Invariant.antt =====
-- What every step of a connection keeps: each accepted request stands in exactly one place.
mod Defs
mod Tasks
mod Writing
pub use Defs.*
pub use Writing.{without_loop_lem}
use Tasks.{init-Inv, on_frame-Inv, run_handler-Inv, reply_sent-Inv, reply_dropped-Inv}
use Writing.{write-Inv, writer_ends-Inv, drop_future-Inv, abort_writer-Inv}
use patina_rpc.Base.{ap, Assoc, String, arith, nat_eq}
use patina_rpc.Envelope.{Envelope}
use patina_rpc.Runtime.{Mpsc}
use patina_rpc.Server.{Handler}
use patina_rpc.Server.Connection.{
  Connection, Step, frame, run, send, send_fails, writes, write_ends, join, abort, writer_aborted,
  elsewhere, Reach, start, next,
}

module _ {W C : Type 0} (mpsc : Mpsc C Envelope) (handlers : Assoc String (Handler W)) where
  -- Every step keeps the invariant.
  pub Step-Inv : {s t : Connection W C} → Step mpsc handlers s t → Inv mpsc s → Inv mpsc t
  Step-Inv {s} (frame f p) v = on_frame-Inv mpsc handlers f s p v
  Step-Inv {s} (run front req back at) v = run_handler-Inv mpsc handlers s v front back req at
  Step-Inv {s} (send front reply back c at done) v =
      reply_sent-Inv mpsc handlers s v front back reply c at done
  Step-Inv {s} (send_fails front reply back at done) v =
      reply_dropped-Inv mpsc handlers s v front back reply at done
  Step-Inv {s} (writes e c r on taken) v = write-Inv mpsc handlers s e c r on taken v
  Step-Inv {s} (write_ends on none_left) v = writer_ends-Inv mpsc handlers s on none_left v
  Step-Inv {s} (join p ended_writer) v = record {
    balance = v.balance;
    counted = omega (arith, v.counted, ap loop_senders p);
    bounded = v.bounded;
    capacity = v.capacity;
    alive = v.alive;
    quiet = v.quiet;
    at_end = λ h. (λ q. cc, (v.at_end h).1);
    clean = v.clean;
    joined = λ _. ended_writer;
  }
  Step-Inv {s} (abort _ _) v = drop_future-Inv mpsc handlers s v
  Step-Inv {s} (writer_aborted p _) v = abort_writer-Inv mpsc handlers s p v
  Step-Inv (elsewhere w) v = record {
    balance = v.balance;
    counted = v.counted;
    bounded = v.bounded;
    capacity = v.capacity;
    alive = v.alive;
    quiet = v.quiet;
    at_end = v.at_end;
    clean = v.clean;
    joined = v.joined;
  }

  pub Reach-Inv : {w : W} {s : Connection W C} → Reach mpsc handlers w s → Inv mpsc s
  Reach-Inv {w} start = init-Inv mpsc handlers w
  Reach-Inv (next r st) = Step-Inv st (Reach-Inv r)
