-- ===== src/Server/Connection/Invariant/Defs.antt =====
-- The invariant of a connection, and facts about how its writer ends.
use patina_rpc.Base.{
  ℕ, ◌+◌, ◌≤◌, ◌≡◌, ◌≢◌, refl, List, [], ◌∷◌, Bool, true, false, length, arith, nat_eq,
}
use patina_rpc.Envelope.{Envelope}
use patina_rpc.Runtime.{Mpsc}
use patina_rpc.Server.{writer_channel_capacity}
use patina_rpc.Server.Connection.{
  Phase, reading, joining, finished, aborted, Writer, running, drained, broken, killed, Worker,
  Connection,
}
use patina_rpc.Server.Connection.Tally.{replies_for, workers_for, requests_for}

abbrev pub loop_senders : Phase → ℕ
loop_senders reading = 1
loop_senders _ = 0

abbrev pub is_running : Writer → Bool
is_running running = true
is_running _ = false

-- The writer stopped only once all was written.
abbrev pub is_clean : Writer → Bool
is_clean running = true
is_clean drained = true
is_clean _ = false

pub drained_of : (w : Writer) → is_running w ≡ false → is_clean w ≡ true → w ≡ drained
drained_of running gone h = cc
drained_of drained gone h = refl
drained_of broken gone h = cc
drained_of killed gone h = cc

pub nobody_left :
    (p : Phase) (ws : List Worker) → loop_senders p + length ws ≡ 0 → (p ≢ reading) × (ws ≡ [])
nobody_left reading ws h = absurd (omega arith)
nobody_left joining [] h = (λ e. cc, refl)
nobody_left joining (w ∷ ws) h = absurd (omega arith)
nobody_left finished [] h = (λ e. cc, refl)
nobody_left finished (w ∷ ws) h = absurd (omega arith)
nobody_left aborted [] h = (λ e. cc, refl)
nobody_left aborted (w ∷ ws) h = absurd (omega arith)

module _ {W C : Type 0} (mpsc : Mpsc C Envelope) where
  pub record Inv (s : Connection W C) : Type 0 where
    -- Each request is with its worker, in the channel, on the wire, or lost.
    pub balance :
        (i : ℕ)
        → replies_for i s.wire
            + replies_for i (mpsc.queue s.channel)
            + workers_for i s.workers
            + replies_for i s.lost
          ≡ requests_for i s.accepted
    pub counted : mpsc.senders s.channel ≡ loop_senders s.phase + length s.workers
    pub bounded : length (mpsc.queue s.channel) ≤ writer_channel_capacity
    pub capacity : mpsc.capacity s.channel ≡ writer_channel_capacity
    pub alive : mpsc.has_receiver s.channel ≡ is_running s.writer
    pub quiet : s.writer ≢ running → mpsc.queue s.channel ≡ []
    pub at_end : s.writer ≡ drained → (s.phase ≢ reading) × (s.workers ≡ [])
    pub clean : is_clean s.writer ≡ true → s.lost ≡ []
    pub joined : s.phase ≡ finished → s.writer ≢ running
