-- ===== src/Server/Connection/Shutdown.antt =====
-- How often requests are answered, and how a connection ends.
use patina_rpc.Base.{
  ℕ, ◌+◌, ◌≤◌, ◌≡◌, ◌≢◌, refl, ap, ◌∙◌, [], ◌∷◌, Assoc, none, some, ok, err, String, length, arith,
  nat_eq,
}
use patina_rpc.Envelope.{Envelope, RequestData, request, response, error, heartbeat}
use patina_rpc.Error.{WireError}
use patina_rpc.Runtime.{Mpsc, got}
use patina_rpc.Server.{Handler}
use patina_rpc.Server.Connection.{
  Phase, reading, aborted, running, drained, Connection, on_frame, run_handler, reply_sent,
  reply_dropped, write, writer_ends, drop_future, abort_writer, Step, frame, run, send, send_fails,
  writes, write_ends, join, abort, writer_aborted, elsewhere, Reach,
}
use patina_rpc.Server.Connection.Tally.{replies_for, requests_for, workers_for}
use patina_rpc.Server.Connection.Invariant.{Inv, loop_senders, Reach-Inv}

left_senders : (p : Phase) → p ≢ reading → loop_senders p ≡ 0
left_senders p d = ground (arith, d)

module _ {W C : Type 0} (mpsc : Mpsc C Envelope) (handlers : Assoc String (Handler W)) where
  -- In every reachable state of a connection the replies on the wire under an id are no more than
  -- the requests that were accepted under it.
  pub replies-le-requests :
      {w : W} {s : Connection W C}
      → Reach mpsc handlers w s
      → (i : ℕ) → replies_for i s.wire ≤ requests_for i s.accepted
  replies-le-requests r i = omega (arith, (Reach-Inv mpsc handlers r).balance i)

  -- In a reachable state whose writer has ended because no sender was left, the loop is over, no
  -- worker is left, and under every id there are as many replies on the wire as requests were
  -- accepted.
  pub drained_answers_all :
      {w : W} {s : Connection W C}
      → Reach mpsc handlers w s
      → s.writer ≡ drained
      → (s.phase ≢ reading)
        × (s.workers ≡ [])
        × ((i : ℕ) → replies_for i s.wire ≡ requests_for i s.accepted)
  drained_answers_all {s} r d = (
    off,
    idle,
    λ i. omega (
      arith,
      v.balance i,
      ap (workers_for i) idle,
      ap (replies_for i) (v.quiet (λ e. cc)),
      ap (replies_for i) (v.clean (rw d refl)),
    ),
  )
    where
      v : Inv mpsc s
      v = Reach-Inv mpsc handlers r

      off : s.phase ≢ reading
      off = (v.at_end d).0

      idle : s.workers ≡ []
      idle = (v.at_end d).1

  -- In every reachable state the channel to the writer holds at most 128 envelopes, and it has a
  -- sender for each worker and, while the loop reads, one more: the loop's own, which is gone once
  -- the loop is left.
  pub channel_bounds :
      {w : W} {s : Connection W C}
      → Reach mpsc handlers w s
      → (length (mpsc.queue s.channel) ≤ 128)
        × ((s.phase ≡ reading) → mpsc.senders s.channel ≡ length s.workers + 1)
        × ((s.phase ≢ reading) → mpsc.senders s.channel ≡ length s.workers)
  channel_bounds {s} r =
      let v = Reach-Inv mpsc handlers r in
      (
        v.bounded,
        λ p. omega (arith, v.counted, ap loop_senders p),
        λ p. omega (arith, v.counted, left_senders s.phase p),
      )

  pub data Steps (s : Connection W C) : Connection W C → Type 0 where
    none_yet : Steps s s
    then_step : {t u : Connection W C} → Steps s t → Step mpsc handlers t u → Steps s u

  stopped-Step :
      {s t : Connection W C}
      → Step mpsc handlers s t
      → s.writer ≢ running
      → (t.wire ≡ s.wire) × (t.writer ≢ running)
  unfolding on_frame run_handler reply_sent reply_dropped drop_future
  stopped-Step (frame (some (ok (request req))) p) d = (refl, d)
  stopped-Step (frame (some (ok heartbeat)) p) d = (refl, d)
  stopped-Step (frame (some (ok (response _))) p) d = (refl, d)
  stopped-Step (frame (some (ok (error _))) p) d = (refl, d)
  stopped-Step (frame (some (err e)) p) d = (refl, d)
  stopped-Step (frame none p) d = (refl, d)
  stopped-Step (run front req back at) d = (refl, d)
  stopped-Step (send front reply back c at done) d = (refl, d)
  stopped-Step (send_fails front reply back at done) d = (refl, d)
  stopped-Step (writes e c r on taken) d = absurd (d on)
  stopped-Step (write_ends on none_left) d = absurd (d on)
  stopped-Step (join p gone) d = (refl, d)
  stopped-Step (abort _ _) d = (refl, d)
  stopped-Step (writer_aborted _ on) d = absurd (d on)
  stopped-Step (elsewhere w) d = (refl, d)

  stopped-Steps :
      {s t : Connection W C}
      → Steps s t
      → s.writer ≢ running
      → (t.wire ≡ s.wire) × (t.writer ≢ running)
  stopped-Steps none_yet d = (refl, d)
  stopped-Steps (then_step r st) d =
      let (a, b) = stopped-Steps r d in let (c, e) = stopped-Step st b in (c ∙ a, e)

  -- When the writer's `sink.send` fails for a message that it took, while the loop reads, the
  -- loop goes on and accepts a further request; and in every state `t` that the connection may be
  -- in from then on, the wire is as it was before the failure.
  pub broken_writer_reads_on :
      (s t : Connection W C) (e : Envelope) (c : C) (x : WireError) (req : RequestData)
      → s.phase ≡ reading
      → s.writer ≡ running
      → mpsc.recv s.channel ≡ got e c
      → Steps
          (on_frame mpsc handlers (some (ok (request req))) (write mpsc handlers e c (err x) s))
          t
      → let broke = write mpsc handlers e c (err x) s in
        let after = on_frame mpsc handlers (some (ok (request req))) broke in
        Step mpsc handlers s broke
        × Step mpsc handlers broke after
        × (after.accepted ≡ req ∷ s.accepted)
        × (after.phase ≡ reading)
        × (t.wire ≡ s.wire)
  unfolding write on_frame
  broken_writer_reads_on s t e c x req p on taken onward = (
    writes e c (err x) on taken,
    frame (some (ok (request req))) p,
    refl,
    p,
    (stopped-Steps onward (λ h. cc)).0,
  )

  dropped-Step :
      {s t : Connection W C}
      → Step mpsc handlers s t
      → s.phase ≡ aborted
      → (t.phase ≡ aborted) × (t.accepted ≡ s.accepted)
  unfolding run_handler reply_sent reply_dropped write writer_ends abort_writer
  dropped-Step (frame f p) q = absurd (cc)
  dropped-Step (run front req back at) q = (q, refl)
  dropped-Step (send front reply back c at done) q = (q, refl)
  dropped-Step (send_fails front reply back at done) q = (q, refl)
  dropped-Step (writes e c (ok _) on taken) q = (q, refl)
  dropped-Step (writes e c (err _) on taken) q = (q, refl)
  dropped-Step (write_ends on none_left) q = (q, refl)
  dropped-Step (join p gone) q = absurd (cc)
  dropped-Step (abort _ other) q = absurd (other q)
  dropped-Step (writer_aborted _ _) q = (q, refl)
  dropped-Step (elsewhere w) q = (q, refl)

  dropped-Steps :
      {s t : Connection W C}
      → Steps s t
      → s.phase ≡ aborted
      → (t.phase ≡ aborted) × (t.accepted ≡ s.accepted)
  dropped-Steps none_yet q = (q, refl)
  dropped-Steps (then_step r st) q =
      let (a, b) = dropped-Steps r q in let (c, d) = dropped-Step st a in (c, d ∙ b)

  -- Once the future of a connection is dropped, in every state `t` that the connection may be in
  -- from then on: no further request has been accepted; a writer that still runs can be dropped by
  -- the runtime; and from then on, or if it has stopped by itself, nothing more is ever written and
  -- the writer never runs again.
  pub drop_future_stops_writer :
      (s t : Connection W C)
      → Steps (drop_future mpsc handlers s) t
      → (t.accepted ≡ s.accepted)
        × ((t.writer ≡ running) → Step mpsc handlers t (abort_writer mpsc handlers t))
        × ((u : Connection W C)
            → Steps (abort_writer mpsc handlers t) u
            → (u.writer ≢ running) × (u.wire ≡ t.wire))
        × ((t.writer ≢ running)
            → (u : Connection W C) → Steps t u
            → (u.writer ≢ running) × (u.wire ≡ t.wire))
  unfolding drop_future abort_writer
  drop_future_stops_writer s t onward = (
    (dropped-Steps onward refl).1,
    λ on. writer_aborted (dropped-Steps onward refl).0 on,
    λ u later. let (same, off) = stopped-Steps later (λ h. cc) in (off, same),
    λ d u later. let (same, off) = stopped-Steps later d in (off, same),
  )
