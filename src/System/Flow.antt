-- ===== src/System/Flow.antt =====
-- Where the message of a waiting call is, between a client and the server (`call`, the writers, the
-- workers and the readers of crates/patina-rpc/src/client.rs and crates/patina-rpc/src/server.rs).
use patina_rpc.Base.{
  ℕ, ◌+◌, ◌^◌, ◌≤◌, ◌<◌, ◌≡◌, ◌≢◌, inl, inr, refl, sym, ap, ◌∙◌, List, Assoc, Option, none, some,
  String, arith, nat_eq, lookup,
}
use patina_rpc.Envelope.{Envelope, request, response, error, heartbeat}
use patina_rpc.Runtime.{Oneshot, Mpsc, CancellationToken}
use patina_rpc.Server.{Handler}
use patina_rpc.Server.Registry.{reply_id}
use patina_rpc.Client.{Args, Client, numbered, awaiting, writing, id_of, from_stream}
use patina_rpc.Client
use patina_rpc.Client.Delivery.{Reach-Delivers}
use patina_rpc.Client.Hearing.{heard}
use patina_rpc.Client.Invariant.{issued_mono}
use patina_rpc.Client.Sending.{requests_under, requests_under-append, unsent_id, Reach-Sends}
use patina_rpc.Client.Waiting.{IsListed, Step-Origin}
use patina_rpc.Server.Connection.{init, running}
use patina_rpc.Server.Connection.Invariant.{Reach-Inv, is_clean}
use patina_rpc.Server.Connection.Shutdown.{replies-le-requests}
use patina_rpc.Server.Connection.Tally.{is_for, replies_for, workers_for, replies_for-append}
use patina_rpc.System.{
  System, Takes, server_said, client_step, server_step, Reach, start, next, client-Reach,
  server-Reach,
}
use patina_rpc.System.Order.{accepted_in_order, to_client-suffix, requests_under-arrivals}
use patina_rpc.System.Wires.{arrivals, server_wire}

not_for : (e : Envelope) (id : ℕ) → id_of e ≢ some id → is_for id (reply_id e) ≡ 0
unfolding id_of reply_id
not_for (request _) id h = refl
not_for (response r) id h = let ne : r.id ≢ id = λ q. h (ap some q) in ground arith
not_for (error x) id h = let ne : x.id ≢ id = λ q. h (ap some q) in ground arith
not_for heartbeat id h = refl

-- What is taken is no reply under the id.
same_replies :
    (o : Option Envelope) (before after : List Envelope) (id : ℕ)
    → Takes o before after
    → ((e : Envelope) → o ≡ some e → id_of e ≢ some id)
    → replies_for id before ≡ replies_for id after
same_replies none before after id h other = ap (replies_for id) h
same_replies (some e) before after id h other =
    ap (replies_for id) h ∙ omega (arith, not_for e id (other e refl))

module _ {O C T W D : Type 0} (oneshot : Oneshot O Envelope) (mpsc : Mpsc C Envelope)
    (tokens : CancellationToken T) (args : ℕ → Args) (channels : Mpsc D Envelope)
    (handlers : Assoc String (Handler W)) where
  -- The client has taken in no reply to a call whose entry is in the map.
  Unanswered : System O C T W D → Type 0
  Unanswered y =
      (k id : ℕ)
      → IsListed oneshot mpsc tokens args y.client k id
      → replies_for id y.to_client ≡ replies_for id y.server.wire

  -- Before its request is sent, there is no reply to it.
  no_replies :
      {w : W} {y : System O C T W D}
      → Reach oneshot mpsc tokens args channels handlers w y
      → y.client.issued < 2 ^ 64
      → (k id : ℕ) → y.client.calls k ≡ numbered id
      → (replies_for id y.to_client ≡ 0) × (replies_for id y.server.wire ≡ 0)
  no_replies {w} {y} r fits k id at =
      let unsent =
        (Reach-Sends oneshot mpsc tokens args
            (client-Reach oneshot mpsc tokens args channels handlers r) fits).fresh
          k id (ap unsent_id at) in
      let counted =
        ap (requests_under id) (accepted_in_order oneshot mpsc tokens args channels handlers r)
        ∙ requests_under-append id (arrivals y.server.accepted) y.to_server in
      let answered =
        replies-le-requests channels handlers
          (server-Reach oneshot mpsc tokens args channels handlers r) id in
      let none_written : replies_for id y.server.wire ≡ 0 =
        omega (arith, unsent, counted, requests_under-arrivals id y.server.accepted, answered) in
      let (before, q) = to_client-suffix oneshot mpsc tokens args channels handlers r in
      (
        omega
            (arith, none_written, ap (replies_for id) q, replies_for-append id before y.to_client),
        none_written,
      )

  client_step-Unanswered :
      {w : W} {y : System O C T W D} {t : Client O C T}
      (st : Client.Step oneshot mpsc tokens args y.client t) (rest : List Envelope)
      → Takes (heard oneshot mpsc tokens args st) y.to_client rest
      → Reach oneshot mpsc tokens args channels handlers w y
      → y.client.issued < 2 ^ 64
      → Unanswered y
      → (k id : ℕ) → IsListed oneshot mpsc tokens args t k id
      → replies_for id rest ≡ replies_for id y.server.wire
  unfolding Unanswered
  client_step-Unanswered {w} {y} st rest h r fits v k id listed =
      elim (Step-Origin oneshot mpsc tokens args st k id listed) [
        | inl (before, other) ↦
            sym (same_replies (heard oneshot mpsc tokens args st) y.to_client rest id h other)
            ∙ v k id before
        | inr (at, silent) ↦
            let (a, b) = no_replies r fits k id at in
            sym (
              same_replies (heard oneshot mpsc tokens args st) y.to_client rest id h
                (λ e q. absurd (cc)))
            ∙ a
            ∙ sym b
      ]

  Reach-Unanswered :
      {w : W} {y : System O C T W D}
      → Reach oneshot mpsc tokens args channels handlers w y
      → y.client.issued < 2 ^ 64
      → Unanswered y
  unfolding Unanswered from_stream init
  Reach-Unanswered start fits = λ k id listed. refl
  Reach-Unanswered (next {y} r (client_step st rest h)) fits =
      let small : y.client.issued < 2 ^ 64 =
        omega (arith, issued_mono oneshot mpsc tokens args st) in
      client_step-Unanswered st rest h r small (Reach-Unanswered r small)
  Reach-Unanswered (next {y} r (server_step st rest h)) fits = λ k id listed.
      let said = server_said oneshot mpsc tokens args channels handlers st in
      omega (
        arith,
        Reach-Unanswered r fits k id listed,
        replies_for-append id y.to_client said,
        replies_for-append id y.server.wire said,
        ap (replies_for id) (server_wire oneshot mpsc tokens args channels handlers st),
      )

  -- Nothing is lost: in a reachable system whose two writers run, while fewer than 2 ^ 64 ids were
  -- handed out, the request of a waiting call whose entry is in the map, or its reply, is in the
  -- client's channel, on the way to the server, with a worker, in the server's channel, or on the
  -- way to the client.
  pub in_flight :
      {w : W} {y : System O C T W D}
      → Reach oneshot mpsc tokens args channels handlers w y
      → y.client.issued < 2 ^ 64
      → y.client.writer ≡ writing
      → y.server.writer ≡ running
      → (k id : ℕ) → y.client.calls k ≡ awaiting id
      → lookup id y.client.pending.inner ≡ some k
      → 1
        ≤ requests_under id (mpsc.queue y.client.outbound)
          + requests_under id y.to_server
          + workers_for id y.server.workers
          + replies_for id (channels.queue y.server.channel)
          + replies_for id y.to_client
  unfolding Unanswered
  in_flight {w} {y} r fits on running_ k id at listed =
      let v =
        Reach-Inv channels handlers (server-Reach oneshot mpsc tokens args channels handlers r) in
      omega (
        arith,
        Reach-Delivers oneshot mpsc tokens args
            (client-Reach oneshot mpsc tokens args channels handlers r) on k id at,
        ap (requests_under id) (accepted_in_order oneshot mpsc tokens args channels handlers r),
        requests_under-append id (arrivals y.server.accepted) y.to_server,
        requests_under-arrivals id y.server.accepted,
        v.balance id,
        ap (replies_for id) (v.clean (ap is_clean running_)),
        Reach-Unanswered r fits k id (ground (arith, at), listed),
      )
