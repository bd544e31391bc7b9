-- ===== src/System/Contract.antt =====
-- What a caller may rely on: a call of `Client::call` (crates/patina-rpc/src/client.rs) is a call of
-- the server's handler (crates/patina-rpc/src/server.rs), or fails with `Closed`.
use Prim.Native.String.{◌++◌ as text_append}
use mathlib.Core.List.{Memᴰ}
use patina_rpc.Base.{
  ◌⊎◌, true, ◌==◌, Bool-cases, map_err, ℕ, ◌^◌, ◌<◌, ◌≡◌, inl, inr, refl, sym, ap, subst, ◌∙◌, List,
  [], Assoc, Option, none, some, err, String, lookup, arith, nat_eq, string_eq, Mem-append_left,
}
use patina_rpc.Envelope.{Envelope, RequestData, request, response, error, heartbeat}
use patina_rpc.Error.{closed, remote}
use patina_rpc.Runtime.{Oneshot, Mpsc, CancellationToken, Polled}
use patina_rpc.Server.{Handler, dispatch}
use patina_rpc.Server.Registry.{reply_id, dispatch_cases}
use patina_rpc.Client.{Args, Outcome, awaiting, update, id_of, outcome, from_stream, request_of}
use patina_rpc.Client.Hearing.{heard, Heard, Step-Heard, from_stream-Heard}
use patina_rpc.Client.Invariant.{Reach-Inv, issued_mono}
use patina_rpc.Client.Owners.{request_of_owner}
use patina_rpc.Client.Routing.{received-id}
use patina_rpc.Client.Verdicts.{verdicts, Step-verdicts}
use patina_rpc.Server.Connection.{init}
use patina_rpc.Server.Connection.Answers.{wire-IsAnswer}
use patina_rpc.Service.Proxy.{outcome-envelope_for}
use patina_rpc.System.{
  System, Takes, server_said, client_step, server_step, Reach, start, next, client-Reach,
  server-Reach,
}
use patina_rpc.System.Wires.{server_wire}
use patina_rpc.System.Order.{to_client-Mem, accepted_was_sent}

-- A call of the handler itself, in the state `w`.
abbrev pub call_directly : {W : Type 0} → Assoc String (Handler W) → Args → W → Outcome
call_directly handlers a w = elim (lookup a.method handlers) [
  | some h ↦ map_err (λ e. remote e.code e.message) (h.handle a.payload w).0
  | none ↦ err (remote 404 (text_append "unknown method: " a.method))
]

id_of_reply : (e : Envelope) (i : ℕ) → reply_id e ≡ some i → id_of e ≡ some i
unfolding id_of reply_id
id_of_reply (request r) i h = cc
id_of_reply (response r) i h = h
id_of_reply (error x) i h = h
id_of_reply heartbeat i h = cc

pub outcome-dispatch :
    {W : Type 0} (handlers : Assoc String (Handler W)) (req : RequestData) (w : W)
    → outcome (dispatch handlers req w).0
      ≡ call_directly handlers (record { method = req.method; payload = req.payload }) w
unfolding outcome
outcome-dispatch handlers req w = elim ((dispatch_cases handlers req w).1) [
  | inl (h, found, e, _) ↦
      ap outcome e
      ∙ outcome-envelope_for req.id (h.handle req.payload w).0
      ∙ rw (found, call_directly) refl
  | inr (missing, e, _) ↦ ap outcome e ∙ rw (missing, call_directly) refl
]

-- What a remote procedure call promises: the calls return one after the other, each at most once,
-- and each with `Closed` or with what the handler gives for its method and payload in some state.
module _ {W : Type 0} (args : ℕ → Args) (handlers : Assoc String (Handler W)) where
  pub data Promises : (ℕ → Option Outcome) → Type 0 where
    none_returned : Promises (λ _. none)
    fails :
        {v : ℕ → Option Outcome}
        → Promises v
        → (k : ℕ) → v k ≡ none
        → Promises (update v k (some (err closed)))
    answers :
        {v : ℕ → Option Outcome}
        → Promises v
        → (k : ℕ) (w : W) → v k ≡ none
        → Promises (update v k (some (call_directly handlers (args k) w)))

-- What has been returned has been promised.
pub promised :
    {W : Type 0} (args : ℕ → Args) (handlers : Assoc String (Handler W)) (v : ℕ → Option Outcome)
    → Promises args handlers v
    → (k : ℕ) (r : Outcome) → v k ≡ some r
    → (r ≡ err closed) ⊎ ((w : W) × (r ≡ call_directly handlers (args k) w))
promised args handlers v none_returned k r h = absurd (cc)
promised args handlers v (fails {v = before} p j at) k r h = elim (Bool-cases (j == k)) [
  | inl own ↦ inl (ground (arith, own, h))
  | inr other ↦ promised args handlers before p k r (ground (arith, other, h))
]
promised args handlers v (answers {v = before} p j w at) k r h = elim (Bool-cases (j == k)) [
  | inl own ↦ inr (w, answer own)
  | inr other ↦ promised args handlers before p k r (ground (arith, other, h))
]
  where
    answer : (j == k) ≡ true → r ≡ call_directly handlers (args k) w
    answer own = ground (arith, own, h)

module _ {O C T W D : Type 0} (oneshot : Oneshot O Envelope) (mpsc : Mpsc C Envelope)
    (tokens : CancellationToken T) (args : ℕ → Args) (channels : Mpsc D Envelope)
    (handlers : Assoc String (Handler W)) where
  taken-Mem :
      (o : Option Envelope) (before after : List Envelope) (e : Envelope)
      → Takes o before after
      → o ≡ some e
      → Memᴰ e before
  taken-Mem none before after e h q = absurd (cc)
  taken-Mem (some x) before after e h q =
      let same : e ≡ x = cc in subst (Memᴰ e) (sym h) (Memᴰ.head same)

  -- Whatever stands in the client's hands was on the server's wire.
  Reach-Heard :
      {w : W} {y : System O C T W D}
      → Reach oneshot mpsc tokens args channels handlers w y
      → y.client.issued < 2 ^ 64
      → Heard oneshot mpsc tokens args (λ e. Memᴰ e y.server.wire) y.client
  unfolding init
  Reach-Heard start fits = from_stream-Heard oneshot mpsc tokens args (λ e. Memᴰ e [])
  Reach-Heard (next {y} r (client_step st rest h)) fits =
      let small : y.client.issued < 2 ^ 64 =
        omega (arith, issued_mono oneshot mpsc tokens args st) in
      let reached = client-Reach oneshot mpsc tokens args channels handlers r in
      Step-Heard oneshot mpsc tokens args (λ e. Memᴰ e y.server.wire) st
        (Reach-Inv oneshot mpsc tokens args reached small)
        (λ e q.
          to_client-Mem oneshot mpsc tokens args channels handlers r e
            (taken-Mem (heard oneshot mpsc tokens args st) y.to_client rest e h q))
        (Reach-Heard r small)
  Reach-Heard (next {y} {z} r (server_step st rest h)) fits =
      let v = Reach-Heard r fits in
      let kept : (e : Envelope) → Memᴰ e y.server.wire → Memᴰ e z.server.wire = λ e m.
        subst (Memᴰ e) (sym (server_wire oneshot mpsc tokens args channels handlers st)) (
          Mem-append_left e y.server.wire
            (server_said oneshot mpsc tokens args channels handlers st) m) in
      record {
        in_hand = λ k e q. kept e (v.in_hand k e q);
        in_cell = λ k id e p q. kept e (v.in_cell k id e p q);
      }

  received_answer :
      {w : W} {y : System O C T W D}
      → Reach oneshot mpsc tokens args channels handlers w y
      → y.client.issued < 2 ^ 64
      → (k id : ℕ) (e : Envelope) → y.client.calls k ≡ awaiting id
      → oneshot.poll (y.client.cells k) ≡ Polled.received e
      → (w' : W) × (outcome e ≡ call_directly handlers (args k) w')
  received_answer {w} {y} r fits k id e at got_it =
      let reached = client-Reach oneshot mpsc tokens args channels handlers r in
      let on_wire = (Reach-Heard r fits).in_cell k id e (ground (arith, at)) got_it in
      let (req, w', accepted, q) =
        wire-IsAnswer channels handlers (server-Reach oneshot mpsc tokens args channels handlers r)
          e on_wire in
      let own = received-id oneshot mpsc tokens args reached fits k id e at got_it in
      let under : id_of e ≡ some req.id =
        id_of_reply e req.id (ap reply_id q ∙ (dispatch_cases handlers req w').0) in
      let same : req.id ≡ id = cc in
      let owner : request req ≡ request_of oneshot mpsc tokens args k req.id =
        request_of_owner oneshot mpsc tokens args reached fits k req (ground (arith, at, same))
          (accepted_was_sent oneshot mpsc tokens args channels handlers r req accepted) in
      let asked : record { method = req.method; payload = req.payload } ≡ args k =
        ground (arith, owner) in
      (
        w',
        ap outcome q
            ∙ outcome-dispatch handlers req w'
            ∙ ap (λ a. call_directly handlers a w') asked,
      )

  -- The contract of a call, over any run of a client and its server: while fewer than 2 ^ 64 ids
  -- were handed out, what the calls of a reachable system have returned is what calls of the
  -- handlers themselves may give, each call returning at most once and with the result for its own
  -- method and payload, or with `Closed`.
  pub verdicts-Promises :
      {w : W} {y : System O C T W D}
      → Reach oneshot mpsc tokens args channels handlers w y
      → y.client.issued < 2 ^ 64
      → Promises args handlers (verdicts y.client.calls)
  unfolding from_stream
  verdicts-Promises start fits = none_returned
  verdicts-Promises (next r (server_step st rest h)) fits = verdicts-Promises r fits
  verdicts-Promises (next {y} r (client_step st rest h)) fits =
      let small : y.client.issued < 2 ^ 64 =
        omega (arith, issued_mono oneshot mpsc tokens args st) in
      let before = verdicts-Promises r small in
      elim (Step-verdicts oneshot mpsc tokens args st) [
        | inl same ↦ subst (Promises args handlers) (sym same) before
        | inr (k, o, open_, now, inl lost) ↦
            subst (Promises args handlers)
              (sym (now ∙ ap (λ x. update (verdicts y.client.calls) k (some x)) lost))
              (fails before k open_)
        | inr (k, o, open_, now, inr (id, e, at, got_it, says)) ↦
            let (w', direct) = received_answer r small k id e at got_it in
            subst (Promises args handlers)
              (sym (now ∙ ap (λ x. update (verdicts y.client.calls) k (some x)) (says ∙ direct)))
              (answers before k w' open_)
      ]
