-- ===== src/System/Order.antt =====
-- In which order, and how often, the requests of a client reach the other side of its connection
-- (crates/patina-rpc/src/client.rs and crates/patina-rpc/src/server.rs).
use mathlib.Core.List.{append_assoc, Memᴰ}
use patina_rpc.Base.{
  ℕ, ◌^◌, ◌≤◌, ◌<◌, ◌≡◌, refl, sym, ap, subst, ◌∙◌, List, [], ◌∷◌, ◌++◌, Assoc, some, String, arith,
  nat_eq, Mem-append_left, Mem-append_right, none, Option,
}
use patina_rpc.Envelope.{Envelope, RequestData, request}
use patina_rpc.Runtime.{Oneshot, Mpsc, CancellationToken}
use patina_rpc.Server.{Handler}
use patina_rpc.Client.{Args, from_stream}
use patina_rpc.Client.Hearing.{heard}
use patina_rpc.Client.Requests.{wire-IsRequestOfCall}
use patina_rpc.Client.Sending.{requests_under, requests_under-append, each_id_sent_once}
use patina_rpc.Server.Connection.{init}
use patina_rpc.Server.Connection.Tally.{requests_for, replies_for}
use patina_rpc.Server.Connection.Shutdown.{replies-le-requests}
use patina_rpc.System.{
  System, Takes, client_said, server_said, client_step, server_step, Reach, start, next,
  client-Reach, server-Reach,
}
use patina_rpc.System.Wires.{arrivals, IsRequest, client_wire, server_wire, accepts}

pub requests_under-arrivals :
    (i : ℕ) (rs : List RequestData) → requests_under i (arrivals rs) ≡ requests_for i rs
requests_under-arrivals i [] = refl
requests_under-arrivals i (r ∷ rs) =
    ground
      (arith, requests_under-append i (arrivals rs) (request r ∷ []), requests_under-arrivals i rs)

-- What is taken from the front is behind what has been taken before.
take_more :
    (o : List Envelope) (e : Envelope) (wire before after : List Envelope)
    → before ≡ e ∷ after
    → wire ≡ o ++ before
    → wire ≡ (o ++ (e ∷ [])) ++ after
take_more o e wire before after q h = h ∙ ap (λ l. o ++ l) q ∙ sym (append_assoc o (e ∷ []) after)

take_any :
    (o : Option Envelope) (taken wire before after : List Envelope)
    → Takes o before after
    → wire ≡ taken ++ before
    → (more : List Envelope) × (wire ≡ more ++ after)
take_any none l wire before after q h = (l, h ∙ ap (λ x. l ++ x) q)
take_any (some e) l wire before after q h = (l ++ (e ∷ []), take_more l e wire before after q h)

accepted-Mem :
    (req : RequestData) (rs : List RequestData) → Memᴰ req rs → Memᴰ (request req) (arrivals rs)
accepted-Mem req [] h = elim h [ ]
accepted-Mem req (r ∷ rs) (Memᴰ.head e) =
    Mem-append_right (request req) (arrivals rs) (request r ∷ []) (Memᴰ.head (ap request e))
accepted-Mem req (r ∷ rs) (Memᴰ.tail h) =
    Mem-append_left (request req) (arrivals rs) (request r ∷ []) (accepted-Mem req rs h)

module _ {O C T W D : Type 0} (oneshot : Oneshot O Envelope) (mpsc : Mpsc C Envelope)
    (tokens : CancellationToken T) (args : ℕ → Args) (channels : Mpsc D Envelope)
    (handlers : Assoc String (Handler W)) where
  only_requests :
      {w : W} {y : System O C T W D}
      → Reach oneshot mpsc tokens args channels handlers w y
      → y.client.wire ≡ arrivals y.server.accepted ++ y.to_server
      → (e : Envelope) → Memᴰ e y.to_server
      → IsRequest oneshot mpsc tokens args channels handlers e
  only_requests {w} {y} r q e m =
      let sent_it =
        subst (Memᴰ e) (sym q) (Mem-append_right e (arrivals y.server.accepted) y.to_server m) in
      let (_, id, own) =
        wire-IsRequestOfCall oneshot mpsc tokens args
          (client-Reach oneshot mpsc tokens args channels handlers r) e sent_it in
      (_, own)

  -- In a reachable system the client has put on its wire exactly the requests that the server
  -- accepted, in the order in which it accepted them, and behind them what is under way.
  pub accepted_in_order :
      {w : W} {y : System O C T W D}
      → Reach oneshot mpsc tokens args channels handlers w y
      → y.client.wire ≡ arrivals y.server.accepted ++ y.to_server
  unfolding from_stream init
  accepted_in_order start = refl
  accepted_in_order (next {y} r (client_step st rest _)) =
      client_wire oneshot mpsc tokens args channels handlers st
      ∙ ap (λ l. l ++ client_said oneshot mpsc tokens args channels handlers st)
          (accepted_in_order r)
      ∙ append_assoc (arrivals y.server.accepted) y.to_server
          (client_said oneshot mpsc tokens args channels handlers st)
  accepted_in_order (next {y} r (server_step st rest h)) =
      accepted_in_order r
      ∙ sym (
          accepts oneshot mpsc tokens args channels handlers st y.to_server rest h
            (only_requests r (accepted_in_order r)))

  -- What is under way to the client is the end of what the server has put on its wire.
  pub to_client-suffix :
      {w : W} {y : System O C T W D}
      → Reach oneshot mpsc tokens args channels handlers w y
      → (before : List Envelope) × (y.server.wire ≡ before ++ y.to_client)
  unfolding init
  to_client-suffix start = ([], refl)
  to_client-suffix (next {y} r (client_step st rest h)) =
      let (before, q) = to_client-suffix r in
      take_any (heard oneshot mpsc tokens args st) before y.server.wire y.to_client rest h q
  to_client-suffix (next {y} r (server_step st rest h)) =
      let (before, q) = to_client-suffix r in
      (
        before,
        server_wire oneshot mpsc tokens args channels handlers st
            ∙ ap (λ l. l ++ server_said oneshot mpsc tokens args channels handlers st) q
            ∙ append_assoc before y.to_client
                (server_said oneshot mpsc tokens args channels handlers st),
      )

  pub to_client-Mem :
      {w : W} {y : System O C T W D}
      → Reach oneshot mpsc tokens args channels handlers w y
      → (e : Envelope) → Memᴰ e y.to_client
      → Memᴰ e y.server.wire
  to_client-Mem {w} {y} r e m =
      let (before, q) = to_client-suffix r in
      subst (Memᴰ e) (sym q) (Mem-append_right e before y.to_client m)

  -- The server accepts only what the client has sent.
  pub accepted_was_sent :
      {w : W} {y : System O C T W D}
      → Reach oneshot mpsc tokens args channels handlers w y
      → (req : RequestData) → Memᴰ req y.server.accepted
      → Memᴰ (request req) y.client.wire
  accepted_was_sent {w} {y} r req m = subst (Memᴰ (request req)) (sym (accepted_in_order r)) (
      Mem-append_left (request req) (arrivals y.server.accepted) y.to_server
        (accepted-Mem req y.server.accepted m))

  -- In a reachable system, while fewer than 2 ^ 64 ids were handed out, the server accepts at most
  -- one request under each id, and puts at most one reply under it on its wire.
  pub each_id_served_once :
      {w : W} {y : System O C T W D}
      → Reach oneshot mpsc tokens args channels handlers w y
      → y.client.issued < 2 ^ 64
      → (i : ℕ) → (requests_for i y.server.accepted ≤ 1) × (replies_for i y.server.wire ≤ 1)
  each_id_served_once {w} {y} r fits i =
      let sent_once =
        (each_id_sent_once oneshot mpsc tokens args
          (client-Reach oneshot mpsc tokens args channels handlers r) fits i y.client.issued
          (omega arith)).0 in
      let counted =
        ap (requests_under i) (accepted_in_order r)
        ∙ requests_under-append i (arrivals y.server.accepted) y.to_server in
      let once : requests_for i y.server.accepted ≤ 1 =
        omega (arith, sent_once, counted, requests_under-arrivals i y.server.accepted) in
      let answered =
        replies-le-requests channels handlers
          (server-Reach oneshot mpsc tokens args channels handlers r) i in
      (once, omega (arith, once, answered))
