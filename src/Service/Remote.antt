-- ===== src/Service/Remote.antt =====
-- A call of a method of the generated client, over a connection with any schedule of its tasks
-- (crates/patina-macros/src/expand.rs, crates/patina-rpc/src/client.rs and
-- crates/patina-rpc/src/server.rs together).
use patina_rpc.Base.{
  ℕ, ◌^◌, ◌<◌, ◌≡◌, ◌⊎◌, inl, inr, refl, sym, ap, ◌∙◌, List, ◌∷◌, ◌++◌, map, false, ok, err, ◌>>=◌,
  nat_eq, string_eq,
}
use patina_rpc.Envelope.{Envelope, RequestData}
use patina_rpc.Error.{closed}
use patina_rpc.Runtime.{Oneshot, Mpsc, CancellationToken}
use patina_rpc.Payload
use patina_rpc.Macros.{wire_method_name}
use patina_rpc.Server.{ServerBuilder, build, add_service, dispatch}
use patina_rpc.Server.Registry.{contains}
use patina_rpc.Client.{Args, Outcome, outcome, returned}
use patina_rpc.Client.Verdicts.{verdict, verdicts}
use patina_rpc.Service.{Arm, Service, server, client_method}
use patina_rpc.Service.Proxy.{as_seen, remote_call, proxy_calls_implementation}
use patina_rpc.System.{System, Reach}
use patina_rpc.System.Contract.{call_directly, outcome-dispatch, promised, verdicts-Promises}

module _ {W : Type 0} (svc : Service W) (b : ServerBuilder W) (front : List (Arm W)) (arm : Arm W)
    (back : List (Arm W)) (split : svc.arms ≡ front ++ (arm ∷ back))
    (new : contains arm.method.ident (map (λ a. a.method.ident) front) ≡ false) where
  -- What the generated method sends.
  abbrev pub sent_for : List ℕ → Args
  sent_for bytes = record { method = wire_method_name svc.service arm.method; payload = bytes }

  -- What the method makes of a direct call of its handler.
  direct-as_seen :
      (args : arm.Args) (bytes : List ℕ) (w : W)
      → arm.args_codec.encode_to_vec args ≡ ok bytes
      → call_directly (build (add_service (server svc) b)).handlers (sent_for bytes) w
          >>= Payload.decode arm.ok_codec
        ≡ as_seen arm (arm.implementation args w).0
  unfolding client_method
  direct-as_seen args bytes w enc =
      let handlers = (build (add_service (server svc) b)).handlers in
      let req : RequestData = record {
        id = 0;
        method = wire_method_name svc.service arm.method;
        payload = bytes;
      } in
      let sent : Payload.encode arm.args_codec args ≡ ok bytes = unfold Payload.encode in rw enc in
      let called : (client_method svc.service arm (remote_call handlers 0) args w).0
          ≡ outcome (dispatch handlers req w).0 >>= Payload.decode arm.ok_codec =
        rw (sent, client_method) refl in
      ap (λ o. o >>= Payload.decode arm.ok_codec) (sym (outcome-dispatch handlers req w))
      ∙ sym called
      ∙ ap (λ x. x.0) (proxy_calls_implementation svc b 0 front arm back args bytes w split new enc)

  -- A client and a server to which the generated service was added last are in a reachable state, no
  -- earlier method of the trait has the name of this one, and fewer than 2 ^ 64 ids were handed out.
  -- If the call `k` was made by the generated method, on arguments that `bincode` encodes, and has
  -- returned, then it returned `Closed`, or the generated method gives what the user's method gives
  -- on these arguments in some state, as `as_seen` says.
  pub typed_call_answered :
      {O C T D : Type 0} (oneshot : Oneshot O Envelope) (mpsc : Mpsc C Envelope)
      (tokens : CancellationToken T) (channels : Mpsc D Envelope) (calls : ℕ → Args) {w : W}
      {y : System O C T W D}
      → Reach oneshot mpsc tokens calls channels (build (add_service (server svc) b)).handlers w y
      → y.client.issued < 2 ^ 64
      → (args : arm.Args) (bytes : List ℕ) → arm.args_codec.encode_to_vec args ≡ ok bytes
      → (k : ℕ) → calls k ≡ sent_for bytes
      → (o : Outcome) → y.client.calls k ≡ returned o
      → (o ≡ err closed)
        ⊎ ((w' : W) × (o >>= Payload.decode arm.ok_codec
              ≡ as_seen arm (arm.implementation args w').0))
  typed_call_answered oneshot mpsc tokens channels calls {y = y} r fits args bytes enc k made o at =
      let handlers = (build (add_service (server svc) b)).handlers in
      elim (promised calls handlers (verdicts y.client.calls)
        (verdicts-Promises oneshot mpsc tokens calls channels handlers r fits) k o
        (ap verdict at)) [
          | inl lost ↦ inl lost
          | inr (w', said) ↦ inr (
            w',
            ap (λ x. x >>= Payload.decode arm.ok_codec)
                  (said ∙ ap (λ a. call_directly handlers a w') made)
                ∙ direct-as_seen args bytes w' enc,
          )
        ]
