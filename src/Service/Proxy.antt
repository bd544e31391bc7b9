-- ===== src/Service/Proxy.antt =====
-- A call of a method through the generated client, answered by the generated server
-- (crates/patina-macros/src/expand.rs), is a call of the user's method.
use Prim.Native.String.{◌++◌ as text_append}
use text.Mathlib.TextLemmas.{append_cancel_left}
use text.Mathlib.TextEquality.{eq_iff}
use patina_rpc.Base.{
  ℕ, String, ◌≡◌, refl, sym, ap, ◌∙◌, List, [], ◌∷◌, ◌++◌, map, true, false, Assoc, some, Result,
  ok, err, ◌>>=◌, map_err, ◌==◌, string_eq, arith, inl, inr, lookup, Bool-cases, Result-cases,
  length,
}
use patina_rpc.Error.{
  DecodeError, PatinaError, wire, remote, closed, unknown_method, patina_error_to_string,
  EncodeError,
}
use patina_rpc.Envelope.{error}
use patina_rpc.Codec.{decode-encode_whole}
use patina_rpc.Payload
use patina_rpc.Macros.{Method, ServiceTrait, wire_method_name}
use patina_rpc.Server.{
  Handler, ServerBuilder, build, add_service, dispatch, service_method_handler, from_patina_error,
  Reply, envelope_for,
}
use patina_rpc.Server.Registry.{contains, build-lookup}
use patina_rpc.Client.{Outcome, outcome}
use patina_rpc.Service.{Arm, Service, run_arm, dispatch_arms, server, client_method}

contains-here : (k : String) (front back : List String) → contains k (front ++ (k ∷ back)) ≡ true
contains-here k [] back = ground (arith, eq_iff k k)
contains-here k (j ∷ front) back = ground (arith, contains-here k front back)

wire_method_name_injective :
    (s : ServiceTrait) (l m : Method)
    → wire_method_name s l ≡ wire_method_name s m
    → l.ident ≡ m.ident
unfolding wire_method_name
wire_method_name_injective s l m h =
    append_cancel_left "::" l.ident m.ident (append_cancel_left s.ident _ _ h)

pub outcome-envelope_for :
    (id : ℕ) (r : Reply) → outcome (envelope_for id r) ≡ map_err (λ e. remote e.code e.message) r
unfolding outcome
outcome-envelope_for id (ok bytes) = refl
outcome-envelope_for id (err e) = refl

abbrev pub value_seen : {A : Type 0} → A → Result (List ℕ) EncodeError → Result A PatinaError
value_seen ret (ok _) = ok ret
value_seen ret (err e) = err (remote 500 (text_append "encode: " e.text))

module _ {W : Type 0} where
  -- `call` on a connection: what the client makes of the envelope that `dispatch` gives.
  abbrev pub remote_call : Assoc String (Handler W) → ℕ → String → List ℕ → W → Outcome × W
  remote_call handlers id method payload w =
      let (e, w') = dispatch handlers (record { id = id; method = method; payload = payload }) w in
      (outcome e, w')

  -- What a caller sees of a method's result: a value that `bincode` encodes as it is, an error
  -- `Remote` as it is, and anything else as a `Remote` error with the code 500.
  abbrev pub as_seen : (arm : Arm W) → Result arm.Ok PatinaError → Result arm.Ok PatinaError
  as_seen arm (ok ret) = value_seen ret (arm.ok_codec.encode_to_vec ret)
  as_seen arm (err (remote code message)) = err (remote code message)
  as_seen arm (err (wire e)) = err (remote 500 (patina_error_to_string (wire e)))
  as_seen arm (err closed) = err (remote 500 (patina_error_to_string closed))
  as_seen arm (err (unknown_method m)) =
      err (remote 500 (patina_error_to_string (unknown_method m)))

  dispatch_arms-here :
      (s : ServiceTrait) (front : List (Arm W)) (arm : Arm W) (back : List (Arm W))
      (payload : List ℕ) (w : W)
      → contains arm.method.ident (map (λ a. a.method.ident) front) ≡ false
      → dispatch_arms s (front ++ (arm ∷ back)) (wire_method_name s arm.method) payload w
        ≡ run_arm arm payload w
  unfolding dispatch_arms
  dispatch_arms-here s [] arm back payload w new =
      let own = (eq_iff (wire_method_name s arm.method) (wire_method_name s arm.method)).1 refl in
      rw (own, dispatch_arms)
  dispatch_arms-here s (a ∷ front) arm back payload w new =
      elim (Bool-cases (wire_method_name s a.method == wire_method_name s arm.method)) [
        | inr other ↦
            rw (other, dispatch_arms)
              (dispatch_arms-here s front arm back payload w (ground (arith, new)))
        | inl same ↦
            let named : a.method.ident ≡ arm.method.ident =
              wire_method_name_injective s a.method arm.method ((eq_iff _ _).0 same) in
            let again : (a.method.ident == arm.method.ident) ≡ true = (eq_iff _ _).1 named in
            absurd (ground (arith, new, again))
      ]

  names-here :
      (s : ServiceTrait) (front : List (Arm W)) (arm : Arm W) (back : List (Arm W))
      → contains
          (wire_method_name s arm.method)
          (map (wire_method_name s) (map (λ a. a.method) (front ++ (arm ∷ back))))
        ≡ true
  names-here s [] arm back = let k = wire_method_name s arm.method in ground (arith, eq_iff k k)
  names-here s (a ∷ front) arm back = ground (arith, names-here s front arm back)

  -- The server's answer to a request for a method: what its arm gives.
  answered :
      (svc : Service W) (b : ServerBuilder W) (id : ℕ) (front : List (Arm W)) (arm : Arm W)
      (back : List (Arm W)) (payload : List ℕ) (w : W)
      → svc.arms ≡ front ++ (arm ∷ back)
      → contains arm.method.ident (map (λ a. a.method.ident) front) ≡ false
      → dispatch
          (build (add_service (server svc) b)).handlers
          (record { id = id; method = wire_method_name svc.service arm.method; payload = payload })
          w
        ≡ (envelope_for id (run_arm arm payload w).0, (run_arm arm payload w).1)
  unfolding dispatch server
  answered svc b id front arm back payload w split new =
      let k = wire_method_name svc.service arm.method in
      let names_of : (server svc).method_names
          ≡ map (wire_method_name svc.service) (map (λ a. a.method) svc.arms) =
        ap (map (wire_method_name svc.service)) (sym svc.arms_lem) in
      let listed : contains k (server svc).method_names ≡ true =
        rw (names_of, split) (names-here svc.service front arm back) in
      let found = (build-lookup b "" k (service_method_handler (server svc) k) (server svc)).1 in
      let here : lookup k (build (add_service (server svc) b)).handlers
          ≡ some (service_method_handler (server svc) k) =
        found ∙ ground (arith, listed) in
      rw (here, dispatch)
        (rw split (rw (dispatch_arms-here svc.service front arm back payload w new)))

  run_arm-encoded :
      (arm : Arm W) (args : arm.Args) (bytes : List ℕ) (w : W)
      → arm.args_codec.encode_to_vec args ≡ ok bytes
      → run_arm arm bytes w ≡ (
        map_err from_patina_error ((arm.implementation args w).0 >>= Payload.encode arm.ok_codec),
        (arm.implementation args w).1,
      )
  unfolding run_arm Payload.decode
  run_arm-encoded arm args bytes w enc =
      let back : arm.args_codec.decode_from_slice bytes ≡ ok (args, length bytes) =
        decode-encode_whole arm.args_codec args bytes enc in
      rw (back, run_arm)

  reply_seen :
      (arm : Arm W) (r : Result arm.Ok PatinaError)
      → map_err
            (λ e. remote e.code e.message)
            (map_err from_patina_error (r >>= Payload.encode arm.ok_codec))
          >>= Payload.decode arm.ok_codec
        ≡ as_seen arm r
  unfolding Payload.encode Payload.decode from_patina_error
  reply_seen arm (err (remote code message)) = refl
  reply_seen arm (err (wire e)) = refl
  reply_seen arm (err closed) = refl
  reply_seen arm (err (unknown_method m)) = refl
  reply_seen arm (ok ret) = elim (Result-cases (arm.ok_codec.encode_to_vec ret)) [
    | inr (e, bad) ↦ rw bad
    | inl (bytes, enc) ↦
        let back : arm.ok_codec.decode_from_slice bytes ≡ ok (ret, length bytes) =
          decode-encode_whole arm.ok_codec ret bytes enc in
        rw (enc, back, as_seen)
  ]

  -- A method is called on the generated client, its connection is answered by a server to which
  -- the generated service was added last, no earlier method of the trait has its name, and
  -- `bincode` encodes the arguments. Then the user's method runs once, on these arguments and on
  -- the server's state, and the caller sees its result, as `as_seen` says.
  pub proxy_calls_implementation :
      (svc : Service W) (b : ServerBuilder W) (id : ℕ) (front : List (Arm W)) (arm : Arm W)
      (back : List (Arm W)) (args : arm.Args) (bytes : List ℕ) (w : W)
      → svc.arms ≡ front ++ (arm ∷ back)
      → contains arm.method.ident (map (λ a. a.method.ident) front) ≡ false
      → arm.args_codec.encode_to_vec args ≡ ok bytes
      → client_method svc.service arm
          (remote_call (build (add_service (server svc) b)).handlers id)
          args
          w
        ≡ (as_seen arm (arm.implementation args w).0, (arm.implementation args w).1)
  unfolding client_method
  proxy_calls_implementation svc b id front arm back args bytes w split new enc =
      let sent : Payload.encode arm.args_codec args ≡ ok bytes = unfold Payload.encode in rw enc in
      rw (sent, client_method)
        (rw (answered svc b id front arm back bytes w split new) (
          rw (run_arm-encoded arm args bytes w enc)
            (rw (outcome-envelope_for id _) (rw (reply_seen arm (arm.implementation args w).0)))))

  -- A payload arrives for a method of a generated service that was added last, no earlier method
  -- of the trait has its name, and `bincode` does not read it as the method's arguments. The
  -- server answers with an error 400 under the request's id, the user's method does not run, and
  -- the state stays.
  pub malformed_payload_refused :
      (svc : Service W) (b : ServerBuilder W) (id : ℕ) (front : List (Arm W)) (arm : Arm W)
      (back : List (Arm W)) (payload : List ℕ) (x : DecodeError) (w : W)
      → svc.arms ≡ front ++ (arm ∷ back)
      → contains arm.method.ident (map (λ a. a.method.ident) front) ≡ false
      → arm.args_codec.decode_from_slice payload ≡ err x
      → dispatch
          (build (add_service (server svc) b)).handlers
          (record { id = id; method = wire_method_name svc.service arm.method; payload = payload })
          w
        ≡ (error (record { id = id; code = 400; message = text_append "decode: " x.text }), w)
  unfolding run_arm Payload.decode from_patina_error
  malformed_payload_refused svc b id front arm back payload x w split new bad =
      answered svc b id front arm back payload w split new ∙ rw (bad, run_arm)
