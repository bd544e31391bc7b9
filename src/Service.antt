-- ===== src/Service.antt =====
-- What the code means that crates/patina-macros/src/expand.rs generates for a trait: the methods of
-- its client and its server. Types and methods of the user's code are parameters.
pub mod Proxy
pub mod Remote
use Prim.Native.String.{◌++◌ as text_append}
use patina_rpc.Base.{
  ℕ, String, ◌≡◌, List, [], ◌∷◌, map, true, false, Result, ok, err, ◌>>=◌, map_err, ◌==◌, string_eq,
}
use patina_rpc.Error.{PatinaError}
use patina_rpc.Codec.{Bincode}
use patina_rpc.Payload
use patina_rpc.Macros.{Method, ServiceTrait, wire_method_name}
use patina_rpc.Server.{Reply, new_handler_error, from_patina_error, PatinaService}
use patina_rpc.Client.{Outcome}

-- A method with the types of its arguments, as one tuple, and of its result, how `bincode` writes
-- them, and the user's implementation, on the state `W` that handlers share.
pub record Arm (W : Type 0) : Type 1 where
  pub method : Method
  pub Args : Type 0
  pub Ok : Type 0
  pub args_codec : Bincode Args
  pub ok_codec : Bincode Ok
  pub implementation : Args → W → Result Ok PatinaError × W

-- A trait with an implementation of each of its methods.
pub record Service (W : Type 0) : Type 1 where
  pub service : ServiceTrait
  pub arms : List (Arm W)
  pub arms_lem : map (λ arm. arm.method) arms ≡ service.methods

module _ {W : Type 0} where
  -- One arm of the generated `match`.
  unfoldable pub run_arm : Arm W → List ℕ → W → Reply × W
  unfolding Payload.decode Payload.encode
  run_arm arm payload w = elim (Payload.decode arm.args_codec payload) [
    | err e ↦ (err (from_patina_error e), w)
    | ok args ↦
        let (ret, w') = arm.implementation args w in
        (map_err from_patina_error (ret >>= Payload.encode arm.ok_codec), w')
  ]

  unfoldable pub dispatch_arms : ServiceTrait → List (Arm W) → String → List ℕ → W → Reply × W
  dispatch_arms service [] method payload w =
      (err (new_handler_error 404 (text_append "unknown method: " method)), w)
  dispatch_arms service (arm ∷ arms) method payload w =
      elim (wire_method_name service arm.method == method) [
        | true ↦ run_arm arm payload w
        | false ↦ dispatch_arms service arms method payload w
      ]

  -- `[Trait]Server`, as a `PatinaService`
  unfoldable pub server : Service W → PatinaService W
  server svc = record {
    method_names = map (wire_method_name svc.service) svc.service.methods;
    dispatch = dispatch_arms svc.service svc.arms;
  }

  -- A method of `[Trait]Client`; `call` is the `call` of its connection.
  unfoldable pub client_method :
      ServiceTrait
      → (arm : Arm W) → (String → List ℕ → W → Outcome × W)
      → arm.Args
      → W
      → Result arm.Ok PatinaError × W
  unfolding Payload.decode Payload.encode
  client_method service arm call args w = elim (Payload.encode arm.args_codec args) [
    | err e ↦ (err e, w)
    | ok payload ↦
        let (response, w') = call (wire_method_name service arm.method) payload w in
        (response >>= Payload.decode arm.ok_codec, w')
  ]
