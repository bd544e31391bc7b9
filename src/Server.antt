-- ===== src/Server.antt =====
-- crates/patina-rpc/src/server.rs: handlers, their registration, and the reply to one request.
-- `W` is the state that handlers share with the rest of the program: a handler, `&self` included,
-- is a function of the payload and that state. Its run is one step here.
pub mod Registry
pub mod Connection
pub mod Accept
use Prim.Native.String.{◌++◌ as text_append}
use mathlib.Core.List.{foldl}
use patina_rpc.Base.{
  ℕ, String, List, [], Assoc, none, some, Result, ok, err, lookup, insert, string_eq,
}
use patina_rpc.Envelope.{Envelope, RequestData, response, error}
use patina_rpc.Error.{PatinaError, remote, patina_error_to_string}

abbrev pub unknown_method_code : ℕ
unknown_method_code = 404

abbrev pub writer_channel_capacity : ℕ
writer_channel_capacity = 128

pub record HandlerError : Type 0 where
  pub code : ℕ
  pub message : String

abbrev pub new_handler_error : ℕ → String → HandlerError
new_handler_error code message = record { code = code; message = message }

-- `impl From<PatinaError> for HandlerError`
unfoldable pub from_patina_error : PatinaError → HandlerError
from_patina_error (remote code message) = record { code = code; message = message }
from_patina_error other = record { code = 500; message = patina_error_to_string other }

abbrev pub Reply : Type 0
Reply = Result (List ℕ) HandlerError

-- The trait `Handler`
pub record Handler (W : Type 0) : Type 0 where
  pub handle : List ℕ → W → Reply × W

-- `FnHandler` and its adapter `handler_fn`
abbrev pub handler_fn : {W : Type 0} → (List ℕ → W → Reply × W) → Handler W
handler_fn f = record { handle = f }

-- The trait `PatinaService`
pub record PatinaService (W : Type 0) : Type 0 where
  pub method_names : List String
  pub dispatch : String → List ℕ → W → Reply × W

abbrev pub service_method_handler : {W : Type 0} → PatinaService W → String → Handler W
service_method_handler svc method = record { handle = λ payload w. svc.dispatch method payload w }

pub record Server (W : Type 0) : Type 0 where
  pub handlers : Assoc String (Handler W)

pub record ServerBuilder (W : Type 0) : Type 0 where
  pub handlers : Assoc String (Handler W)

-- The envelope for a handler's result.
abbrev pub envelope_for : ℕ → Reply → Envelope
envelope_for id (ok bytes) = response (record { id = id; payload = bytes })
envelope_for id (err e) = error (record { id = id; code = e.code; message = e.message })

module _ {W : Type 0} where
  unfoldable pub builder : ServerBuilder W
  builder = record { handlers = [] }

  unfoldable pub register : String → Handler W → ServerBuilder W → ServerBuilder W
  register method handler b = record { handlers = insert method handler b.handlers }

  -- One round of the loop in `add_service`.
  abbrev pub add_method :
      PatinaService W → Assoc String (Handler W) → String → Assoc String (Handler W)
  add_method svc handlers name = insert name (service_method_handler svc name) handlers

  unfoldable pub add_service : PatinaService W → ServerBuilder W → ServerBuilder W
  add_service svc b = record { handlers = foldl (add_method svc) b.handlers svc.method_names }

  unfoldable pub build : ServerBuilder W → Server W
  build b = record { handlers = b.handlers }

  unfoldable pub dispatch : Assoc String (Handler W) → RequestData → W → Envelope × W
  dispatch handlers req w = elim (lookup req.method handlers) [
    | some handler ↦
        let (reply, w') = handler.handle req.payload w in (envelope_for req.id reply, w')
    | none ↦ (
      error (record {
        id = req.id;
        code = unknown_method_code;
        message = text_append "unknown method: " req.method;
      }),
      w,
    )
  ]
