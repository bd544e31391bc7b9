-- ===== src/Macros/Expand.antt =====
-- crates/patina-macros/src/expand.rs: the code that the macro writes for a trait, as a syntax tree:
-- the trait itself, the client that implements it, and the server.
mod Code
pub use Code.*
pub mod Typing
pub mod Obligations
pub mod WellTyped
use Prim.Native.String.{◌++◌ as text_append}
use patina_rpc.Base.{String, List, [], ◌∷◌, map, true, false, Result, ok, ◌>>=◌}
use patina_rpc.Macros.{ItemTrait, SynError, parse, Method, ServiceTrait, wire_method_name}
use Code.{
  var, literal, tuple, ref, encode, decode, inner_call, inner_method, await, question, map_err_into,
  connect, arc_new, self_with, ok_value, handler_error, arc_of_client, arc_of_param, let_var,
  let_tuple, result_output, future_output, FnSig, TraitDef, ClientMethod, ClientDef, Arm, ServerDef,
  Expansion,
}

abbrev pub arg_names : Method → List String
arg_names method = map (λ arg. arg.name) method.args

-- `fn name(&self, …) -> impl Future<Output = Result<Ok, PatinaError>> + Send;`
unfoldable pub trait_sig : Method → FnSig
trait_sig method = record {
  is_async = false;
  ident = method.ident;
  params = method.args;
  output = future_output method.ok_type;
}

-- Without supertraits it is written without their colon.
unfoldable pub expand_trait : ServiceTrait → TraitDef
expand_trait service = record {
  attrs = service.attrs;
  vis = service.vis;
  ident = service.ident;
  supertraits = service.supertraits;
  sigs = map trait_sig service.methods;
}

-- A method of the proxy.
unfoldable pub client_fn : ServiceTrait → Method → ClientMethod
client_fn service method = record {
  sig = record {
    is_async = true;
    ident = method.ident;
    params = method.args;
    output = result_output method.ok_type;
  };
  body = record {
    stmts =
        let_var "__payload" (question (encode (ref (tuple (arg_names method)))))
        ∷ let_var "__response" (
            question
              (await (inner_call (literal (wire_method_name service method)) (var "__payload"))))
        ∷ [];
    value = decode (ref (var "__response"));
  };
}

unfoldable pub expand_client : ServiceTrait → ClientDef
expand_client service = record {
  vis = service.vis;
  ident = text_append service.ident "Client";
  inner = arc_of_client;
  connect_param = "addr";
  connect = record {
    stmts = let_var "__client" (question (await (connect (var "addr")))) ∷ [];
    value = ok_value (self_with (arc_new (var "__client")));
  };
  from_client_param = "inner";
  from_client = record { stmts = []; value = self_with (var "inner") };
  trait_ident = service.ident;
  methods = map (client_fn service) service.methods;
}

-- An arm of the server's `match`.
unfoldable pub dispatch_arm : ServiceTrait → Method → Arm
dispatch_arm service method = record {
  pattern = wire_method_name service method;
  body = record {
    stmts =
        let_tuple (arg_names method) (map (λ arg. arg.ty) method.args)
          (question (decode (ref (var "payload"))))
        ∷ let_var "__ret" (question (await (inner_method method.ident (arg_names method))))
        ∷ [];
    value = map_err_into (encode (ref (var "__ret")));
  };
}

unfoldable pub expand_server : ServiceTrait → ServerDef
expand_server service = record {
  vis = service.vis;
  ident = text_append service.ident "Server";
  inner = arc_of_param "__S";
  new_param = "inner";
  new = record { stmts = []; value = self_with (arc_new (var "inner")) };
  new_bounds = service.ident ∷ [];
  service_bounds = service.ident ∷ "::core::marker::Send" ∷ "::core::marker::Sync" ∷ "'static" ∷ [];
  method_names = map (wire_method_name service) service.methods;
  arms = map (dispatch_arm service) service.methods;
  other_pattern = "__unknown";
  other_value = handler_error 404 "unknown method: " "__unknown";
}

unfoldable pub expand : ServiceTrait → Expansion
expand service = record {
  trait_def = expand_trait service;
  client = expand_client service;
  server = expand_server service;
}

-- crates/patina-macros/src/lib.rs: the macro `service`, whose error becomes a `compile_error!`.
unfoldable pub service :
    {I : Type 0} → (I → Result ItemTrait SynError) → I → Result Expansion SynError
service parse2 item = do model ← parse parse2 item; ok (expand model)
