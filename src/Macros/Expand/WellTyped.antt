-- ===== src/Macros/Expand/WellTyped.antt =====
-- What crates/patina-macros/src/expand.rs generates is well typed.
use mathlib.Core.List.{Memᴰ}
use mathlib.Core.List.Memᴰ.{head, tail}
use text.Mathlib.TextEquality.{eq_iff}
use patina_rpc.Base.{
  All, String, ◌≡◌, refl, ap, List, [], ◌∷◌, map, false, some, lookup, string_eq, All-map, Mem-map,
  arith,
}
use patina_rpc.Server.Registry.{contains}
use patina_rpc.Macros.{SynType, MethodArg, Method, ServiceTrait, wire_method_name}
use patina_rpc.Macros.Expand.{
  service, trait_sig, expand_trait, client_fn, expand_client, dispatch_arm, expand_server, expand,
}
use patina_rpc.Macros.Expand.Typing.{
  UserTypes, RustType, user, Scope, AreTyped, no_vars, one_more, var_type, literal_type, tuple_type,
  ref_type, encode_type, decode_type, call_of_client, call_of_method, await_type, question_type,
  map_err_into_type, connect_type, arc_new_type, self_with_type, ok_type, handler_error_type,
  bind_all, value_typed, let_typed, tuple_typed, same_error, to_handler_error,
}
use patina_rpc.Macros.Expand.Obligations.{
  Implement, Agree, remote_here, remote_later, method_here, method_later, AreDistinct, IsUsable,
  dispatch_scope, IsTypedMethod, IsTypedArm, IsWellTyped,
}

-- A variable that is bound last hides none of the others.
AreTyped-hide :
    (y : String) (u : RustType) (scope : Scope) (xs : List String) (ts : List SynType)
    → contains y xs ≡ false
    → AreTyped scope xs ts
    → AreTyped ((y, u) ∷ scope) xs ts
unfolding lookup
AreTyped-hide y u scope [] [] new no_vars = no_vars
AreTyped-hide y u scope [] (t ∷ ts) new h = elim h [ ]
AreTyped-hide y u scope (x ∷ xs) [] new h = elim h [ ]
AreTyped-hide y u scope (x ∷ xs) (t ∷ ts) new (one_more at rest) =
    one_more (ground (arith, at, new, eq_iff x y, eq_iff y x))
      (AreTyped-hide y u scope xs ts (ground (arith, new)) rest)

lookup_bound : (x : String) (u : RustType) (scope : Scope) → lookup x ((x, u) ∷ scope) ≡ some u
unfolding lookup
lookup_bound x u scope = ground (arith, eq_iff x x)

bound_all :
    (args : List MethodArg) (scope : Scope)
    → AreDistinct (map (λ arg. arg.name) args)
    → AreTyped
        (bind_all (map (λ arg. arg.name) args) (map (λ arg. arg.ty) args) scope)
        (map (λ arg. arg.name) args)
        (map (λ arg. arg.ty) args)
bound_all [] scope d = no_vars
bound_all (arg ∷ args) scope (new, d) = one_more (lookup_bound arg.name (user arg.ty) _) (
    AreTyped-hide arg.name (user arg.ty)
      (bind_all (map (λ a. a.name) args) (map (λ a. a.ty) args) scope) (map (λ a. a.name) args)
      (map (λ a. a.ty) args) new (bound_all args scope d))

methods-Implement :
    (service : ServiceTrait) (ms : List Method)
    → Implement (map (λ m. m.sig) (map (client_fn service) ms)) (map trait_sig ms)
unfolding client_fn trait_sig
methods-Implement service [] = tt
methods-Implement service (m ∷ ms) = ((refl, refl, refl), methods-Implement service ms)

client_fn-IsTypedMethod :
    (types : UserTypes) (service : ServiceTrait) (m : Method)
    → IsUsable types (trait_sig m)
    → IsTypedMethod types (expand_trait service) (client_fn service m)
unfolding client_fn trait_sig lookup
client_fn-IsTypedMethod types service m u = (
  u.sent,
  let_typed
      (question_type
        (encode_type (ref_type (tuple_type (bound_all m.args [] u.names))) (u.written, u.count))
        (same_error _))
      (let_typed
        (question_type (await_type (call_of_client refl literal_type (var_type refl)))
          (same_error _))
        (value_typed (decode_type (ref_type (var_type refl)) u.result_read))),
)

dispatch_arm-IsTypedArm :
    (types : UserTypes) (service : ServiceTrait) (m : Method)
    → Memᴰ m service.methods
    → IsUsable types (trait_sig m)
    → IsTypedArm types (expand_trait service) (dispatch_arm service m)
unfolding dispatch_arm expand_trait trait_sig lookup
dispatch_arm-IsTypedArm types service m here u =
    tuple_typed
      (question_type (decode_type (ref_type (var_type refl)) (u.read, u.count)) to_handler_error)
      (let_typed
        (question_type
          (await_type (
            call_of_method (trait_sig m) refl (Mem-map trait_sig m service.methods here)
              (bound_all m.args dispatch_scope u.names)))
          to_handler_error)
        (value_typed (
          map_err_into_type (encode_type (ref_type (var_type refl)) u.result_written)
            to_handler_error)))

patterns_named :
    (service : ServiceTrait) (ms : List Method)
    → map (λ arm. arm.pattern) (map (dispatch_arm service) ms) ≡ map (wire_method_name service) ms
unfolding dispatch_arm
patterns_named service [] = refl
patterns_named service (m ∷ ms) =
    ap (λ l. wire_method_name service m ∷ l) (patterns_named service ms)

sides-Agree :
    (service : ServiceTrait) (ms : List Method)
    → Agree (map trait_sig ms) (map (client_fn service) ms) (map (dispatch_arm service) ms)
unfolding client_fn dispatch_arm trait_sig
sides-Agree service [] = tt
sides-Agree service (m ∷ ms) =
    (remote_later remote_here, method_later method_here, sides-Agree service ms)

pub expand-IsWellTyped :
    (types : UserTypes) (service : ServiceTrait)
    → ((m : Method) → Memᴰ m service.methods → IsUsable types (trait_sig m))
    → All types.IsMetByClient service.supertraits
    → AreDistinct (map (λ sig. sig.ident) (map trait_sig service.methods))
    → IsWellTyped types (expand service)
unfolding expand expand_trait expand_client expand_server lookup
expand-IsWellTyped types service usable met distinct = record {
  implements = methods-Implement service service.methods;
  for_trait = refl;
  inners = (refl, refl);
  connect_typed = λ address.
      let_typed (question_type (await_type (connect_type (var_type refl))) (same_error _))
        (value_typed (ok_type (self_with_type (arc_new_type (var_type refl)))));
  from_client_typed = value_typed (self_with_type (var_type refl));
  new_typed = value_typed (self_with_type (arc_new_type (var_type refl)));
  bounds = (
    head refl,
    head refl,
    tail (head refl),
    tail (tail (head refl)),
    tail (tail (tail (head refl))),
  );
  supertraits_met = met;
  methods_distinct = distinct;
  agree = sides-Agree service service.methods;
  other_typed = handler_error_type refl;
  methods_typed =
      All-map (IsTypedMethod types (expand_trait service)) (client_fn service) service.methods
        (λ m here. client_fn-IsTypedMethod types service m (usable m here));
  arms_typed =
      All-map (IsTypedArm types (expand_trait service)) (dispatch_arm service) service.methods
        (λ m here. dispatch_arm-IsTypedArm types service m here (usable m here));
  names_matched = patterns_named service service.methods;
}
