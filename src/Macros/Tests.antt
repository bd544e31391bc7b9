-- ===== src/Macros/Tests.antt =====
-- The compile-fail tests of crates/patina-macros/tests/ui: each trait, and the error that the macro
-- gives for it, with the tokens it underlines.
use patina_rpc.Base.{◌≡◌, refl, String, [], ◌∷◌, true, false, none, some, Result, err}
use patina_rpc.Macros.{
  SynType, path, other_type, segment, no_segment, no_arguments, angle_bracketed, type_argument,
  no_argument, ReturnType, returns, FnArg, receiver, TraitItemFn, function, ItemTrait, SynError,
  fn_token, method_tokens, input_arg, ServiceTrait, parse, refuse, parse_method, segment_ident,
}

abbrev shared_self : FnArg
shared_self = receiver (record { reference = some none; mutability = false })

abbrev named : String → SynType
named name = path none (segment name no_arguments no_segment)

-- `Result<(), PatinaError>`
abbrev unit_result : ReturnType
unit_result = returns (
    path none (
      segment "Result"
        (angle_bracketed
          (type_argument (other_type "()") (type_argument (named "PatinaError") no_argument)))
        no_segment))

-- `trait Bad { … }` with one method.
abbrev bad : TraitItemFn → ItemTrait
bad method = record {
  attrs = [];
  vis = "";
  unsafety = false;
  ident = "Bad";
  generics = [];
  where_clause = none;
  supertraits = [];
  items = function method ∷ [];
}

abbrev pub wrong : TraitItemFn
wrong = record {
  constness = false;
  asyncness = true;
  unsafety = false;
  abi = none;
  ident = "wrong";
  generics = [];
  where_clause = none;
  inputs = shared_self ∷ [];
  variadic = none;
  output = returns (named "i32");
  default = none;
}

abbrev pub has_body : TraitItemFn
has_body = record {
  constness = false;
  asyncness = true;
  unsafety = false;
  abi = none;
  ident = "has_body";
  generics = [];
  where_clause = none;
  inputs = shared_self ∷ [];
  variadic = none;
  output = unit_result;
  default = some "{ Ok(()) }";
}

abbrev pub takes_mut : TraitItemFn
takes_mut = record {
  constness = false;
  asyncness = true;
  unsafety = false;
  abi = none;
  ident = "takes_mut";
  generics = [];
  where_clause = none;
  inputs = receiver (record { reference = some none; mutability = true }) ∷ [];
  variadic = none;
  output = unit_result;
  default = none;
}

abbrev pub not_async : TraitItemFn
not_async = record {
  constness = false;
  asyncness = false;
  unsafety = false;
  abi = none;
  ident = "not_async";
  generics = [];
  where_clause = none;
  inputs = shared_self ∷ [];
  variadic = none;
  output = unit_result;
  default = none;
}

-- What the macro makes of a test's item; a `struct` is none that the parser of traits takes.
abbrev expanded : TraitItemFn → Result ServiceTrait SynError
expanded method = parse (λ item. Result.ok item) (bad method)

bad_return :
    expanded wrong
    ≡ refuse (segment_ident "i32") "service methods must return `Result<T, PatinaError>`"
unfolding parse parse_method
bad_return = refl

default_body :
    expanded has_body ≡ refuse (method_tokens has_body) "service methods cannot have a default body"
unfolding parse parse_method
default_body = refl

mut_self :
    expanded takes_mut
    ≡ refuse
        (input_arg (receiver (record { reference = some none; mutability = true })))
        "service methods must take `&self` (not `&mut self` or `self`)"
unfolding parse parse_method
mut_self = refl

non_async_method : expanded not_async ≡ refuse fn_token "service methods must be `async`"
unfolding parse parse_method
non_async_method = refl

not_a_trait :
    (e : SynError)
    → parse {I = String} (λ _. err e) "struct NotATrait;"
      ≡ refuse e.tokens "#[patina::service] may only be applied to a trait"
unfolding parse parse_method
not_a_trait e = refl
