-- ===== src/Macros.antt =====
-- crates/patina-macros/src/model.rs: what the macro `service` accepts, and the model of a trait that
-- it hands on to code generation; and `wire_method_name` of crates/patina-macros/src/expand.rs.
mod Syntax
pub use Syntax.*
pub mod Returns
pub mod Parse
pub mod Expand
pub mod Tests
use Prim.Native.String.{◌++◌ as text_append}
use patina_rpc.Base.{
  String, List, [], ◌∷◌, Bool, false, Option, none, some, Result, ok, err, ◌>>=◌, map_err, ◌==◌,
  string_eq, if◌then◌else◌,
}
use Syntax.{
  SynType, path, other_type, Segments, no_segment, segment, PathArguments, no_arguments,
  angle_bracketed, parenthesized, GenericArguments, no_argument, type_argument, other_argument,
  ReturnType, default_return, returns, ident_pat, other_pat, FnArg, receiver, typed, TraitItemFn,
  TraitItem, function, other_item, ItemTrait, Tokens, fn_token, generics_tokens, item_tokens,
  method_tokens, signature_tokens, input_arg, pat_tokens, return_tokens, type_tokens, segment_ident,
  segment_tokens, argument_tokens, SynError,
}

pub record MethodArg : Type 0 where
  pub name : String
  pub ty : SynType

pub record Method : Type 0 where
  pub ident : String
  pub args : List MethodArg
  pub ok_type : SynType

pub record ServiceTrait : Type 0 where
  pub vis : String
  pub attrs : List String
  pub supertraits : List String
  pub ident : String
  pub methods : List Method

-- `syn::Error::new_spanned`
abbrev pub refuse : {A : Type 0} → Tokens → String → Result A SynError
refuse tokens message = err (record { tokens = tokens; message = message })

-- `segments.last()`
abbrev pub last : Segments → Option (String × PathArguments)
last no_segment = none
last (segment i a no_segment) = some (i, a)
last (segment i a (segment j b rest)) = last (segment j b rest)

-- The arguments that are types.
abbrev pub type_args : GenericArguments → List SynType
type_args no_argument = []
type_args (type_argument t rest) = t ∷ type_args rest
type_args (other_argument _ rest) = type_args rest

abbrev pub last_is_patina_error : Option (String × PathArguments) → Bool
last_is_patina_error none = false
last_is_patina_error (some (i, _)) = i == "PatinaError"

abbrev pub is_patina_error : SynType → Bool
is_patina_error (path _ segments) = last_is_patina_error (last segments)
is_patina_error (other_type _) = false

-- The error of every refusal in `parse_result_ok`.
abbrev pub bad_return : {A : Type 0} → Tokens → Result A SynError
bad_return tokens = refuse tokens "service methods must return `Result<T, PatinaError>`"

abbrev pub ok_type_of : GenericArguments → List SynType → Result SynType SynError
ok_type_of generics (t ∷ e ∷ []) = if is_patina_error e then ok t else bad_return (type_tokens e)
ok_type_of generics _ = bad_return (argument_tokens generics)

abbrev pub of_arguments : String → PathArguments → Result SynType SynError
of_arguments i (angle_bracketed generics) = ok_type_of generics (type_args generics)
of_arguments i no_arguments = bad_return (segment_tokens i no_arguments)
of_arguments i (parenthesized t) = bad_return (segment_tokens i (parenthesized t))

abbrev pub of_last : SynType → Option (String × PathArguments) → Result SynType SynError
of_last ty none = bad_return (type_tokens ty)
of_last ty (some (i, arguments)) =
    if i == "Result" then of_arguments i arguments else bad_return (segment_ident i)

unfoldable pub parse_result_ok : ReturnType → Result SynType SynError
parse_result_ok default_return = bad_return (return_tokens default_return)
parse_result_ok (returns (other_type t)) = bad_return (type_tokens (other_type t))
parse_result_ok (returns (path q segments)) = of_last (path q segments) (last segments)

-- The test of the first argument, and what is left of them.
unfoldable pub parse_receiver : TraitItemFn → List FnArg → Result (List FnArg) SynError
parse_receiver method (receiver r ∷ inputs) = elim r.reference [
  | some _ ↦
      if r.mutability
      then refuse (input_arg (receiver r))
          "service methods must take `&self` (not `&mut self` or `self`)"
      else ok inputs
  | none ↦
      refuse (input_arg (receiver r))
        "service methods must take `&self` (not `&mut self` or `self`)"
]
parse_receiver method _ =
    refuse (signature_tokens method) "service methods must take `&self` as the first argument"

-- The loop over the other arguments.
unfoldable pub parse_args : List FnArg → Result (List MethodArg) SynError
parse_args [] = ok []
parse_args (typed (ident_pat name) ty ∷ inputs) = do
  rest ← parse_args inputs
  ok (record { name = name; ty = ty } ∷ rest)
parse_args (typed (other_pat p) ty ∷ inputs) =
    refuse (pat_tokens (other_pat p)) "service method arguments must be simple identifiers"
parse_args (receiver r ∷ inputs) =
    refuse (input_arg (receiver r)) "unexpected `self` after the first argument"

abbrev pub signature_of : TraitItemFn → Result Method SynError
signature_of method = do
  inputs ← parse_receiver method method.inputs
  args ← parse_args inputs
  ok_type ← parse_result_ok method.output
  ok (record { ident = method.ident; args = args; ok_type = ok_type })

abbrev pub has_no_generics : TraitItemFn → List String → Result Method SynError
has_no_generics method [] = signature_of method
has_no_generics method (g ∷ gs) =
    refuse (generics_tokens (g ∷ gs)) "service methods cannot be generic"

abbrev pub has_no_body : TraitItemFn → Option String → Result Method SynError
has_no_body method none = has_no_generics method method.generics
has_no_body method (some _) =
    refuse (method_tokens method) "service methods cannot have a default body"

-- `Method::parse`
unfoldable pub parse_method : TraitItemFn → Result Method SynError
unfolding parse_receiver parse_args parse_result_ok
parse_method method =
    if method.asyncness
    then has_no_body method method.default
    else refuse fn_token "service methods must be `async`"

-- The loop over the items of the trait.
unfoldable pub parse_items : List TraitItem → Result (List Method) SynError
parse_items [] = ok []
parse_items (function method ∷ items) = do
  m ← parse_method method
  rest ← parse_items items
  ok (m ∷ rest)
parse_items (other_item t ∷ items) =
    refuse (item_tokens (other_item t)) "#[patina::service] traits may only contain methods"

abbrev pub trait_of : ItemTrait → List String → Result ServiceTrait SynError
trait_of item [] = do
  methods ← parse_items item.items
  ok (record {
    vis = item.vis;
    attrs = item.attrs;
    supertraits = item.supertraits;
    ident = item.ident;
    methods = methods;
  })
trait_of item (g ∷ gs) =
    refuse (generics_tokens (g ∷ gs)) "#[patina::service] traits cannot be generic"

-- `ServiceTrait::parse`; `parse2` is the parser of the `syn` crate for a trait.
unfoldable pub parse :
    {I : Type 0} → (I → Result ItemTrait SynError) → I → Result ServiceTrait SynError
unfolding parse_items
parse parse2 input = do
  item ←
      map_err
        (λ e. record {
          tokens = e.tokens;
          message = "#[patina::service] may only be applied to a trait";
        })
        (parse2 input)
  trait_of item item.generics

unfoldable pub wire_method_name : ServiceTrait → Method → String
wire_method_name service method = text_append service.ident (text_append "::" method.ident)
