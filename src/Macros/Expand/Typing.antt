-- ===== src/Macros/Expand/Typing.antt =====
-- When the generated code is well typed: the rules of Rust that the quotes of
-- crates/patina-macros/src/expand.rs have to meet, and the signatures of what they call.
use mathlib.Core.List.{Memᴰ}
use patina_rpc.Base.{
  All, length, ◌≤◌, ℕ, String, ◌≡◌, List, [], ◌∷◌, map, Bool, true, false, some, Assoc, lookup,
  string_eq,
}
use patina_rpc.Macros.{SynType}
use patina_rpc.Macros.Expand.{
  Expr, var, literal, tuple, ref, encode, decode, inner_call, inner_method, await, question,
  map_err_into, connect, arc_new, self_with, ok_value, handler_error, InnerType, arc_of_client,
  arc_of_param, Stmt, let_var, let_tuple, Output, result_output, future_output, FnSig, TraitDef,
}

pub data ErrorType : Type 0 where
  patina_error handling_error : ErrorType

pub data RustType : Type 0 where
  user : SynType → RustType
  tuple_of : List SynType → RustType
  vec_u8 str client : RustType
  -- A type parameter, and `Self`.
  param : String → RustType
  self_type : RustType
  arc : RustType → RustType
  reference : RustType → RustType
  result_of : RustType → ErrorType → RustType
  future : RustType → RustType

-- The error conversions that `?` and `Into::into` may use: none, or `From<PatinaError> for
-- HandlerError`.
pub data Converts : ErrorType → ErrorType → Type 0 where
  same_error : (e : ErrorType) → Converts e e
  to_handler_error : Converts patina_error handling_error

-- The variables in scope, the last bound first.
abbrev pub Scope : Type 0
Scope = Assoc String RustType

abbrev pub output_type : Output → RustType
output_type (result_output ok) = result_of (user ok) patina_error
output_type (future_output ok) = future (result_of (user ok) patina_error)

abbrev async_type : Bool → RustType → RustType
async_type true t = future t
async_type false t = t

-- The type of a call of a function.
abbrev pub call_type : FnSig → RustType
call_type sig = async_type sig.is_async (output_type sig.output)

-- Variables, with their types.
pub data AreTyped (scope : Scope) : List String → List SynType → Type 0 where
  no_vars : AreTyped scope [] []
  one_more :
      {x : String} {xs : List String} {t : SynType} {ts : List SynType}
      → lookup x scope ≡ some (user t)
      → AreTyped scope xs ts
      → AreTyped scope (x ∷ xs) (t ∷ ts)

-- Which of the traits that the generated code asks for the user's types implement, and which
-- supertraits the generated client meets; the code that decides this is the user's.
pub record UserTypes : Type 1 where
  pub IsSerialize : SynType → Type 0
  pub IsDeserializeOwned : SynType → Type 0
  pub IsSend : SynType → Type 0
  pub IsMetByClient : String → Type 0

-- Where a function stands: the trait, the type of `self.inner`, and the error type of the function.
pub record Place : Type 1 where
  pub types : UserTypes
  pub trait_def : TraitDef
  pub inner : InnerType
  pub fails : ErrorType

-- What serde can write and read: a tuple only up to 16 parts.
abbrev pub Serializes : UserTypes → RustType → Type 0
Serializes types (user t) = types.IsSerialize t
Serializes types (tuple_of ts) = All types.IsSerialize ts × (length ts ≤ 16)
Serializes types _ = ⊥

abbrev pub Deserializes : UserTypes → RustType → Type 0
Deserializes types (user t) = types.IsDeserializeOwned t
Deserializes types (tuple_of ts) = All types.IsDeserializeOwned ts × (length ts ≤ 16)
Deserializes types _ = ⊥

abbrev pub inner_type : InnerType → RustType
inner_type arc_of_client = arc client
inner_type (arc_of_param s) = arc (param s)

-- Expressions. A method of the user's service is one of the trait; that an address can be resolved
-- is left to the compiler.
pub data HasType (place : Place) (scope : Scope) : Expr → RustType → Type 0 where
  var_type : {x : String} {t : RustType} → lookup x scope ≡ some t → HasType place scope (var x) t
  literal_type : {x : String} → HasType place scope (literal x) str
  tuple_type :
      {xs : List String} {ts : List SynType}
      → AreTyped scope xs ts
      → HasType place scope (tuple xs) (tuple_of ts)
  ref_type :
      {e : Expr} {t : RustType}
      → HasType place scope e t
      → HasType place scope (ref e) (reference t)
  encode_type :
      {e : Expr} {t : RustType}
      → HasType place scope e (reference t)
      → Serializes place.types t
      → HasType place scope (encode e) (result_of vec_u8 patina_error)
  decode_type :
      {e : Expr} {t : RustType}
      → HasType place scope e (reference vec_u8)
      → Deserializes place.types t
      → HasType place scope (decode e) (result_of t patina_error)
  call_of_client :
      {e f : Expr}
      → place.inner ≡ arc_of_client
      → HasType place scope e str
      → HasType place scope f vec_u8
      → HasType place scope (inner_call e f) (future (result_of vec_u8 patina_error))
  call_of_method :
      {xs : List String} {s : String} (sig : FnSig)
      → place.inner ≡ arc_of_param s
      → Memᴰ sig place.trait_def.sigs
      → AreTyped scope xs (map (λ arg. arg.ty) sig.params)
      → HasType place scope (inner_method sig.ident xs) (call_type sig)
  await_type :
      {e : Expr} {t : RustType} → HasType place scope e (future t) → HasType place scope (await e) t
  question_type :
      {e : Expr} {t : RustType} {x : ErrorType}
      → HasType place scope e (result_of t x)
      → Converts x place.fails
      → HasType place scope (question e) t
  map_err_into_type :
      {e : Expr} {t : RustType} {x y : ErrorType}
      → HasType place scope e (result_of t x)
      → Converts x y
      → HasType place scope (map_err_into e) (result_of t y)
  connect_type :
      {e : Expr} {t : RustType}
      → HasType place scope e t
      → HasType place scope (connect e) (future (result_of client patina_error))
  arc_new_type :
      {e : Expr} {t : RustType} → HasType place scope e t → HasType place scope (arc_new e) (arc t)
  self_with_type :
      {e : Expr}
      → HasType place scope e (inner_type place.inner)
      → HasType place scope (self_with e) self_type
  ok_type :
      {e : Expr} {t : RustType}
      → HasType place scope e t
      → HasType place scope (ok_value e) (result_of t place.fails)
  handler_error_type :
      {n : ℕ} {text x : String} {t : RustType}
      → lookup x scope ≡ some (reference str)
      → HasType place scope (handler_error n text x) (result_of t handling_error)

-- The variables of a pattern, bound to the parts of a tuple.
abbrev pub bind_all : List String → List SynType → Scope → Scope
bind_all [] ts scope = scope
bind_all (x ∷ xs) [] scope = scope
bind_all (x ∷ xs) (t ∷ ts) scope = (x, user t) ∷ bind_all xs ts scope

-- The body of a function that returns `t`.
pub data Returns (place : Place) (t : RustType) : Scope → List Stmt → Expr → Type 0 where
  value_typed : {scope : Scope} {e : Expr} → HasType place scope e t → Returns place t scope [] e
  let_typed :
      {scope : Scope} {x : String} {e value : Expr} {u : RustType} {rest : List Stmt}
      → HasType place scope e u
      → Returns place t ((x, u) ∷ scope) rest value
      → Returns place t scope (let_var x e ∷ rest) value
  tuple_typed :
      {scope : Scope} {xs : List String} {ts : List SynType} {e value : Expr} {rest : List Stmt}
      → HasType place scope e (tuple_of ts)
      → Returns place t (bind_all xs ts scope) rest value
      → Returns place t scope (let_tuple xs ts e ∷ rest) value
