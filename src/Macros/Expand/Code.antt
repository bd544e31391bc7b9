-- ===== src/Macros/Expand/Code.antt =====
-- The Rust code that crates/patina-macros/src/expand.rs quotes, as syntax trees.
use patina_rpc.Base.{ℕ, String, List, Bool}
use patina_rpc.Macros.{SynType, MethodArg}

-- `encode` and `decode` are those of `__private`; `inner_call e f` is `self.inner.call(e, f)`,
-- `inner_method m xs` is `self.inner.m(xs, …)`, and `question e` is `e?`. `connect e` is
-- `Client::connect(e)`, `self_with e` is `Self { inner: e }`, `ok_value e` is `Ok(e)`, and
-- `handler_error n s x` is `Err(HandlerError::new(n, format!(…)))`, whose text is `s` and then `x`.
pub data Expr : Type 0 where
  var : String → Expr
  literal : String → Expr
  tuple : List String → Expr
  ref : Expr → Expr
  encode : Expr → Expr
  decode : Expr → Expr
  inner_call : Expr → Expr → Expr
  inner_method : String → List String → Expr
  await : Expr → Expr
  question : Expr → Expr
  map_err_into : Expr → Expr
  connect : Expr → Expr
  arc_new : Expr → Expr
  self_with : Expr → Expr
  ok_value : Expr → Expr
  handler_error : ℕ → String → String → Expr

-- `let x = e;` and `let (xs, …): (types, …) = e;`
pub data Stmt : Type 0 where
  let_var : String → Expr → Stmt
  let_tuple : List String → List SynType → Expr → Stmt

pub record Block : Type 0 where
  pub stmts : List Stmt
  pub value : Expr

-- `Result<Ok, PatinaError>`, and `impl Future<Output = Result<Ok, PatinaError>> + Send`
pub data Output : Type 0 where
  result_output : SynType → Output
  future_output : SynType → Output

-- The type of the field `inner`: `Arc<Client>` or `Arc<S>`.
pub data InnerType : Type 0 where
  arc_of_client : InnerType
  arc_of_param : String → InnerType

pub record FnSig : Type 0 where
  pub is_async : Bool
  pub ident : String
  pub params : List MethodArg
  pub output : Output

pub record TraitDef : Type 0 where
  pub attrs : List String
  pub vis : String
  pub ident : String
  pub supertraits : List String
  pub sigs : List FnSig

pub record ClientMethod : Type 0 where
  pub sig : FnSig
  pub body : Block

-- `[Trait]Client`: the type of its field, the parameter and the bodies of `connect` and
-- `from_client`, and its implementation of the trait.
pub record ClientDef : Type 0 where
  pub vis : String
  pub ident : String
  pub inner : InnerType
  pub connect_param : String
  pub connect : Block
  pub from_client_param : String
  pub from_client : Block
  pub trait_ident : String
  pub methods : List ClientMethod

pub record Arm : Type 0 where
  pub pattern : String
  pub body : Block

-- `[Trait]Server<S>`: its field, `new`, the bounds of `S` for `new` and for `PatinaService`, what
-- `method_names` returns, the arms of `dispatch`, and its last arm with the variable that it binds.
pub record ServerDef : Type 0 where
  pub vis : String
  pub ident : String
  pub inner : InnerType
  pub new_param : String
  pub new : Block
  pub new_bounds : List String
  pub service_bounds : List String
  pub method_names : List String
  pub arms : List Arm
  pub other_pattern : String
  pub other_value : Expr

pub record Expansion : Type 0 where
  pub trait_def : TraitDef
  pub client : ClientDef
  pub server : ServerDef
