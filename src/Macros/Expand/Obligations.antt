-- ===== src/Macros/Expand/Obligations.antt =====
-- What the code that crates/patina-macros/src/expand.rs generates for a trait has to meet.
use mathlib.Core.List.{Memᴰ}
use patina_rpc.Server.Registry.{contains}
use patina_rpc.Base.{false, length, ◌≤◌, String, ◌≡◌, List, [], ◌∷◌, map, string_eq, All}
use patina_rpc.Macros.{SynType, MethodArg, Method, ServiceTrait}
use patina_rpc.Macros.Expand.{
  Expr, literal, inner_call, inner_method, await, question, Stmt, let_var, arc_of_client,
  arc_of_param, Block, Output, result_output, future_output, FnSig, TraitDef, ClientMethod, Arm,
  Expansion,
}
use patina_rpc.Macros.Expand.Typing.{
  UserTypes, RustType, user, vec_u8, str, param, self_type, result_of, reference, patina_error,
  handling_error, Scope, Place, call_type, inner_type, HasType, bind_all, Returns,
}

-- A method of an implementation has the name and the parameters that the trait says, and a call of
-- it has the type that the trait says.
abbrev pub IsImplementationOf : FnSig → FnSig → Type 0
IsImplementationOf sig declared =
    (sig.ident ≡ declared.ident)
    × (sig.params ≡ declared.params)
    × (call_type sig ≡ call_type declared)

-- The methods of an implementation are those of the trait, one for one.
abbrev pub Implement : List FnSig → List FnSig → Type 0
Implement [] [] = Unit {0}
Implement (x ∷ xs) (y ∷ ys) = IsImplementationOf x y × Implement xs ys
Implement _ _ = ⊥

abbrev pub params_scope : List MethodArg → Scope
params_scope args = bind_all (map (λ arg. arg.name) args) (map (λ arg. arg.ty) args) []

abbrev pub in_client : UserTypes → TraitDef → Place
in_client types trait_def = record {
  types = types;
  trait_def = trait_def;
  inner = arc_of_client;
  fails = patina_error;
}

abbrev pub in_server : UserTypes → TraitDef → String → Place
in_server types trait_def s = record {
  types = types;
  trait_def = trait_def;
  inner = arc_of_param s;
  fails = handling_error;
}

abbrev pub BlockReturns : Place → RustType → Scope → Block → Type 0
BlockReturns place t scope body = Returns place t scope body.stmts body.value

-- The body of a client's method returns what its signature says.
abbrev pub BodyReturns : UserTypes → TraitDef → Output → List MethodArg → Block → Type 0
BodyReturns types trait_def (result_output ok) params body =
    BlockReturns (in_client types trait_def) (result_of (user ok) patina_error)
      (params_scope params) body
BodyReturns types trait_def (future_output ok) params body = ⊥

-- Its future is `Send`, as the trait asks: the arguments that it holds are.
abbrev pub IsTypedMethod : UserTypes → TraitDef → ClientMethod → Type 0
IsTypedMethod types trait_def m =
    All types.IsSend (map (λ arg. arg.ty) m.sig.params)
    × BodyReturns types trait_def m.sig.output m.sig.params m.body

-- The parameters of `dispatch`, and what it returns.
abbrev pub dispatch_scope : Scope
dispatch_scope = ("method", reference str) ∷ ("payload", vec_u8) ∷ []

abbrev pub dispatched : RustType
dispatched = result_of vec_u8 handling_error

abbrev pub IsTypedArm : UserTypes → TraitDef → Arm → Type 0
IsTypedArm types trait_def arm =
    BlockReturns (in_server types trait_def "__S") dispatched dispatch_scope arm.body

-- The statements have a call of the client under the name `n`, or of the service's method `n`.
pub data CallsRemote (n : String) : List Stmt → Type 0 where
  remote_here :
      {x : String} {e : Expr} {rest : List Stmt}
      → CallsRemote n (let_var x (question (await (inner_call (literal n) e))) ∷ rest)
  remote_later : {s : Stmt} {rest : List Stmt} → CallsRemote n rest → CallsRemote n (s ∷ rest)

pub data CallsMethod (n : String) : List Stmt → Type 0 where
  method_here :
      {x : String} {xs : List String} {rest : List Stmt}
      → CallsMethod n (let_var x (question (await (inner_method n xs))) ∷ rest)
  method_later : {s : Stmt} {rest : List Stmt} → CallsMethod n rest → CallsMethod n (s ∷ rest)

-- For each method of the trait, in order: the client's method calls the server under the name that
-- the server's arm matches, and the arm calls that method of the service.
abbrev pub Agree : List FnSig → List ClientMethod → List Arm → Type 0
Agree [] [] [] = Unit {0}
Agree (sig ∷ sigs) (m ∷ ms) (arm ∷ arms) =
    CallsRemote arm.pattern m.body.stmts × CallsMethod sig.ident arm.body.stmts × Agree sigs ms arms
Agree _ _ _ = ⊥

-- No name stands twice.
abbrev pub AreDistinct : List String → Type 0
AreDistinct [] = Unit {0}
AreDistinct (x ∷ xs) = (contains x xs ≡ false) × AreDistinct xs

abbrev pub ok_of : Output → SynType
ok_of (result_output ok) = ok
ok_of (future_output ok) = ok

-- What a signature has to meet for the generated code to compile, and the macro does not look at:
-- at most 16 parameters, of different names, whose types cross threads and the wire; and a result
-- that crosses the wire.
pub record IsUsable (types : UserTypes) (sig : FnSig) : Type 0 where
  pub names : AreDistinct (map (λ arg. arg.name) sig.params)
  pub count : length (map (λ arg. arg.ty) sig.params) ≤ 16
  pub sent : All types.IsSend (map (λ arg. arg.ty) sig.params)
  pub written : All types.IsSerialize (map (λ arg. arg.ty) sig.params)
  pub read : All types.IsDeserializeOwned (map (λ arg. arg.ty) sig.params)
  pub result_written : types.IsSerialize (ok_of sig.output)
  pub result_read : types.IsDeserializeOwned (ok_of sig.output)

-- The method's signature without `async`, and with a future that is `Send`.
abbrev pub IsSignatureOf : Method → FnSig → Type 0
IsSignatureOf m sig =
    (sig.is_async ≡ false)
    × (sig.ident ≡ m.ident)
    × (sig.params ≡ m.args)
    × (sig.output ≡ future_output m.ok_type)

abbrev pub AreSignaturesOf : List Method → List FnSig → Type 0
AreSignaturesOf [] [] = Unit {0}
AreSignaturesOf (m ∷ ms) (sig ∷ sigs) = IsSignatureOf m sig × AreSignaturesOf ms sigs
AreSignaturesOf _ _ = ⊥

-- The trait as it was written, with each method as above.
abbrev pub IsTraitOf : ServiceTrait → TraitDef → Type 0
IsTraitOf service trait_def =
    (trait_def.attrs ≡ service.attrs)
    × (trait_def.vis ≡ service.vis)
    × (trait_def.ident ≡ service.ident)
    × (trait_def.supertraits ≡ service.supertraits)
    × AreSignaturesOf service.methods trait_def.sigs

-- The client implements the trait; the bodies of its methods and of its two constructors, and those
-- of the server's constructor and arms, have the types that are declared; the client meets the
-- supertraits, and no method stands twice; the server is for implementations of the trait that are
-- `Send`, `Sync` and `'static`, as `PatinaService` asks; both sides use one name for each method; and
-- the server names the methods that its arms match, in their order.
pub record IsWellTyped (types : UserTypes) (code : Expansion) : Type 0 where
  pub for_trait : code.client.trait_ident ≡ code.trait_def.ident
  pub inners : (code.client.inner ≡ arc_of_client) × (code.server.inner ≡ arc_of_param "__S")
  pub implements : Implement (map (λ m. m.sig) code.client.methods) code.trait_def.sigs
  pub methods_typed : All (IsTypedMethod types code.trait_def) code.client.methods
  pub connect_typed :
      (address : RustType)
      → BlockReturns
          (in_client types code.trait_def)
          (result_of self_type patina_error)
          ((code.client.connect_param, address) ∷ [])
          code.client.connect
  pub from_client_typed :
      BlockReturns
        (in_client types code.trait_def)
        self_type
        ((code.client.from_client_param, inner_type code.client.inner) ∷ [])
        code.client.from_client
  pub new_typed :
      BlockReturns
        (in_server types code.trait_def "__S")
        self_type
        ((code.server.new_param, param "__S") ∷ [])
        code.server.new
  pub bounds :
      Memᴰ code.trait_def.ident code.server.new_bounds
      × Memᴰ code.trait_def.ident code.server.service_bounds
      × Memᴰ "::core::marker::Send" code.server.service_bounds
      × Memᴰ "::core::marker::Sync" code.server.service_bounds
      × Memᴰ "'static" code.server.service_bounds
  pub supertraits_met : All types.IsMetByClient code.trait_def.supertraits
  pub methods_distinct : AreDistinct (map (λ sig. sig.ident) code.trait_def.sigs)
  pub agree : Agree code.trait_def.sigs code.client.methods code.server.arms
  pub arms_typed : All (IsTypedArm types code.trait_def) code.server.arms
  pub other_typed :
      HasType
        (in_server types code.trait_def "__S")
        ((code.server.other_pattern, reference str) ∷ dispatch_scope)
        code.server.other_value
        dispatched
  pub names_matched : map (λ arm. arm.pattern) code.server.arms ≡ code.server.method_names
