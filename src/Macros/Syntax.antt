-- ===== src/Macros/Syntax.antt =====
-- The syntax trees of the `syn` crate that the macro is given: a trait, its items, the
-- signature of a method, and the types in it. A part that the macro passes on, or does not look at,
-- is its text.
use patina_rpc.Base.{String, List, Bool, Option}

mutual
  pub data SynType : Type 0 where
    -- A path, with the type in its angle brackets before `::` if it has one.
    path : (qself : Option String) → Segments → SynType
    other_type : String → SynType

  -- The segments of a path, each with its name and arguments.
  pub data Segments : Type 0 where
    no_segment : Segments
    segment : (ident : String) → PathArguments → Segments → Segments

  pub data PathArguments : Type 0 where
    no_arguments : PathArguments
    angle_bracketed : GenericArguments → PathArguments
    parenthesized : String → PathArguments

  pub data GenericArguments : Type 0 where
    no_argument : GenericArguments
    type_argument : SynType → GenericArguments → GenericArguments
    other_argument : String → GenericArguments → GenericArguments

pub data ReturnType : Type 0 where
  default_return : ReturnType
  returns : SynType → ReturnType

pub record Receiver : Type 0 where
  -- Of `&`, and its lifetime.
  pub reference : Option (Option String)
  pub mutability : Bool

pub data Pat : Type 0 where
  ident_pat : String → Pat
  other_pat : String → Pat

pub data FnArg : Type 0 where
  receiver : Receiver → FnArg
  typed : Pat → SynType → FnArg

-- `TraitItemFn` with its `Signature`.
pub record TraitItemFn : Type 0 where
  pub constness : Bool
  pub asyncness : Bool
  pub unsafety : Bool
  pub abi : Option String
  pub ident : String
  pub generics : List String
  pub where_clause : Option String
  pub inputs : List FnArg
  pub variadic : Option String
  pub output : ReturnType
  pub default : Option String

pub data TraitItem : Type 0 where
  function : TraitItemFn → TraitItem
  other_item : String → TraitItem

pub record ItemTrait : Type 0 where
  pub attrs : List String
  pub vis : String
  pub unsafety : Bool
  pub ident : String
  pub generics : List String
  pub where_clause : Option String
  pub supertraits : List String
  pub items : List TraitItem

-- The tokens that an error of the macro underlines.
pub data Tokens : Type 0 where
  input_tokens fn_token : Tokens
  generics_tokens : List String → Tokens
  item_tokens : TraitItem → Tokens
  method_tokens signature_tokens : TraitItemFn → Tokens
  input_arg : FnArg → Tokens
  pat_tokens : Pat → Tokens
  return_tokens : ReturnType → Tokens
  type_tokens : SynType → Tokens
  segment_ident : String → Tokens
  segment_tokens : String → PathArguments → Tokens
  argument_tokens : GenericArguments → Tokens

-- `syn::Error`
pub record SynError : Type 0 where
  pub tokens : Tokens
  pub message : String
