-- ===== src/Macros/Parse.antt =====
-- Which traits the macro accepts (crates/patina-macros/src/model.rs), and the model it makes of one.
use patina_rpc.Base.{
  Option-cases, String, ◌≡◌, refl, ◌↔◌, List, [], ◌∷◌, map, true, false, Option, none, some, Result,
  ok, string_eq, arith, inl, inr, Bool-cases, ap, sym, ◌∙◌, ok_of_bind, ok_of_map_err, map_err,
  subst,
}
use patina_rpc.Macros.{
  ident_pat, other_pat, FnArg, receiver, typed, TraitItemFn, TraitItem, function, other_item,
  ItemTrait, SynError, MethodArg, Method, ServiceTrait, parse_result_ok, parse_receiver, parse_args,
  signature_of, has_no_generics, has_no_body, parse_method, parse_items, parse, trait_of,
}
use patina_rpc.Macros.Returns.{IsResultOf, parse_result_ok_lem}

-- `&self`, or `&'a self`
abbrev pub shared_self : Option String → FnArg
shared_self lifetime = receiver (record { reference = some lifetime; mutability = false })

-- `name: ty`
abbrev pub arg_of : MethodArg → FnArg
arg_of a = typed (ident_pat a.name) a.ty

-- `async fn ident(&self, name: ty, …) -> Result<T, PatinaError>;`, and its model. Nothing is asked of
-- its other qualifiers or its `where` clause.
abbrev pub IsServiceMethod : TraitItemFn → Method → Type 0
IsServiceMethod f m =
    (f.asyncness ≡ true)
    × (f.default ≡ none)
    × (f.generics ≡ [])
    × (f.ident ≡ m.ident)
    × ((lifetime : Option String) × (f.inputs ≡ shared_self lifetime ∷ map arg_of m.args))
    × IsResultOf f.output m.ok_type

-- Items that are all methods, and their models in the same order.
abbrev pub AreServiceMethods : List TraitItem → List Method → Type 0
AreServiceMethods [] [] = Unit {0}
AreServiceMethods (function f ∷ items) (m ∷ ms) = IsServiceMethod f m × AreServiceMethods items ms
AreServiceMethods _ _ = ⊥

abbrev pub IsServiceTrait : ItemTrait → ServiceTrait → Type 0
IsServiceTrait item s =
    (item.generics ≡ [])
    × (s.vis ≡ item.vis)
    × (s.attrs ≡ item.attrs)
    × (s.supertraits ≡ item.supertraits)
    × (s.ident ≡ item.ident)
    × AreServiceMethods item.items s.methods

only_args :
    (inputs : List FnArg) (args : List MethodArg)
    → parse_args inputs ≡ ok args
    → inputs ≡ map arg_of args
unfolding parse_args
only_args [] args h = ground (arith, h)
only_args (typed (ident_pat n) ty ∷ inputs) args h =
    let (rest, e, last_step) = ok_of_bind (parse_args inputs) _ args h in
    let same : record { name = n; ty = ty } ∷ rest ≡ args = cc in
    ap (◌∷◌ (typed (ident_pat n) ty)) (only_args inputs rest e) ∙ ap (map arg_of) same
only_args (typed (other_pat p) ty ∷ inputs) args h = absurd (cc)
only_args (receiver r ∷ inputs) args h = absurd (cc)

all_args : (args : List MethodArg) → parse_args (map arg_of args) ≡ ok args
unfolding parse_args
all_args [] = refl
all_args (a ∷ args) = rw (all_args args) refl

only_self :
    (f : TraitItemFn) (inputs rest : List FnArg)
    → parse_receiver f inputs ≡ ok rest
    → (lifetime : Option String) × (inputs ≡ shared_self lifetime ∷ rest)
unfolding parse_receiver
only_self f [] rest h = absurd (cc)
only_self f (typed p t ∷ inputs) rest h = absurd (cc)
only_self f (receiver r ∷ inputs) rest h = elim (Option-cases r.reference) [
  | inl none_there ↦ absurd (ground (arith, h, none_there))
  | inr (lifetime, q) ↦ (lifetime, ground (arith, h, q))
]

only_signature :
    (f : TraitItemFn) (m : Method)
    → signature_of f ≡ ok m
    → (f.ident ≡ m.ident)
      × ((lifetime : Option String) × (f.inputs ≡ shared_self lifetime ∷ map arg_of m.args))
      × IsResultOf f.output m.ok_type
only_signature f m h =
    let (inputs, self_first, h1) = ok_of_bind (parse_receiver f f.inputs) _ m h in
    let (lifetime, by_reference) = only_self f f.inputs inputs self_first in
    let (args, others, h2) = ok_of_bind (parse_args inputs) _ m h1 in
    let (t, output, h3) = ok_of_bind (parse_result_ok f.output) _ m h2 in
    let same : record { ident = f.ident; args = args; ok_type = t } ≡ m = cc in
    (
      ap (λ x. x.ident) same,
      (
        lifetime,
        by_reference
            ∙ ap (◌∷◌ (shared_self lifetime)) (only_args inputs args others)
            ∙ ap (λ x. shared_self lifetime ∷ map arg_of x.args) same,
      ),
      subst (IsResultOf f.output) (ap (λ x. x.ok_type) same)
          ((parse_result_ok_lem f.output t).0 output),
    )

only_no_generics :
    (f : TraitItemFn) (m : Method) (gs : List String)
    → has_no_generics f gs ≡ ok m
    → (gs ≡ []) × (signature_of f ≡ ok m)
only_no_generics f m [] h = (refl, h)
only_no_generics f m (g ∷ gs) h = absurd (cc)

only_no_body :
    (f : TraitItemFn) (m : Method) (d : Option String)
    → has_no_body f d ≡ ok m
    → (d ≡ none) × (has_no_generics f f.generics ≡ ok m)
only_no_body f m none h = (refl, h)
only_no_body f m (some b) h = absurd (cc)

only_method : (f : TraitItemFn) (m : Method) → parse_method f ≡ ok m → IsServiceMethod f m
unfolding parse_method
only_method f m h = elim (Bool-cases f.asyncness) [
  | inl a ↦
      let body : has_no_body f f.default ≡ ok m = ground (arith, a) in
      let (d, h1) = only_no_body f m f.default body in
      let (g, h2) = only_no_generics f m f.generics h1 in
      let (i, inputs, output) = only_signature f m h2 in (a, d, g, i, inputs, output)
  | inr a ↦ absurd (ground (arith, a))
]

the_method : (f : TraitItemFn) (m : Method) → IsServiceMethod f m → parse_method f ≡ ok m
unfolding parse_method parse_receiver
the_method f m (a, b, c, d, (lifetime, e), r) =
    ground (arith, a, b, c, d, e, all_args m.args, (parse_result_ok_lem f.output m.ok_type).1 r)

only_items :
    (items : List TraitItem) (ms : List Method)
    → parse_items items ≡ ok ms
    → AreServiceMethods items ms
unfolding parse_items
only_items [] [] h = tt
only_items [] (m ∷ ms) h = absurd (cc)
only_items (function f ∷ items) ms h =
    let (m, one, h1) = ok_of_bind (parse_method f) _ ms h in
    let (rest, others, h2) = ok_of_bind (parse_items items) _ ms h1 in
    let same : m ∷ rest ≡ ms = cc in
    subst (AreServiceMethods (function f ∷ items)) same
      (only_method f m one, only_items items rest others)
only_items (other_item t ∷ items) ms h = absurd (cc)

all_items :
    (items : List TraitItem) (ms : List Method)
    → AreServiceMethods items ms
    → parse_items items ≡ ok ms
unfolding parse_items
all_items [] [] h = refl
all_items [] (m ∷ ms) h = absurd h
all_items (function f ∷ items) (m ∷ ms) (one, others) =
    rw (the_method f m one, all_items items ms others) refl
all_items (function f ∷ items) [] h = absurd h
all_items (other_item t ∷ items) [] h = absurd h
all_items (other_item t ∷ items) (m ∷ ms) h = absurd h

only_trait :
    (item : ItemTrait) (s : ServiceTrait) (gs : List String)
    → trait_of item gs ≡ ok s
    → (gs ≡ [])
      × (s.vis ≡ item.vis)
      × (s.attrs ≡ item.attrs)
      × (s.supertraits ≡ item.supertraits)
      × (s.ident ≡ item.ident)
      × AreServiceMethods item.items s.methods
only_trait item s [] h =
    let (ms, methods, h1) = ok_of_bind (parse_items item.items) _ s h in
    let same : record {
      vis = item.vis;
      attrs = item.attrs;
      supertraits = item.supertraits;
      ident = item.ident;
      methods = ms;
    }
        ≡ s =
      cc in
    (
      refl,
      ap (λ x. x.vis) (sym same),
      ap (λ x. x.attrs) (sym same),
      ap (λ x. x.supertraits) (sym same),
      ap (λ x. x.ident) (sym same),
      subst (AreServiceMethods item.items) (ap (λ x. x.methods) same)
          (only_items item.items ms methods),
    )
only_trait item s (g ∷ gs) h = absurd (cc)

-- The macro accepts an input, with `s` as its model, if and only if it is a trait without
-- generics whose items are all methods `async fn m(&self, name: ty, …) -> Result<T, PatinaError>;`
-- without generics or a body, and `s` has the trait's parts and its methods' names, arguments and
-- `T`, in order. `Result` and `PatinaError` are the last segments of any paths, with lifetimes or
-- arguments beside those types; and neither the trait nor a method is refused for being `unsafe`,
-- for its ABI, for a `where` clause, or for a lifetime of `&self`.
pub parse_lem :
    {I : Type 0} (parse2 : I → Result ItemTrait SynError) (input : I) (s : ServiceTrait)
    → (parse parse2 input ≡ ok s)
      ↔ ((item : ItemTrait) × (parse2 input ≡ ok item) × IsServiceTrait item s)
unfolding parse
parse_lem parse2 input s = (
  λ h.
      let (item, parsed, h1) = ok_of_bind (map_err _ (parse2 input)) _ s h in
      (item, ok_of_map_err _ (parse2 input) item parsed, only_trait item s item.generics h1),
  λ (item, a, v).
      let (g, b, c, d, e, ms) = v in
      ground (arith, a, g, b, c, d, e, all_items item.items s.methods ms),
)
