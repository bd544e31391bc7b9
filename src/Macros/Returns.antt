-- ===== src/Macros/Returns.antt =====
-- Which return types of a method the macro accepts (crates/patina-macros/src/model.rs).
use patina_rpc.Base.{
  subst, String, ◌≡◌, refl, ◌↔◌, List, [], ◌∷◌, true, Option, none, some, ok, ◌==◌, string_eq,
  arith, inl, inr, Bool-cases, ap, sym, ◌∙◌,
}
use text.Mathlib.TextEquality.{eq_iff}
use patina_rpc.Macros.{
  last_is_patina_error, no_segment, segment, no_argument, type_argument, other_argument, SynType,
  path, other_type, Segments, PathArguments, no_arguments, angle_bracketed, parenthesized,
  GenericArguments, ReturnType, default_return, returns, last, type_args, ok_type_of, of_arguments,
  of_last, is_patina_error, parse_result_ok,
}

-- The last segment of a path, with its arguments.
pub data EndsIn : Segments → String → PathArguments → Type 0 where
  the_last : {i : String} {a : PathArguments} → EndsIn (segment i a no_segment) i a
  further :
      {j : String} {b : PathArguments} {rest : Segments} {i : String} {a : PathArguments}
      → EndsIn rest i a
      → EndsIn (segment j b rest) i a

-- The types among generic arguments, in order, whatever else stands between them.
pub data HasTypes : GenericArguments → List SynType → Type 0 where
  no_more : HasTypes no_argument []
  one_type :
      {t : SynType} {g : GenericArguments} {ts : List SynType}
      → HasTypes g ts
      → HasTypes (type_argument t g) (t ∷ ts)
  no_type :
      {x : String} {g : GenericArguments} {ts : List SynType}
      → HasTypes g ts
      → HasTypes (other_argument x g) ts

-- A path to `PatinaError`, with any arguments.
abbrev pub IsPatinaError : SynType → Type 0
IsPatinaError e =
    (q : Option String) × (segments : Segments) × (a : PathArguments) × (e ≡ path q segments)
    × EndsIn segments "PatinaError" a

-- `Result<T, PatinaError>`, behind any paths; lifetimes and constants may stand between the types.
abbrev pub IsResultOf : ReturnType → SynType → Type 0
IsResultOf output t =
    (q : Option String) × (segments : Segments) × (generics : GenericArguments) × (e : SynType)
    × (output ≡ returns (path q segments))
    × EndsIn segments "Result" (angle_bracketed generics)
    × HasTypes generics (t ∷ e ∷ [])
    × IsPatinaError e

same_pair : (x y : String × PathArguments) → some x ≡ some y → x ≡ y
same_pair x y h = cc

last-EndsIn :
    (segments : Segments) (i : String) (a : PathArguments)
    → last segments ≡ some (i, a)
    → EndsIn segments i a
last-EndsIn no_segment i a h = absurd (cc)
last-EndsIn (segment j b no_segment) i a h =
    subst (λ x. EndsIn (segment j b no_segment) x.0 x.1) (same_pair (j, b) (i, a) h) the_last
last-EndsIn (segment j b (segment k c rest)) i a h = further (last-EndsIn (segment k c rest) i a h)

EndsIn-last :
    {segments : Segments} {i : String} {a : PathArguments}
    → EndsIn segments i a
    → last segments ≡ some (i, a)
EndsIn-last the_last = refl
EndsIn-last (further {rest = no_segment} h) = elim h [ ]
EndsIn-last (further {rest = segment k c rest} h) = EndsIn-last h

type_args-HasTypes : (g : GenericArguments) → HasTypes g (type_args g)
type_args-HasTypes no_argument = no_more
type_args-HasTypes (type_argument t g) = one_type (type_args-HasTypes g)
type_args-HasTypes (other_argument x g) = no_type (type_args-HasTypes g)

HasTypes-type_args : {g : GenericArguments} {ts : List SynType} → HasTypes g ts → type_args g ≡ ts
HasTypes-type_args no_more = refl
HasTypes-type_args (one_type {t} h) = ap (◌∷◌ t) (HasTypes-type_args h)
HasTypes-type_args (no_type h) = HasTypes-type_args h

is_patina_error_lem : (e : SynType) → (is_patina_error e ≡ true) ↔ IsPatinaError e
is_patina_error_lem e = (only e, λ (q, segments, a, at, h). rw (at, EndsIn-last h) refl)
  where
    named :
        (l : Option (String × PathArguments))
        → last_is_patina_error l ≡ true
        → (a : PathArguments) × (l ≡ some ("PatinaError", a))
    named none h = absurd (cc)
    named (some (i, a)) h = (a, ap (λ j. some (j, a)) ((eq_iff i "PatinaError").0 h))

    only : (e : SynType) → is_patina_error e ≡ true → IsPatinaError e
    only (other_type x) h = absurd (cc)
    only (path q segments) h =
        let (a, p) = named (last segments) h in
        (q, segments, a, refl, last-EndsIn segments "PatinaError" a p)

only_two :
    (t : SynType) (g : GenericArguments) (ts : List SynType)
    → ok_type_of g ts ≡ ok t
    → (e : SynType) × (ts ≡ t ∷ e ∷ []) × (is_patina_error e ≡ true)
only_two t g [] h = absurd (cc)
only_two t g (a ∷ []) h = absurd (cc)
only_two t g (a ∷ e ∷ []) h = elim (Bool-cases (is_patina_error e)) [
  | inl yes_it ↦ (e, ground (arith, yes_it), yes_it)
  | inr no_it ↦ absurd (ground (arith, no_it))
]
only_two t g (a ∷ e ∷ c ∷ ts) h = absurd (cc)

only_brackets :
    (t : SynType) (i : String) (a : PathArguments)
    → of_arguments i a ≡ ok t
    → (g : GenericArguments) × (e : SynType) × (a ≡ angle_bracketed g)
      × (type_args g ≡ t ∷ e ∷ [])
      × (is_patina_error e ≡ true)
only_brackets t i (angle_bracketed g) h =
    let (e, p, q) = only_two t g (type_args g) h in (g, e, refl, p, q)
only_brackets t i no_arguments h = absurd (cc)
only_brackets t i (parenthesized x) h = absurd (cc)

only_result :
    (t s : SynType) (l : Option (String × PathArguments))
    → of_last s l ≡ ok t
    → (a : PathArguments) × (l ≡ some ("Result", a)) × (of_arguments "Result" a ≡ ok t)
only_result t s none h = absurd (cc)
only_result t s (some (i, a)) h = elim (Bool-cases (i == "Result")) [
  | inl named ↦
      let same = (eq_iff i "Result").0 named in
      (a, ap (λ j. some (j, a)) same, ap (λ j. of_arguments j a) (sym same) ∙ ground (arith, named))
  | inr other ↦ absurd (ground (arith, other))
]

-- A return type is accepted, with `T` as its model, if and only if it is a path that ends in
-- `Result<…>`, whose arguments have two types, `T` and a path that ends in `PatinaError`: behind any
-- prefixes, with any lifetimes beside the types, and with any arguments of `PatinaError`.
pub parse_result_ok_lem :
    (output : ReturnType) (t : SynType) → (parse_result_ok output ≡ ok t) ↔ IsResultOf output t
unfolding parse_result_ok
parse_result_ok_lem output t = (
  only output,
  λ (q, s, g, e, a, b, c, d). rw a (
      ground (
        arith,
        EndsIn-last b,
        HasTypes-type_args c,
        (is_patina_error_lem e).1 d,
        eq_iff "Result" "Result",
      )),
)
  where
    only : (output : ReturnType) → parse_result_ok output ≡ ok t → IsResultOf output t
    only default_return h = absurd (cc)
    only (returns (other_type s)) h = absurd (cc)
    only (returns (path q segments)) h =
        let (a, named, inside) = only_result t (path q segments) (last segments) h in
        let (g, e, p, types, r) = only_brackets t "Result" a inside in
        (
          q,
          segments,
          g,
          e,
          refl,
          last-EndsIn segments "Result" (angle_bracketed g) (rw p at named),
          subst (HasTypes g) types (type_args-HasTypes g),
          (is_patina_error_lem e).0 r,
        )
