-- ===== src/Examples/Generated.antt =====
-- The theorems on the service macro at a trait with one method, of two numbers, that counts its
-- calls: what the macro accepts, and a call through the generated client and server.
use patina_rpc.Base.{
  ℕ, suc, ◌+◌, ◌≡◌, refl, List, [], ◌∷◌, true, false, Bool, none, Result, ok, err, subst, length,
  ◌++◌,
}
use patina_rpc.Error.{EncodeError, DecodeError}
use patina_rpc.Envelope.{error}
use patina_rpc.Codec.{Bincode}
use patina_rpc.Macros.{
  SynType, path, segment, no_segment, no_arguments, angle_bracketed, type_argument, no_argument,
  ReturnType, returns, TraitItemFn, function, ItemTrait, SynError, input_tokens, fn_token, Method,
  ServiceTrait, parse_result_ok, parse_method, parse, wire_method_name, typed, ident_pat,
}
use patina_rpc.Macros.Expand.{FnSig, trait_sig, service}
use patina_rpc.Macros.Expand.Typing.{UserTypes}
use patina_rpc.Macros.Returns.{IsResultOf, parse_result_ok_lem, the_last, one_type, no_more}
use patina_rpc.Macros.Parse.{shared_self, parse_lem}
use patina_rpc.Server.{builder, build, add_service, dispatch}
use patina_rpc.Service.{Arm, Service, client_method, server}
use patina_rpc.Service.Proxy.{remote_call, proxy_calls_implementation, malformed_payload_refused}

abbrev number : SynType
number = path none (segment "i32" no_arguments no_segment)

abbrev patina_error : SynType
patina_error = path none (segment "PatinaError" no_arguments no_segment)

abbrev result_of : SynType → ReturnType
result_of t = returns (
    path none (
      segment "Result" (angle_bracketed (type_argument t (type_argument patina_error no_argument)))
        no_segment))

-- `async fn add(&self, a: i32, b: i32) -> Result<i32, PatinaError>;`
abbrev add_fn : TraitItemFn
add_fn = record {
  constness = false;
  asyncness = true;
  unsafety = false;
  abi = none;
  ident = "add";
  generics = [];
  where_clause = none;
  inputs = shared_self none ∷ typed (ident_pat "a") number ∷ typed (ident_pat "b") number ∷ [];
  variadic = none;
  output = result_of number;
  default = none;
}

abbrev add_method : Method
add_method = record {
  ident = "add";
  args = record { name = "a"; ty = number } ∷ record { name = "b"; ty = number } ∷ [];
  ok_type = number;
}

abbrev calc_item : ItemTrait
calc_item = record {
  attrs = [];
  vis = "pub";
  unsafety = false;
  ident = "Calc";
  generics = [];
  where_clause = none;
  supertraits = [];
  items = function add_fn ∷ [];
}

abbrev calc : ServiceTrait
calc = record {
  vis = "pub";
  attrs = [];
  supertraits = [];
  ident = "Calc";
  methods = add_method ∷ [];
}

-- A parser of a trait from a Boolean input, and its refusal.
abbrev parse2 : Bool → Result ItemTrait SynError
parse2 true = ok calc_item
parse2 false = err (record { tokens = input_tokens; message = "expected `trait`" })

parse_result_ok_lem_example : IsResultOf (result_of number) number
unfolding parse_result_ok
parse_result_ok_lem_example = (parse_result_ok_lem (result_of number) number).0 refl

parse_lem_example : parse parse2 true ≡ ok calc
parse_lem_example = (parse_lem parse2 true calc).1 (
  calc_item,
  refl,
  (
    refl,
    refl,
    refl,
    refl,
    refl,
    (
      (
        refl,
        refl,
        refl,
        refl,
        (none, refl),
        (
          none,
          segment "Result"
              (angle_bracketed (type_argument number (type_argument patina_error no_argument)))
              no_segment,
          type_argument number (type_argument patina_error no_argument),
          patina_error,
          refl,
          the_last,
          one_type (one_type no_more),
          (none, segment "PatinaError" no_arguments no_segment, no_arguments, refl, the_last),
        ),
      ),
      tt,
    ),
  ),
)

not_async_is_refused :
    parse_method (record add_fn { asyncness = false })
    ≡ err (record { tokens = fn_token; message = "service methods must be `async`" })
unfolding parse_method
not_async_is_refused = refl

abbrev read_pair : List ℕ → Result ((ℕ × ℕ) × ℕ) DecodeError
read_pair (a ∷ b ∷ _) = ok ((a, b), 2)
read_pair _ = err (record { text = "unexpected end" })

abbrev write_pair : ℕ × ℕ → Result (List ℕ) EncodeError
write_pair p = ok (p.0 ∷ p.1 ∷ [])

pub written_pair_is_read :
    (p : ℕ × ℕ) (bytes rest : List ℕ)
    → write_pair p ≡ ok bytes
    → read_pair (bytes ++ rest) ≡ ok (p, length bytes)
written_pair_is_read p bytes rest e =
    let same : p.0 ∷ p.1 ∷ [] ≡ bytes = cc in
    subst (λ b. read_pair (b ++ rest) ≡ ok (p, length b)) same refl

abbrev pair_codec : Bincode (ℕ × ℕ)
pair_codec = record {
  encode_to_vec = write_pair;
  decode_from_slice = read_pair;
  decode-encode = written_pair_is_read;
}

abbrev read_number : List ℕ → Result (ℕ × ℕ) DecodeError
read_number (a ∷ _) = ok (a, 1)
read_number [] = err (record { text = "unexpected end" })

abbrev write_number : ℕ → Result (List ℕ) EncodeError
write_number n = ok (n ∷ [])

pub written_number_is_read :
    (n : ℕ) (bytes rest : List ℕ)
    → write_number n ≡ ok bytes
    → read_number (bytes ++ rest) ≡ ok (n, length bytes)
written_number_is_read n bytes rest e =
    let same : n ∷ [] ≡ bytes = cc in
    subst (λ b. read_number (b ++ rest) ≡ ok (n, length b)) same refl

abbrev pub number_codec : Bincode ℕ
number_codec = record {
  encode_to_vec = write_number;
  decode_from_slice = read_number;
  decode-encode = written_number_is_read;
}

-- `add`, on a state that counts the calls.
abbrev pub add : Arm ℕ
add = record {
  method = add_method;
  Args = ℕ × ℕ;
  Ok = ℕ;
  args_codec = pair_codec;
  ok_codec = number_codec;
  implementation = λ args calls. (ok (args.0 + args.1), suc calls);
}

abbrev pub calc_service : Service ℕ
calc_service = record { service = calc; arms = add ∷ []; arms_lem = refl }

proxy_calls_implementation_example :
    client_method calc add
      (remote_call (build (add_service (server calc_service) builder)).handlers 7)
      (2, 3)
      0
    ≡ (ok 5, 1)
proxy_calls_implementation_example =
    proxy_calls_implementation calc_service builder 7 [] add [] (2, 3) (2 ∷ 3 ∷ []) 0 refl refl refl

malformed_payload_refused_example :
    dispatch
      (build (add_service (server calc_service) builder)).handlers
      (record { id = 7; method = wire_method_name calc add_method; payload = 2 ∷ [] })
      0
    ≡ (error (record { id = 7; code = 400; message = "decode: unexpected end" }), 0)
malformed_payload_refused_example =
    malformed_payload_refused calc_service builder 7 [] add [] (2 ∷ [])
      (record { text = "unexpected end" }) 0 refl refl refl

-- Types of which `i32` can be sent, written and read.
abbrev types : UserTypes
types = record {
  IsSerialize = λ t. t ≡ number;
  IsDeserializeOwned = λ t. t ≡ number;
  IsSend = λ t. t ≡ number;
  IsMetByClient = λ s. ⊥;
}

abbrev add_sig : FnSig
add_sig = trait_sig add_method
