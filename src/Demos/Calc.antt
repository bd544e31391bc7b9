-- ===== src/Demos/Calc.antt =====
-- crates/patina-rpc/examples/calc_service.rs: the trait `Calc`, its implementation `MyCalc`, and the
-- server and the calls of `main`. An `i64` is its 64 bits as a number; how `bincode` writes the
-- arguments and the results is a parameter.
use Prim.Native.String.{◌++◌ as text_append}
use patina_rpc.Base.{none, ℕ, ◌+◌, ◌%◌, ◌^◌, ◌≡◌, refl, String, List, [], ◌∷◌, Result, ok}
use patina_rpc.Error.{PatinaError}
use patina_rpc.Codec.{Bincode}
use patina_rpc.Macros.{Method, SynType, path, segment, no_segment, no_arguments, ServiceTrait}
use patina_rpc.Server.{Server, builder, build, add_service}
use patina_rpc.Service
use patina_rpc.Service.{Arm, Service, client_method}
use patina_rpc.Service.Proxy.{as_seen, remote_call, proxy_calls_implementation}

abbrev i64 : SynType
i64 = path none (segment "i64" no_arguments no_segment)

abbrev string : SynType
string = path none (segment "String" no_arguments no_segment)

abbrev add_fn : Method
add_fn = record {
  ident = "add";
  args = record { name = "a"; ty = i64 } ∷ record { name = "b"; ty = i64 } ∷ [];
  ok_type = i64;
}

abbrev greet_fn : Method
greet_fn = record {
  ident = "greet";
  args = record { name = "name"; ty = string } ∷ [];
  ok_type = string;
}

abbrev pub calc : ServiceTrait
calc = record {
  vis = "pub";
  attrs = [];
  supertraits = "Send" ∷ "Sync" ∷ "'static" ∷ [];
  ident = "Calc";
  methods = add_fn ∷ greet_fn ∷ [];
}

-- `MyCalc`; its sum wraps around, as in a release build.
abbrev pub add_numbers : ℕ × ℕ → Result ℕ PatinaError
add_numbers (a, b) = ok ((a + b) % 2 ^ 64)

abbrev pub greet_name : String → Result String PatinaError
greet_name name = ok (text_append "hello, " name)

module _ {W : Type 0} (pair : Bincode (ℕ × ℕ)) (number : Bincode ℕ) (text : Bincode String) where
  abbrev pub add : Arm W
  add = record {
    method = add_fn;
    Args = ℕ × ℕ;
    Ok = ℕ;
    args_codec = pair;
    ok_codec = number;
    implementation = λ args w. (add_numbers args, w);
  }

  abbrev pub greet : Arm W
  greet = record {
    method = greet_fn;
    Args = String;
    Ok = String;
    args_codec = text;
    ok_codec = text;
    implementation = λ name w. (greet_name name, w);
  }

  abbrev pub my_calc : Service W
  my_calc = record { service = calc; arms = add ∷ greet ∷ []; arms_lem = refl }

  -- `Server::builder().add_service(CalcServer::new(MyCalc)).build()`
  unfoldable pub calc_server : Server W
  calc_server = build (add_service (Service.server my_calc) builder)

  -- The burst of `main`: a call of `add` on the generated client, under some id.
  pub add_answered :
      (id a b : ℕ) (bytes : List ℕ) (w : W)
      → pair.encode_to_vec (a, b) ≡ ok bytes
      → client_method calc add (remote_call calc_server.handlers id) (a, b) w
        ≡ (as_seen add (ok ((a + b) % 2 ^ 64)), w)
  unfolding calc_server
  add_answered id a b bytes w enc =
      proxy_calls_implementation my_calc builder id [] add (greet ∷ []) (a, b) bytes w refl refl enc

  -- The greeting of `main`.
  pub greet_answered :
      (id : ℕ) (name : String) (bytes : List ℕ) (w : W)
      → text.encode_to_vec name ≡ ok bytes
      → client_method calc greet (remote_call calc_server.handlers id) name w
        ≡ (as_seen greet (ok (text_append "hello, " name)), w)
  unfolding calc_server
  greet_answered id name bytes w enc =
      proxy_calls_implementation my_calc builder id (add ∷ []) greet [] name bytes w refl refl enc
