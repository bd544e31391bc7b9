-- ===== src/Examples/UnitTests.antt =====
-- The theorems on the unit tests of the codec, with a serialiser for the messages of the tests.
use patina_rpc.Base.{
  ℕ, zero, suc, ◌+◌, ◌≡◌, refl, ap, List, [], ◌∷◌, ◌++◌, Bool, true, false, Result, ok, err, arith,
  length, take, take-append, ◌==◌, string_eq, All, passed,
}
use patina_rpc.Envelope.{Envelope, request, response, error, heartbeat, RequestData, ErrorData}
use patina_rpc.Error.{EncodeError, DecodeError}
use patina_rpc.Codec.{Bincode}
use patina_rpc.Codec.Tests.{unit_tests}
use patina_rpc.Codec.Tests.Passing.{unit_tests_pass}
use patina_rpc.Examples.Parts.{framer}

abbrev pub unsupported : Result (List ℕ) EncodeError
unsupported = err (record { text = "unsupported" })

abbrev pub malformed : Result (Envelope × ℕ) DecodeError
malformed = err (record { text = "malformed" })

-- A number to a byte; a method or a message by its number in a table.
abbrev pub body : ℕ → ℕ → List ℕ → List ℕ
body tag id payload = tag ∷ id ∷ length payload ∷ payload

abbrev pub encode_request : RequestData → Bool → Bool → Result (List ℕ) EncodeError
encode_request r true _ = ok (body 0 r.id r.payload)
encode_request r false true = ok (body 4 r.id r.payload)
encode_request r false false = unsupported

abbrev pub encode_error : ErrorData → Bool → Result (List ℕ) EncodeError
encode_error e true = ok (2 ∷ e.id ∷ e.code ∷ [])
encode_error e false = unsupported

abbrev pub encode_value : Envelope → Result (List ℕ) EncodeError
encode_value (request r) = encode_request r (r.method == "store.put") (r.method == "m")
encode_value (response r) = ok (body 1 r.id r.payload)
encode_value (error e) = encode_error e (e.message == "not found")
encode_value heartbeat = ok (3 ∷ [])

abbrev pub decode_value : List ℕ → Result (Envelope × ℕ) DecodeError
decode_value (zero ∷ id ∷ n ∷ rest) = ok (
  request (record { id = id; method = "store.put"; payload = take n rest }),
  3 + length (take n rest),
)
decode_value (suc zero ∷ id ∷ n ∷ rest) =
    ok (response (record { id = id; payload = take n rest }), 3 + length (take n rest))
decode_value (suc (suc zero) ∷ id ∷ code ∷ rest) =
    ok (error (record { id = id; code = code; message = "not found" }), 3)
decode_value (suc (suc (suc zero)) ∷ rest) = ok (heartbeat, 1)
decode_value (suc (suc (suc (suc zero))) ∷ id ∷ n ∷ rest) =
    ok (request (record { id = id; method = "m"; payload = take n rest }), 3 + length (take n rest))
decode_value _ = malformed

decode-encode_request :
    (r : RequestData) (bytes rest : List ℕ) (a b : Bool)
    → (r.method == "store.put") ≡ a
    → (r.method == "m") ≡ b
    → encode_request r a b ≡ ok bytes
    → decode_value (bytes ++ rest) ≡ ok (request r, length bytes)
decode-encode_request r bytes rest true b p q h =
    let e : bytes ≡ body 0 r.id r.payload = cc in
    let named : r.method ≡ "store.put" = (string_eq.same_iff r.method "store.put").0 p in
    rw e (rw (take-append r.payload rest) (ground (arith, named)))
decode-encode_request r bytes rest false true p q h =
    let e : bytes ≡ body 4 r.id r.payload = cc in
    let named : r.method ≡ "m" = (string_eq.same_iff r.method "m").0 q in
    rw e (rw (take-append r.payload rest) (ground (arith, named)))
decode-encode_request r bytes rest false false p q h = cc

decode-encode_error :
    (x : ErrorData) (bytes rest : List ℕ) (a : Bool)
    → (x.message == "not found") ≡ a
    → encode_error x a ≡ ok bytes
    → decode_value (bytes ++ rest) ≡ ok (error x, length bytes)
decode-encode_error x bytes rest true p h =
    let e : bytes ≡ 2 ∷ x.id ∷ x.code ∷ [] = cc in
    let named : x.message ≡ "not found" = (string_eq.same_iff x.message "not found").0 p in
    rw e (ground (arith, named))
decode-encode_error x bytes rest false p h = cc

pub decode-encode_value :
    (e : Envelope) (bytes rest : List ℕ)
    → encode_value e ≡ ok bytes
    → decode_value (bytes ++ rest) ≡ ok (e, length bytes)
decode-encode_value (request r) bytes rest h = decode-encode_request r bytes rest _ _ refl refl h
decode-encode_value (response r) bytes rest h =
    let e : bytes ≡ body 1 r.id r.payload = cc in
    rw e (rw (take-append r.payload rest) (ap (λ n. ok (response r, n)) (omega arith)))
decode-encode_value (error x) bytes rest h = decode-encode_error x bytes rest _ refl h
decode-encode_value heartbeat bytes rest h = let e : bytes ≡ 3 ∷ [] = cc in rw e

abbrev pub serialiser : Bincode Envelope
serialiser = record {
  encode_to_vec = encode_value;
  decode_from_slice = decode_value;
  decode-encode = decode-encode_value;
}

unit_tests_pass_example : All (λ test. test ≡ passed) (unit_tests framer serialiser)
unit_tests_pass_example =
    unit_tests_pass framer serialiser _ _ _ _ _ 3 _ (refl, omega arith) (refl, omega arith)
      (refl, omega arith) (refl, omega arith) (refl, omega arith) (refl, omega arith) refl
