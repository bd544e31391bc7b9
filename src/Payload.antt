-- ===== src/Payload.antt =====
-- crates/patina-rpc/src/lib.rs: `encode` and `decode` of `__private`, by which generated code turns
-- arguments and results into payloads and back.
use Prim.Native.String.{◌++◌ as text_append}
use patina_rpc.Base.{ℕ, List, Result, map_err, map_ok}
use patina_rpc.Error.{PatinaError, remote, EncodeError, DecodeError}
use patina_rpc.Codec.{Bincode}

module _ {T : Type 0} (bin : Bincode T) where
  unfoldable pub encode : T → Result (List ℕ) PatinaError
  encode value =
      map_err (λ (e : EncodeError). remote 500 (text_append "encode: " e.text))
        (bin.encode_to_vec value)

  unfoldable pub decode : List ℕ → Result T PatinaError
  decode bytes =
      map_err (λ (e : DecodeError). remote 400 (text_append "decode: " e.text))
        (map_ok (λ decoded. decoded.0) (bin.decode_from_slice bytes))
