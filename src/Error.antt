-- ===== src/Error.antt =====
-- crates/patina-rpc/src/error.rs: the errors of the wire layer and of an RPC call.
-- The program knows the errors of `bincode` by their text alone, and an `io::Error` by its kind
-- and its text; these are what the records below keep of them.
use Prim.Native.String.{◌++◌ as text_append, slice}
use patina_rpc.Base.{ℕ, zero, suc, ◌+◌, ◌/◌, ◌%◌, String, ltb, if◌then◌else◌}
use patina_rpc.Envelope.{ErrorData}

pub data ErrorKind : Type 0 where
  invalid_data invalid_input other_kind : ErrorKind

pub record IoError : Type 0 where
  pub kind : ErrorKind
  pub text : String

pub record EncodeError : Type 0 where
  pub text : String

pub record DecodeError : Type 0 where
  pub text : String

pub data WireError : Type 0 where
  io : IoError → WireError
  encode : EncodeError → WireError
  decode : DecodeError → WireError

pub data PatinaError : Type 0 where
  wire : WireError → PatinaError
  remote : (code : ℕ) → (message : String) → PatinaError
  closed : PatinaError
  unknown_method : String → PatinaError

-- `RpcError` is an alias of `PatinaError`.
abbrev pub RpcError : Type 0
RpcError = PatinaError

abbrev pub application : ℕ → String → PatinaError
application code message = remote code message

-- `impl From<ErrorData> for PatinaError`
abbrev pub from_error_data : ErrorData → PatinaError
from_error_data e = remote e.code e.message

-- `impl From<std::io::Error> for PatinaError`
abbrev pub from_io_error : IoError → PatinaError
from_io_error e = wire (io e)

abbrev digit : ℕ → String
digit n = slice "0123456789" n (n + 1)

-- The standard library's decimal print of a number; five rounds print any `u16`.
decimal : ℕ → ℕ → String
decimal zero n = ""
decimal (suc k) n =
    let front = decimal k (n / 10) in
    if ltb n 10 then digit n else text_append front (digit (n % 10))

unfoldable pub u16_to_string : ℕ → String
unfolding decimal
u16_to_string n = decimal 5 n

-- `Display`, as the `#[error(…)]` attributes write it.
unfoldable pub wire_error_to_string : WireError → String
wire_error_to_string (io e) = text_append "io error: " e.text
wire_error_to_string (encode e) = text_append "bincode encode: " e.text
wire_error_to_string (decode e) = text_append "bincode decode: " e.text

unfoldable pub patina_error_to_string : PatinaError → String
unfolding wire_error_to_string u16_to_string
patina_error_to_string (wire e) = text_append "wire error: " (wire_error_to_string e)
patina_error_to_string (remote code message) =
    text_append "remote error " (text_append (u16_to_string code) (text_append ": " message))
patina_error_to_string closed = "connection closed"
patina_error_to_string (unknown_method m) = text_append "unknown method: " m
