-- ===== src/Codec/Tests.antt =====
-- The unit tests of crates/patina-rpc/src/codec.rs, over any framing and serialiser.
pub mod Passing
use patina_rpc.Base.{
  ◌>>=◌, ℕ, ◌+◌, ◌/◌, List, [], ◌∷◌, ◌++◌, Bool, true, false, Option, Result, err, length, take,
  drop, Test, panicked, passed, unwrap, expect, assert, is_none, ◌==◌, nat_eq,
}
use patina_rpc.Envelope.{Envelope, request, response, error, heartbeat, bytes_eq, envelope_eq}
use patina_rpc.Error.{WireError, io, invalid_data, ErrorKind}
use patina_rpc.Codec.{
  LengthDelimited, Bincode, decode, encode, new, with_max_frame_length, length_field,
}

abbrev pub is_empty : List ℕ → Bool
is_empty [] = true
is_empty (_ ∷ _) = false

-- The messages of the tests.
abbrev pub put_request : Envelope
put_request = request (record { id = 42; method = "store.put"; payload = 1 ∷ 2 ∷ 3 ∷ 4 ∷ 5 ∷ [] })

abbrev pub short_response : Envelope
short_response = response (record { id = 42; payload = 9 ∷ 8 ∷ 7 ∷ [] })

abbrev pub not_found : Envelope
not_found = error (record { id = 42; code = 404; message = "not found" })

abbrev zeros : List ℕ
zeros = 0 ∷ 0 ∷ 0 ∷ 0 ∷ 0 ∷ 0 ∷ 0 ∷ 0 ∷ 0 ∷ 0 ∷ 0 ∷ 0 ∷ 0 ∷ 0 ∷ 0 ∷ 0 ∷ []

abbrev pub long_request : Envelope
long_request = request (record { id = 1; method = "m"; payload = zeros })

abbrev pub second_response : Envelope
second_response = response (record { id = 7; payload = 0xab ∷ 0xcd ∷ [] })

abbrev pub is_request : Envelope → Test
is_request (request _) = passed
is_request _ = err panicked

-- `match second`
abbrev pub is_second : Envelope → Test
is_second (response r) = do _ ← assert (r.id == 7); assert (bytes_eq r.payload (0xab ∷ 0xcd ∷ []))
is_second _ = err panicked

abbrev pub is_invalid_data : ErrorKind → Bool
is_invalid_data invalid_data = true
is_invalid_data _ = false

abbrev pub is_io_invalid_data : Result (Option Envelope) WireError → Test
is_io_invalid_data (err (io e)) = assert (is_invalid_data e.kind)
is_io_invalid_data _ = err panicked

abbrev pub is_decode_error : Result (Option Envelope) WireError → Test
is_decode_error (err (WireError.decode _)) = passed
is_decode_error _ = err panicked

module _ {S : Type 0} (ldc : LengthDelimited S) (bin : Bincode Envelope) where
  unfoldable pub roundtrip : Envelope → Test
  roundtrip envelope =
      let encoded = encode ldc bin (new ldc) envelope [] in
      let d = decode ldc bin encoded.codec encoded.dst in
      do
        _ ← unwrap encoded.result
        found ← unwrap d.result
        decoded ← expect found
        _ ← assert (decoded == envelope)
        assert (is_empty d.src)

  unfoldable pub roundtrip_request : Test
  roundtrip_request = roundtrip put_request

  unfoldable pub roundtrip_response : Test
  roundtrip_response = roundtrip short_response

  unfoldable pub roundtrip_error : Test
  roundtrip_error = roundtrip not_found

  unfoldable pub roundtrip_heartbeat : Test
  roundtrip_heartbeat = roundtrip heartbeat

  unfoldable pub heartbeat_is_tiny : Test
  heartbeat_is_tiny =
      let encoded = encode ldc bin (new ldc) heartbeat [] in
      do _ ← unwrap encoded.result; assert (length encoded.dst == 5)

  unfoldable pub partial_frame_yields_none_until_complete : Test
  partial_frame_yields_none_until_complete =
      let encoded = encode ldc bin (new ldc) long_request [] in
      let full = encoded.dst in
      let mid = length full / 2 in
      let first = decode ldc bin encoded.codec (take mid full) in
      let second = decode ldc bin first.codec (first.src ++ drop mid full) in
      do
        _ ← unwrap encoded.result
        found ← unwrap first.result
        _ ← assert (is_none found)
        whole ← unwrap second.result
        decoded ← expect whole
        _ ← is_request decoded
        assert (is_empty second.src)

  unfoldable pub back_to_back_frames_decode_independently : Test
  back_to_back_frames_decode_independently =
      let one = encode ldc bin (new ldc) heartbeat [] in
      let two = encode ldc bin one.codec second_response one.dst in
      let first = decode ldc bin two.codec two.dst in
      let second = decode ldc bin first.codec first.src in
      do
        _ ← unwrap one.result
        _ ← unwrap two.result
        found ← unwrap first.result
        decoded ← expect found
        _ ← assert (decoded == heartbeat)
        found_second ← unwrap second.result
        decoded_second ← expect found_second
        _ ← is_second decoded_second
        assert (is_empty second.src)

  unfoldable pub oversized_frame_prefix_is_rejected : Test
  oversized_frame_prefix_is_rejected =
      is_io_invalid_data (decode ldc bin (with_max_frame_length ldc 100) (length_field 1000)).result

  unfoldable pub corrupted_body_surfaces_decode_error : Test
  corrupted_body_surfaces_decode_error =
      is_decode_error
        (decode ldc bin (new ldc) (length_field 3 ++ (0xff ∷ 0xff ∷ 0xff ∷ []))).result

  -- The tests of the module, in its order.
  unfoldable pub unit_tests : List Test
  unit_tests =
      roundtrip_request ∷ roundtrip_response ∷ roundtrip_error ∷ roundtrip_heartbeat
      ∷ heartbeat_is_tiny ∷ partial_frame_yields_none_until_complete
      ∷ back_to_back_frames_decode_independently ∷ oversized_frame_prefix_is_rejected
      ∷ corrupted_body_surfaces_decode_error ∷ []
