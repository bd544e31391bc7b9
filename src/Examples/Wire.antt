-- ===== src/Examples/Wire.antt =====
-- The theorems on the wire format at short messages.
use patina_rpc.Base.{ℕ, ◌≤◌, ◌<◌, ◌≡◌, ◌⊎◌, refl, List, [], ◌∷◌, ◌++◌, ok, err, arith, length}
use patina_rpc.Envelope.{Envelope, response, heartbeat}
use patina_rpc.Error.{WireError, IoError, invalid_input, EncodeError}
use patina_rpc.Codec.{WireCodec, decode, encode, with_max_frame_length}
use mathlib.Core.List.{flatten}
use patina_rpc.Codec.Frames.{frame_bytes}
use patina_rpc.Codec.RoundTrip.{limit, decode-encode}
use patina_rpc.Codec.Refusals.{encode_all_or_nothing, decode_frame_outcomes}
use patina_rpc.Codec.Stream.{encode_each, Receives, Receives-encode_each}
use patina_rpc.Examples.Parts.{Framer, framer, serialiser}

abbrev codec : WireCodec Framer
codec = with_max_frame_length framer 100

abbrev answer : Envelope
answer = response (record { id = 7; payload = 0xab ∷ 0xcd ∷ [] })

abbrev answer_bytes : List ℕ
answer_bytes = 1 ∷ 7 ∷ 2 ∷ 0xab ∷ 0xcd ∷ []

heartbeat_is_tiny : (encode framer serialiser codec heartbeat []).dst ≡ 0 ∷ 0 ∷ 0 ∷ 1 ∷ 3 ∷ []
unfolding encode with_max_frame_length
heartbeat_is_tiny = refl

decode-encode_example :
    (decode framer serialiser codec (0 ∷ 0 ∷ 0 ∷ 5 ∷ 1 ∷ 7 ∷ 2 ∷ 0xab ∷ 0xcd ∷ 9 ∷ [])).src ≡ 9 ∷ []
unfolding encode with_max_frame_length
decode-encode_example =
    (decode-encode framer serialiser codec codec answer answer_bytes
      (0 ∷ 0 ∷ 0 ∷ 5 ∷ 1 ∷ 7 ∷ 2 ∷ 0xab ∷ 0xcd ∷ 9 ∷ []) (9 ∷ []) (refl, omega arith) refl
      (omega arith) refl).3

-- Two frames in three chunks, cut inside a length field and inside a body.
Receives-encode_each_example :
    Receives framer serialiser codec []
      ((0 ∷ 0 ∷ []) ∷ (0 ∷ 1 ∷ 3 ∷ 0 ∷ 0 ∷ 0 ∷ 5 ∷ 1 ∷ 7 ∷ []) ∷ (2 ∷ 0xab ∷ 0xcd ∷ []) ∷ [])
      (heartbeat ∷ answer ∷ [])
unfolding encode_each encode with_max_frame_length flatten
Receives-encode_each_example =
    Receives-encode_each framer serialiser codec codec (heartbeat ∷ answer ∷ [])
      ((3 ∷ []) ∷ answer_bytes ∷ []) _ ((refl, omega arith), ((refl, omega arith), tt))
      (omega arith) refl refl refl

encode_all_or_nothing_example :
    let r = encode framer serialiser codec answer (9 ∷ []) in
    ((b : List ℕ) × (serialiser.encode_to_vec answer ≡ ok b)
      × (length b ≤ limit framer serialiser codec)
      × (r.result ≡ ok tt)
      × (r.dst ≡ (9 ∷ []) ++ frame_bytes b))
    ⊎ ((b : List ℕ) × (i : IoError) × (serialiser.encode_to_vec answer ≡ ok b)
        × (limit framer serialiser codec < length b)
        × (r.result ≡ err (WireError.io i))
        × (i.kind ≡ invalid_input)
        × (r.dst ≡ 9 ∷ []))
    ⊎ ((x : EncodeError) × (serialiser.encode_to_vec answer ≡ err x)
        × (r.result ≡ err (WireError.encode x))
        × (r.dst ≡ 9 ∷ []))
encode_all_or_nothing_example = encode_all_or_nothing framer serialiser codec answer (9 ∷ [])

decode_frame_outcomes_example :
    (decode framer serialiser codec (0 ∷ 0 ∷ 0 ∷ 3 ∷ 0xff ∷ 0xff ∷ 0xff ∷ [])).src ≡ []
unfolding with_max_frame_length
decode_frame_outcomes_example =
    (decode_frame_outcomes framer serialiser codec (0 ∷ 0 ∷ 0 ∷ 3 ∷ 0xff ∷ 0xff ∷ 0xff ∷ [])
      (0xff ∷ 0xff ∷ 0xff ∷ []) [] refl (omega arith) (omega arith)).1

-- The same between two codecs with the default limit.
