-- ===== src/Demos/Echo.antt =====
-- crates/patina-rpc/examples/echo.rs: a task that sends back every envelope that it reads, and a
-- client that sends envelopes one by one and waits for each to come back. The bytes of a message
-- arrive whole.
use patina_rpc.Base.{
  ℕ, ◌*◌, ◌^◌, ◌<◌, ◌≡◌, refl, sym, ap, ◌∙◌, List, [], ◌∷◌, ◌++◌, map, Option, none, some, Result,
  ok, err, arith,
}
use mathlib.Core.List.{append-nil}
use patina_rpc.Envelope.{Envelope, request, response, error, heartbeat}
use patina_rpc.Error.{WireError}
use patina_rpc.Codec.{
  with_max_frame_length, LengthDelimited, Bincode, WireCodec, decode, encode, new,
  default_max_frame_len,
}
use patina_rpc.Codec.Default.{limit-new}
use patina_rpc.Codec.RoundTrip.{unread, limit, Encodes, encode_fits, decode-encode}
use patina_rpc.Codec.Stream.{Bodies}

-- `Framed`, with the bytes that have arrived and are not read yet.
pub record Framed (S : Type 0) : Type 0 where
  pub codec : WireCodec S
  pub src : List ℕ

-- What the client sends: "hi" to "ping", "pong", an error, and a heartbeat.
abbrev pub envelopes : List Envelope
envelopes =
    request (record { id = 1; method = "ping"; payload = 104 ∷ 105 ∷ [] })
    ∷ response (record { id = 1; payload = 112 ∷ 111 ∷ 110 ∷ 103 ∷ [] })
    ∷ error (record { id = 2; code = 418; message = "i am a teapot" })
    ∷ heartbeat
    ∷ []

-- What came back to the client, and both ends after it.
pub record Exchange (S : Type 0) : Type 0 where
  pub echoed : Result (Option Envelope) WireError
  pub client : Framed S
  pub server : Framed S

module _ {S : Type 0} (ldc : LengthDelimited S) (bin : Bincode Envelope) where
  -- `Framed::new(socket, WireCodec::new())`
  abbrev pub framed_new : Framed S
  framed_new = record { codec = new ldc; src = [] }

  -- The server has read `f` with what `read` left, and sends it back.
  abbrev send_back : WireCodec S → Framed S → Envelope → Framed S → Exchange S
  send_back codec server f client =
      let back = encode ldc bin server.codec f [] in
      let heard = decode ldc bin codec (client.src ++ back.dst) in
      record {
        echoed = heard.result;
        client = record { codec = heard.codec; src = heard.src };
        server = record { codec = back.codec; src = server.src };
      }

  -- One round of the client's loop, with the round of the server's that answers it; a server that
  -- does not read an envelope is gone, and its stream ends.
  unfoldable pub exchange : Envelope → Framed S → Framed S → Exchange S
  exchange e client server =
      let asked = encode ldc bin client.codec e [] in
      let read = decode ldc bin server.codec (server.src ++ asked.dst) in
      let left : Framed S = record { codec = read.codec; src = read.src } in
      elim read.result [
        | ok (some f) ↦ send_back asked.codec left f client
        | ok none ↦ record { echoed = ok none; client = client; server = left }
        | err x ↦ record { echoed = ok none; client = client; server = left }
      ]

  -- What the client's loop sees; it ends at the first envelope that does not come back.
  unfoldable pub echoes :
      List Envelope → Framed S → Framed S → List (Result (Option Envelope) WireError)
  echoes [] client server = []
  echoes (e ∷ es) client server =
      let x = exchange e client server in
      elim x.echoed [
        | ok (some f) ↦ ok (some f) ∷ echoes es x.client x.server
        | ok none ↦ ok none ∷ []
        | err y ↦ err y ∷ []
      ]

  -- Nothing is left unread, and the limit is `n`.
  record IsIdle (n : ℕ) (f : Framed S) : Type 0 where
    nothing : f.src ≡ []
    taken : ldc.taken f.codec.inner ≡ []
    limited : limit ldc bin f.codec ≡ n

  arrives :
      (n : ℕ) (f : Framed S) (bytes : List ℕ)
      → IsIdle n f
      → unread ldc bin f.codec (f.src ++ bytes) ≡ bytes ++ []
  arrives n f bytes v = rw (v.taken, v.nothing) (sym (append-nil bytes))

  -- An envelope goes from one end to the other.
  hop :
      (n : ℕ) (e : Envelope) (bytes : List ℕ) (c : WireCodec S) (f : Framed S)
      → n < 2 ^ 32
      → Encodes ldc bin n e bytes
      → limit ldc bin c ≡ n
      → IsIdle n f
      → let sent = encode ldc bin c e [] in
        let heard = decode ldc bin f.codec (f.src ++ sent.dst) in
        (heard.result ≡ ok (some e))
        × IsIdle n (record { codec = heard.codec; src = heard.src })
        × (sent.codec ≡ c)
  hop n e bytes c f small enc at v =
      let fits : Encodes ldc bin (limit ldc bin c) e bytes = rw at enc in
      let (_, r, t, s, l) =
        decode-encode ldc bin c f.codec e bytes (f.src ++ (encode ldc bin c e []).dst) [] fits
          (v.limited ∙ sym at) (omega (arith, at, small))
          (arrives n f (encode ldc bin c e []).dst v) in
      (
        r,
        record { nothing = s; taken = t; limited = l ∙ at },
        (encode_fits ldc bin c e bytes [] fits).2,
      )

  exchange_lem :
      (n : ℕ) (e : Envelope) (bytes : List ℕ) (client server : Framed S)
      → n < 2 ^ 32
      → Encodes ldc bin n e bytes
      → IsIdle n client
      → IsIdle n server
      → let x = exchange e client server in
        (x.echoed ≡ ok (some e)) × IsIdle n x.client × IsIdle n x.server
  unfolding exchange
  exchange_lem n e bytes client server small enc c s =
      let asked = encode ldc bin client.codec e [] in
      let read = decode ldc bin server.codec (server.src ++ asked.dst) in
      let left : Framed S = record { codec = read.codec; src = read.src } in
      let (there, left_idle, same) = hop n e bytes client.codec server small enc c.limited s in
      let waiting : Framed S = record { codec = asked.codec; src = client.src } in
      let waiting_idle : IsIdle n waiting = record {
        nothing = c.nothing;
        taken = ap (λ k. ldc.taken k.inner) same ∙ c.taken;
        limited = ap (limit ldc bin) same ∙ c.limited;
      } in
      let (back, heard_idle, kept) =
        hop n e bytes left.codec waiting small enc left_idle.limited waiting_idle in
      rw (there, exchange)
        (
          back,
          heard_idle,
          record {
            nothing = left_idle.nothing;
            taken = ap (λ k. ldc.taken k.inner) kept ∙ left_idle.taken;
            limited = ap (limit ldc bin) kept ∙ left_idle.limited;
          },
        )

  echoes_idle :
      (n : ℕ) (es : List Envelope) (bs : List (List ℕ)) (client server : Framed S)
      → n < 2 ^ 32
      → Bodies ldc bin n es bs
      → IsIdle n client
      → IsIdle n server
      → echoes es client server ≡ map (λ e. ok (some e)) es
  unfolding echoes
  echoes_idle n [] [] client server small h c s = refl
  echoes_idle n [] (b ∷ bs) client server small h c s = refl
  echoes_idle n (e ∷ es) [] client server small h c s = elim h [ ]
  echoes_idle n (e ∷ es) (b ∷ bs) client server small (enc, h) c s =
      let x = exchange e client server in
      let (back, c', s') = exchange_lem n e b client server small enc c s in
      rw (back, echoes)
        (ap (λ l. ok (some e) ∷ l) (echoes_idle n es bs x.client x.server small h c' s'))

  -- Between two ends as the program makes them.
  echoes_lem :
      (es : List Envelope) (bs : List (List ℕ))
      → Bodies ldc bin (64 * 1024 * 1024) es bs
      → echoes es framed_new framed_new ≡ map (λ e. ok (some e)) es
  unfolding new with_max_frame_length
  echoes_lem es bs h =
      let idle : IsIdle default_max_frame_len framed_new = record {
        nothing = refl;
        taken = ldc.new_codec-taken default_max_frame_len;
        limited = limit-new ldc bin;
      } in
      echoes_idle default_max_frame_len es bs framed_new framed_new (omega arith) h idle idle

  -- The program's assertion, for any serialisation of its four envelopes in at most 64 MiB each.
  pub program_echoes :
      (bs : List (List ℕ))
      → Bodies ldc bin (64 * 1024 * 1024) envelopes bs
      → echoes envelopes framed_new framed_new ≡ map (λ e. ok (some e)) envelopes
  program_echoes bs h = echoes_lem envelopes bs h
