-- ===== src/Examples/Parts.antt =====
-- A length-delimited codec, a serialiser, channels and a token, with the laws that are relied on.
mod Framing
pub use Framing.*
use patina_rpc.Base.{
  ℕ, zero, suc, ◌+◌, ◌-◌, ◌<◌, ◌≡◌, refl, ap, List, [], ◌∷◌, ◌++◌, Bool, true, false, Result, ok,
  err, ltb, if◌then◌else◌, arith, length, take, take-append, ◌==◌, nat_eq,
}
use patina_rpc.Envelope.{Envelope, request, response, error, heartbeat}
use patina_rpc.Error.{EncodeError, DecodeError}
use patina_rpc.Codec.{Bincode}
use patina_rpc.Runtime.{
  Oneshot, Polled, recv_error, Mpsc, Sent, sent, full, refused, Received, got, waiting, ended,
  CancellationToken,
}

-- Heartbeats and responses, a number to a byte.
abbrev encode_value : Envelope → Result (List ℕ) EncodeError
encode_value heartbeat = ok (3 ∷ [])
encode_value (response r) = ok (1 ∷ r.id ∷ length r.payload ∷ r.payload)
encode_value _ = err (record { text = "unsupported" })

abbrev bad : Result (Envelope × ℕ) DecodeError
bad = err (record { text = "malformed" })

abbrev decode_value : List ℕ → Result (Envelope × ℕ) DecodeError
decode_value (suc (suc (suc zero)) ∷ rest) = ok (heartbeat, 1)
decode_value (suc zero ∷ id ∷ n ∷ rest) =
    ok (response (record { id = id; payload = take n rest }), 3 + length (take n rest))
decode_value _ = bad

pub decode-encode_value :
    (e : Envelope) (bytes rest : List ℕ)
    → encode_value e ≡ ok bytes
    → decode_value (bytes ++ rest) ≡ ok (e, length bytes)
decode-encode_value heartbeat bytes rest h = let e : bytes ≡ 3 ∷ [] = cc in rw e
decode-encode_value (response r) bytes rest h =
    let e : bytes ≡ 1 ∷ r.id ∷ length r.payload ∷ r.payload = cc in
    rw e (rw (take-append r.payload rest) (ap (λ n. ok (response r, n)) (omega arith)))
decode-encode_value (request _) bytes rest h = cc
decode-encode_value (error _) bytes rest h = cc

abbrev pub serialiser : Bincode Envelope
serialiser = record {
  encode_to_vec = encode_value;
  decode_from_slice = decode_value;
  decode-encode = decode-encode_value;
}

-- A one-shot channel is what its receiver finds.
abbrev pub cell : Oneshot (Polled Envelope) Envelope
cell = record {
  channel = Polled.pending;
  send = λ e o. Polled.received e;
  drop_tx = λ o. recv_error;
  drop_rx = λ o. o;
  poll = λ o. o;
  poll-channel = refl;
  poll-send = λ e. refl;
  poll-drop_tx = refl;
}

pub record Chan : Type 0 where
  pub queue : List Envelope
  pub senders : ℕ
  pub has_receiver : Bool
  pub capacity : ℕ

abbrev send_if : Bool → Bool → Envelope → Chan → Sent Chan
send_if false room e c = refused
send_if true false e c = full
send_if true true e c = sent (record c { queue = c.queue ++ (e ∷ []) })

abbrev send_chan : Envelope → Chan → Sent Chan
send_chan e c = send_if c.has_receiver (ltb (length c.queue) c.capacity) e c

abbrev recv_from : List Envelope → Chan → Received Chan Envelope
recv_from [] c = if c.senders == 0 then ended else waiting
recv_from (e ∷ es) c = got e (record c { queue = es })

pub send_chan_lem :
    (a : Envelope) (c c' : Chan)
    → send_chan a c ≡ sent c'
    → (c'.queue ≡ c.queue ++ (a ∷ []))
      × (c'.senders ≡ c.senders)
      × (c.has_receiver ≡ true)
      × (c'.has_receiver ≡ true)
      × (c'.capacity ≡ c.capacity)
      × (length c.queue < c.capacity)
send_chan_lem a c c' h = ground arith

pub send_chan_refused : (a : Envelope) (c : Chan) → send_chan a c ≡ refused → c.has_receiver ≡ false
send_chan_refused a c h = ground arith

pub send_chan_full : (a : Envelope) (c : Chan) → send_chan a c ≡ full → c.has_receiver ≡ true
send_chan_full a c h = ground arith

pub send_chan_room :
    (a : Envelope) (c : Chan)
    → c.has_receiver ≡ true
    → length c.queue < c.capacity
    → (c' : Chan) × (send_chan a c ≡ sent c')
send_chan_room a c h room = (record c { queue = c.queue ++ (a ∷ []) }, ground arith)

pub recv_chan_got :
    (a : Envelope) (c c' : Chan)
    → recv_from c.queue c ≡ got a c'
    → (c.queue ≡ a ∷ c'.queue)
      × (c'.senders ≡ c.senders)
      × (c'.has_receiver ≡ c.has_receiver)
      × (c'.capacity ≡ c.capacity)
recv_chan_got a c c' h = ground arith

pub recv_chan_ready :
    (a : Envelope) (rest : List Envelope) (c : Chan)
    → c.queue ≡ a ∷ rest
    → (c' : Chan) × (recv_from c.queue c ≡ got a c')
recv_chan_ready a rest c h = (record c { queue = rest }, ap (λ q. recv_from q c) h)

pub recv_chan_closed : (c : Chan) → c.queue ≡ [] → c.senders ≡ 0 → recv_from c.queue c ≡ ended
recv_chan_closed c h n = ground arith

pub recv_chan_ended : (c : Chan) → recv_from c.queue c ≡ ended → (c.queue ≡ []) × (c.senders ≡ 0)
recv_chan_ended c h = ground arith

abbrev pub chan : Mpsc Chan Envelope
chan = record {
  channel = λ n. record { queue = []; senders = 1; has_receiver = true; capacity = n };
  send = send_chan;
  recv = λ c. recv_from c.queue c;
  clone_tx = λ c. record c { senders = suc c.senders };
  drop_tx = λ c. record c { senders = c.senders - 1 };
  drop_rx = λ c. record c { queue = []; has_receiver = false };
  queue = λ c. c.queue;
  senders = λ c. c.senders;
  has_receiver = λ c. c.has_receiver;
  capacity = λ c. c.capacity;
  channel_lem = λ n. (refl, refl, refl, refl);
  send_lem = send_chan_lem;
  send_refused = send_chan_refused;
  send_full = send_chan_full;
  send_room = send_chan_room;
  recv_got = recv_chan_got;
  recv_ready = recv_chan_ready;
  recv_closed = recv_chan_closed;
  recv_ended = recv_chan_ended;
  clone_tx_lem = λ c. (refl, refl, refl, refl);
  drop_tx_lem = λ c. (refl, refl, refl, refl);
  drop_rx_lem = λ c. (refl, refl, refl, refl);
}

abbrev pub flag : CancellationToken Bool
flag = record {
  new = false;
  cancel = λ t. true;
  is_cancelled = λ t. t;
  is_cancelled-new = refl;
  is_cancelled-cancel = λ t. refl;
}
