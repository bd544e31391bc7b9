-- ===== src/Client/State.antt =====
-- crates/patina-rpc/src/client.rs: the state of a `Client` and of its calls and tasks.
use patina_rpc.Base.{
  ℕ, String, List, [], ◌∷◌, Bool, true, false, Option, none, some, Result, ok, err, ◌==◌, nat_eq,
  if◌then◌else◌, ◌||◌,
}
use patina_rpc.Envelope.{Envelope, request, response, error, heartbeat}
use patina_rpc.Error.{PatinaError, closed, from_error_data}
use patina_rpc.Client.Pending.{PendingMap}

abbrev pub client_writer_channel_capacity : ℕ
client_writer_channel_capacity = 128

abbrev pub Outcome : Type 0
Outcome = Result (List ℕ) PatinaError

-- Where a call stands: not begun, past its test of the token, with its id, parked and at
-- `outbound.send`, at `rx.await`, returned, or its future dropped.
pub data Call : Type 0 where
  idle : Call
  entered : Call
  numbered : (id : ℕ) → Call
  sending : (id : ℕ) → Call
  awaiting : (id : ℕ) → Call
  returned : Outcome → Call
  dropped : Call

-- The reader: in its loop, with a sender in hand, out of the loop, past `token.cancel()`, ended.
pub data Reader : Type 0 where
  reading : Reader
  firing : (call : ℕ) → Envelope → Reader
  leaving draining gone : Reader

-- The writer: in its loop, out of it, past `token.cancel()`, ended.
pub data Writer : Type 0 where
  writing stopping cancelled done : Writer

-- What a call is made with.
pub record Args : Type 0 where
  pub method : String
  pub payload : List ℕ

-- `issued` counts the ids that were handed out, for the statements alone; `wire` is what the writer
-- has sent; `held` says that the `Client` has not been dropped.
pub record Client (O C T : Type 0) : Type 0 where
  pub next_id : ℕ
  pub pending : PendingMap
  pub outbound : C
  pub token : T
  pub cells : ℕ → O
  pub calls : ℕ → Call
  pub reader : Reader
  pub writer : Writer
  pub wire : List Envelope
  pub issued : ℕ
  pub held : Bool

-- A call that borrows the client.
abbrev pub in_progress : Call → Bool
in_progress idle = false
in_progress (returned _) = false
in_progress dropped = false
in_progress _ = true

abbrev pub update {ℓ} : {A : Type ℓ} → (ℕ → A) → ℕ → A → ℕ → A
update f k a j = if k == j then a else f j

-- The id by which the reader looks an envelope up.
unfoldable pub id_of : Envelope → Option ℕ
id_of (response r) = some r.id
id_of (error e) = some e.id
id_of heartbeat = none
id_of (request _) = none

-- What `call` returns for what `rx.await` gives.
unfoldable pub outcome : Envelope → Outcome
outcome (response r) = ok r.payload
outcome (error e) = err (from_error_data e)
outcome (request _) = err closed
outcome heartbeat = err closed

-- `match pending.take(id)`
abbrev pub after_look_up : Option ℕ → Envelope → Reader
after_look_up none e = reading
after_look_up (some k) e = firing k e

abbrev pub contains : ℕ → List ℕ → Bool
contains j [] = false
contains j (k ∷ ks) = (k == j) || contains j ks
