-- ===== src/Client/Invariant/Defs.antt =====
-- The invariant of a client: who is parked where, under which id.
use patina_rpc.Base.{
  ℕ, ◌<◌, ◌≡◌, ◌⊎◌, Bool, true, false, Option, none, some, nat_eq, Assoc, lookup, Has, arith,
}
use patina_rpc.Envelope.{Envelope}
use patina_rpc.Runtime.{Oneshot}
use patina_rpc.Client.{Call, idle, entered, numbered, sending, awaiting, Reader, firing, id_of}

-- The id of a call that has one and has not ended, and of one that is parked.
abbrev pub call_id : Call → Option ℕ
call_id (numbered id) = some id
call_id (sending id) = some id
call_id (awaiting id) = some id
call_id _ = none

abbrev pub parked_id : Call → Option ℕ
parked_id (sending id) = some id
parked_id (awaiting id) = some id
parked_id _ = none

-- It has been parked, now or before.
abbrev pub was_parked : Call → Bool
was_parked idle = false
was_parked entered = false
was_parked (numbered _) = false
was_parked _ = true

pub was_parked_of_parked : (c : Call) (id : ℕ) → parked_id c ≡ some id → was_parked c ≡ true
was_parked_of_parked c id h = ground arith

pub call_id_of_parked : (c : Call) (id : ℕ) → parked_id c ≡ some id → call_id c ≡ some id
call_id_of_parked c id h = ground arith

module _ {O : Type 0} (oneshot : Oneshot O Envelope) where
  -- Where the answer to a parked call is: still to be found through the map, in the reader's hand,
  -- in the channel, or never to come since the sender is gone.
  abbrev pub Waits : Assoc ℕ ℕ → O → Reader → ℕ → ℕ → Type 0
  Waits pending cell reader k id =
      ((lookup id pending ≡ some k) × (cell ≡ oneshot.channel))
      ⊎ ((e : Envelope) × (reader ≡ firing k e) × (id_of e ≡ some id) × (cell ≡ oneshot.channel))
      ⊎ ((e : Envelope) × (id_of e ≡ some id) × (cell ≡ oneshot.send e oneshot.channel))
      ⊎ (cell ≡ oneshot.drop_tx oneshot.channel)

  -- It depends on the map only at the call's id.
  pub Waits-same :
      (p p' : Assoc ℕ ℕ) (c c' : O) (r : Reader) (k id : ℕ)
      → Waits p c r k id
      → lookup id p' ≡ lookup id p
      → c' ≡ c
      → Waits p' c' r k id
  Waits-same p p' c c' r k id w l e = rw (l, e) w

  pub record Inv (next_id issued : ℕ) (pending : Assoc ℕ ℕ) (cells : ℕ → O) (calls : ℕ → Call)
      (reader : Reader) : Type 0 where
    pub counted : next_id ≡ issued
    pub below : (k id : ℕ) → call_id (calls k) ≡ some id → id < issued
    pub unique : (j k id : ℕ) → call_id (calls j) ≡ some id → call_id (calls k) ≡ some id → j ≡ k
    pub entry :
        (k id : ℕ)
        → Has id k pending
        → (parked_id (calls k) ≡ some id) × (cells k ≡ oneshot.channel)
    pub waits : (k id : ℕ) → parked_id (calls k) ≡ some id → Waits pending (cells k) reader k id
    -- The call whose sender the reader holds has no entry, and an empty channel.
    pub fired :
        (k : ℕ) (e : Envelope)
        → reader ≡ firing k e
        → (was_parked (calls k) ≡ true) × ((id : ℕ) → ¬ Has id k pending)
    pub aimed :
        (k id : ℕ) (e : Envelope)
        → reader ≡ firing k e
        → parked_id (calls k) ≡ some id
        → (id_of e ≡ some id) × (cells k ≡ oneshot.channel)
