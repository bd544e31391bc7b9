-- ===== src/Runtime.antt =====
-- What the program relies on of tokio's channels and cancellation token. A channel is the value of
-- its shared state, and an operation of one of its ends returns the state that it leaves.
use patina_rpc.Base.{ℕ, suc, ◌-◌, ◌<◌, ◌≡◌, Bool, true, false, List, [], ◌∷◌, ◌++◌, length}

-- What a poll of a `oneshot::Receiver` gives.
pub data Polled (A : Type 0) : Type 0 where
  pending : Polled A
  received : A → Polled A
  recv_error : Polled A

pub record Oneshot (O A : Type 0) : Type 0 where
  pub channel : O
  pub send : A → O → O
  pub drop_tx : O → O
  pub drop_rx : O → O
  pub poll : O → Polled A
  pub poll-channel : poll channel ≡ pending
  pub poll-send : (a : A) → poll (send a channel) ≡ received a
  pub poll-drop_tx : poll (drop_tx channel) ≡ recv_error

-- One poll of `mpsc::Sender::send`: done, waiting for room, or refused since the receiver is gone.
pub data Sent (C : Type 0) : Type 0 where
  sent : C → Sent C
  full : Sent C
  refused : Sent C

-- One poll of `mpsc::Receiver::recv`: `ended` is its `None`.
pub data Received (C A : Type 0) : Type 0 where
  got : A → C → Received C A
  waiting : Received C A
  ended : Received C A

pub record Mpsc (C A : Type 0) : Type 0 where
  pub channel : ℕ → C
  pub send : A → C → Sent C
  pub recv : C → Received C A
  pub clone_tx : C → C
  pub drop_tx : C → C
  pub drop_rx : C → C
  -- What the laws speak of: the messages under way, oldest first, the number of senders, whether
  -- the receiver is there, and the bound.
  pub queue : C → List A
  pub senders : C → ℕ
  pub has_receiver : C → Bool
  pub capacity : C → ℕ
  pub channel_lem :
      (n : ℕ)
      → (queue (channel n) ≡ [])
        × (senders (channel n) ≡ 1)
        × (has_receiver (channel n) ≡ true)
        × (capacity (channel n) ≡ n)
  pub send_lem :
      (a : A) (c c' : C)
      → send a c ≡ sent c'
      → (queue c' ≡ queue c ++ (a ∷ []))
        × (senders c' ≡ senders c)
        × (has_receiver c ≡ true)
        × (has_receiver c' ≡ true)
        × (capacity c' ≡ capacity c)
        × (length (queue c) < capacity c)
  pub send_refused : (a : A) (c : C) → send a c ≡ refused → has_receiver c ≡ false
  pub send_full : (a : A) (c : C) → send a c ≡ full → has_receiver c ≡ true
  pub send_room :
      (a : A) (c : C)
      → has_receiver c ≡ true
      → length (queue c) < capacity c
      → (c' : C) × (send a c ≡ sent c')
  pub recv_got :
      (a : A) (c c' : C)
      → recv c ≡ got a c'
      → (queue c ≡ a ∷ queue c')
        × (senders c' ≡ senders c)
        × (has_receiver c' ≡ has_receiver c)
        × (capacity c' ≡ capacity c)
  pub recv_ready :
      (a : A) (rest : List A) (c : C) → queue c ≡ a ∷ rest → (c' : C) × (recv c ≡ got a c')
  pub recv_closed : (c : C) → queue c ≡ [] → senders c ≡ 0 → recv c ≡ ended
  pub recv_ended : (c : C) → recv c ≡ ended → (queue c ≡ []) × (senders c ≡ 0)
  pub clone_tx_lem :
      (c : C)
      → (queue (clone_tx c) ≡ queue c)
        × (senders (clone_tx c) ≡ suc (senders c))
        × (has_receiver (clone_tx c) ≡ has_receiver c)
        × (capacity (clone_tx c) ≡ capacity c)
  pub drop_tx_lem :
      (c : C)
      → (queue (drop_tx c) ≡ queue c)
        × (senders (drop_tx c) ≡ senders c - 1)
        × (has_receiver (drop_tx c) ≡ has_receiver c)
        × (capacity (drop_tx c) ≡ capacity c)
  pub drop_rx_lem :
      (c : C)
      → (queue (drop_rx c) ≡ [])
        × (senders (drop_rx c) ≡ senders c)
        × (has_receiver (drop_rx c) ≡ false)
        × (capacity (drop_rx c) ≡ capacity c)

pub record CancellationToken (T : Type 0) : Type 0 where
  pub new : T
  pub cancel : T → T
  pub is_cancelled : T → Bool
  pub is_cancelled-new : is_cancelled new ≡ false
  pub is_cancelled-cancel : (t : T) → is_cancelled (cancel t) ≡ true
