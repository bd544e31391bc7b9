-- ===== src/Client/Invariant/Calls.antt =====
-- The steps of a call keep the invariant.
use patina_rpc.Base.{
  ℕ, suc, ◌+◌, ◌%◌, ◌^◌, ◌<◌, ◌≡◌, ◌≢◌, inl, inr, ◌∙◌, true, none, some, ◌==◌, nat_eq, Assoc,
  lookup, insert, lookup-insert, Has, lookup-Has, Has-remove, arith, Bool-cases, Option-cases,
}
use patina_rpc.Envelope.{Envelope}
use patina_rpc.Runtime.{Oneshot}
use patina_rpc.Client.{Call, idle, entered, numbered, sending, awaiting, Reader, update}
use patina_rpc.Client.Invariant.Defs.{
  call_id, parked_id, was_parked, Inv, call_id_of_parked, Waits-same,
}

module _ {O : Type 0} (oneshot : Oneshot O Envelope) {n i : ℕ} {p : Assoc ℕ ℕ} {cells : ℕ → O}
    {calls : ℕ → Call} {r : Reader} (v : Inv oneshot n i p cells calls r) (k : ℕ) where
  pub enter-Inv :
      (c : Call)
      → calls k ≡ idle
      → call_id c ≡ none
      → parked_id c ≡ none
      → Inv oneshot n i p cells (update calls k c) r
  enter-Inv c at no_id unparked = record {
    counted = v.counted;
    below = λ j id h. ground (arith, v.below j id);
    unique = λ a b id h g. ground (arith, v.unique a b id);
    entry = λ j id h. ground (arith, v.entry j id h);
    waits = λ j id h. v.waits j id (ground arith);
    fired = λ j e h. ground (arith, v.fired j e h);
    aimed = λ j id e h g. v.aimed j id e h (ground arith);
  }

  pub fetch_add-Inv :
      calls k ≡ entered
      → suc i < 2 ^ 64
      → Inv oneshot ((n + 1) % 2 ^ 64) (suc i) p cells (update calls k (numbered n)) r
  fetch_add-Inv at fits = record {
    counted = omega (arith, v.counted);
    below = λ j id h. ground (arith, v.below j id, v.counted);
    unique = λ a b id h g. ground (arith, v.unique a b id, v.below a id, v.below b id, v.counted);
    entry = λ j id h. ground (arith, v.entry j id h);
    waits = λ j id h. v.waits j id (ground arith);
    fired = λ j e h. ground (arith, v.fired j e h);
    aimed = λ j id e h g. v.aimed j id e h (ground arith);
  }

  -- No sender stands in the map under the id of a call that is not parked yet.
  pub nobody_parked : (id : ℕ) → calls k ≡ numbered id → lookup id p ≡ none
  nobody_parked id at = elim (Option-cases (lookup id p)) [
    | inl e ↦ e
    | inr (j, e) ↦ absurd (ground (arith, v.entry j id (lookup-Has id j p e), v.unique j k id))
  ]

  pub park-Inv :
      (id : ℕ)
      → calls k ≡ numbered id
      → Inv oneshot n i
          (insert id k p)
          (update cells k oneshot.channel)
          (update calls k (sending id))
          r
  unfolding insert
  park-Inv id at = record {
    counted = v.counted;
    below = λ j a h. ground (arith, v.below j a, v.below k id);
    unique = λ a b c h g. ground (arith, v.unique a b c, v.unique a k c, v.unique k b c);
    entry = λ j a h. elim h [
      | inl (q, w) ↦ ground arith
      | inr t ↦ ground (arith, v.entry j a (Has-remove id a j p t).0)
    ];
    waits = λ j a h. elim (Bool-cases (k == j)) [
      | inl here ↦ inl (ground (arith, lookup-insert id a k p), ground arith)
      | inr other ↦
          Waits-same oneshot p _ (cells j) _ r j a (v.waits j a (ground arith))
            (ground (arith, lookup-insert id a k p, v.unique j k a, call_id_of_parked (calls j) a))
            (ground arith)
    ];
    fired = λ j e h. (
      ground (arith, v.fired j e h),
      λ a g. elim g [
        | inl (q, w) ↦ ground (arith, v.fired j e h)
        | inr t ↦ (v.fired j e h).1 a (Has-remove id a j p t).0
      ],
    );
    aimed = λ j a e h g. ground (arith, v.aimed j a e h, v.fired j e h);
  }

  pub resubmit-Inv :
      (id : ℕ) → calls k ≡ sending id → Inv oneshot n i p cells (update calls k (awaiting id)) r
  resubmit-Inv id at = record {
    counted = v.counted;
    below = λ j a h. ground (arith, v.below j a);
    unique = λ a b c h g. ground (arith, v.unique a b c);
    entry = λ j a h. ground (arith, v.entry j a h);
    waits = λ j a h. v.waits j a (ground arith);
    fired = λ j e h. ground (arith, v.fired j e h);
    aimed = λ j a e h g. v.aimed j a e h (ground arith);
  }

  -- A parked call ends, and its entry with it, if it has one.
  pub leave-Inv :
      (id : ℕ) (c : Call) (p' : Assoc ℕ ℕ) (cells' : ℕ → O)
      → parked_id (calls k) ≡ some id
      → call_id c ≡ none
      → parked_id c ≡ none
      → was_parked c ≡ true
      → ((j a : ℕ) → Has a j p' → Has a j p × (j ≢ k))
      → ((a : ℕ) → a ≢ id → lookup a p' ≡ lookup a p)
      → ((j : ℕ) → j ≢ k → cells' j ≡ cells j)
      → Inv oneshot n i p' cells' (update calls k c) r
  leave-Inv id c p' cells' at no_id unparked was kept found same = record {
    counted = v.counted;
    below = λ j a h. ground (arith, v.below j a);
    unique = λ a b d h g. ground (arith, v.unique a b d);
    entry = λ j a h. let (old, other) = kept j a h in ground (arith, v.entry j a old, same j other);
    waits = λ j a h. elim (Bool-cases (k == j)) [
      | inl here ↦ absurd (ground arith)
      | inr other ↦
          Waits-same oneshot p _ (cells j) _ r j a (v.waits j a (ground arith))
            (found a (λ q. ground (
              arith,
              v.unique j k a,
              call_id_of_parked (calls j) a,
              call_id_of_parked (calls k) id,
            )))
            (same j (λ q. ground arith))
    ];
    fired = λ j e h. (ground (arith, v.fired j e h), λ a g. (v.fired j e h).1 a (kept j a g).0);
    aimed = λ j a e h g. elim (Bool-cases (k == j)) [
      | inl here ↦ absurd (ground arith)
      | inr other ↦
          let (q, w) = v.aimed j a e h (ground arith) in (q, same j (λ x. ground arith) ∙ w)
    ];
  }
