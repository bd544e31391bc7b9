-- ===== src/Client/Invariant/Reading.antt =====
-- The steps of the reader keep the invariant.
use patina_rpc.Base.{
  ℕ, ◌≡◌, ◌≢◌, inl, inr, refl, sym, ap, subst, ◌∙◌, [], ◌∷◌, none, some, ◌==◌, nat_eq,
  if◌then◌else◌, Assoc, lookup, remove, lookup-remove, Has, has_value, lookup-Has,
  has_value_of_lookup, has_value-Has, Has-remove, arith, Bool-cases, map,
}
use patina_rpc.Envelope.{Envelope}
use patina_rpc.Runtime.{Oneshot, Polled}
use patina_rpc.Client.{Call, Reader, reading, firing, draining, gone, contains, update, id_of}
use patina_rpc.Client.Invariant.Defs.{
  parked_id, Inv, call_id_of_parked, was_parked_of_parked, Waits-same,
}

pub contains-values :
    (k : ℕ) (m : Assoc ℕ ℕ) → contains k (map (λ entry. entry.1) m) ≡ has_value k m
contains-values k [] = refl
contains-values k ((j, w) ∷ m) = rw (contains-values k m)

module _ {O : Type 0} (oneshot : Oneshot O Envelope) {n i : ℕ} {p : Assoc ℕ ℕ} {cells : ℕ → O}
    {calls : ℕ → Call} {r : Reader} (v : Inv oneshot n i p cells calls r) where
  -- The reader goes on without a sender in its hand.
  pub quiet-Inv :
      (r' : Reader)
      → ((k : ℕ) (e : Envelope) → r ≢ firing k e)
      → ((k : ℕ) (e : Envelope) → r' ≢ firing k e)
      → Inv oneshot n i p cells calls r'
  quiet-Inv r' before after = record {
    counted = v.counted;
    below = v.below;
    unique = v.unique;
    entry = v.entry;
    waits = λ j a h. elim (v.waits j a h) [
      | inl w ↦ inl w
      | inr (inl (e, q, _, _)) ↦ absurd (before j e q)
      | inr (inr w) ↦ inr (inr w)
    ];
    fired = λ j e h. absurd (after j e h);
    aimed = λ j a e h. absurd (after j e h);
  }

  -- An id under which nobody is parked.
  pub missed-Inv : (id : ℕ) → lookup id p ≡ none → Inv oneshot n i (remove id p) cells calls r
  missed-Inv id missing = record {
    counted = v.counted;
    below = v.below;
    unique = v.unique;
    entry = λ j a h. v.entry j a (Has-remove id a j p h).0;
    waits = λ j a h.
        Waits-same oneshot p _ (cells j) _ r j a (v.waits j a h)
          (ground (arith, lookup-remove id a p)) refl;
    fired = λ j e h. ((v.fired j e h).0, λ a g. (v.fired j e h).1 a (Has-remove id a j p g).0);
    aimed = v.aimed;
  }

  pub found-Inv :
      (id k : ℕ) (e : Envelope)
      → ((j : ℕ) (x : Envelope) → r ≢ firing j x)
      → id_of e ≡ some id
      → lookup id p ≡ some k
      → Inv oneshot n i (remove id p) cells calls (firing k e)
  found-Inv id k e before addressed found = record {
    counted = v.counted;
    below = v.below;
    unique = v.unique;
    entry = λ j a h. v.entry j a (Has-remove id a j p h).0;
    waits = λ j a h. elim (Bool-cases (id == a)) [
      | inl hit ↦
          let (q, w) = here in
          let same : j ≡ k =
            v.unique j k id (call_id_of_parked _ id (h ∙ ap some (sym (ground arith))))
              (call_id_of_parked _ id q) in
          inr (
            inl (
              e,
              ap (λ m. firing m e) (sym same),
              addressed ∙ ap some (ground arith),
              ap cells same ∙ w,
            ))
      | inr miss ↦ elim (v.waits j a h) [
        | inl (l, c) ↦ inl (ground (arith, lookup-remove id a p), c)
        | inr (inl (x, q, _, _)) ↦ absurd (before j x q)
        | inr (inr w) ↦ inr (inr w)
      ]
    ];
    fired = λ j x h. (
      ground (arith, was_parked_of_parked (calls k) id here.0),
      λ a g. let (old, other) = Has-remove id a j p g in ground (arith, v.entry j a old, here),
    );
    aimed = λ j a x h g. ground (arith, here);
  }
    where
      here : (parked_id (calls k) ≡ some id) × (cells k ≡ oneshot.channel)
      here = v.entry k id (lookup-Has id k p found)

  pub fire-Inv :
      (k : ℕ) (e : Envelope)
      → r ≡ firing k e
      → Inv oneshot n i p (update cells k (oneshot.send e (cells k))) calls reading
  fire-Inv k e at = record {
    counted = v.counted;
    below = v.below;
    unique = v.unique;
    entry = λ j a h. elim (Bool-cases (k == j)) [
      | inl hit ↦ absurd ((v.fired k e at).1 a (subst (λ m. Has a m p) (ground arith) h))
      | inr miss ↦ ground (arith, v.entry j a h)
    ];
    waits = λ j a h. elim (Bool-cases (k == j)) [
      | inl hit ↦
          let (q, w) = v.aimed k a e at (ground arith) in inr (inr (inl (e, q, ground arith)))
      | inr miss ↦ elim (v.waits j a h) [
        | inl (l, c) ↦ inl (l, ground arith)
        | inr (inl (x, q, _, _)) ↦ absurd (ground arith)
        | inr (inr (inl (x, q, c))) ↦ inr (inr (inl (x, q, ground arith)))
        | inr (inr (inr c)) ↦ inr (inr (inr (ground arith)))
      ]
    ];
    fired = λ j x h. cc;
    aimed = λ j a x h. cc;
  }

  pub drain-Inv :
      (cells' : ℕ → O)
      → r ≡ draining
      → ((j : ℕ) → cells' j ≡ (if has_value j p then oneshot.drop_tx (cells j) else cells j))
      → Inv oneshot n i [] cells' calls gone
  drain-Inv cells' at dropped_all = record {
    counted = v.counted;
    below = v.below;
    unique = v.unique;
    entry = λ j a h. absurd h;
    waits = λ j a h. elim (v.waits j a h) [
      | inl (l, c) ↦ inr (inr (inr (ground (arith, dropped_all j, has_value_of_lookup a j p l))))
      | inr (inl (x, q, _, _)) ↦ absurd (ground arith)
      | inr (inr (inl (x, q, c))) ↦
          inr (inr (inl (x, q, spared j (λ g. cc (oneshot.poll-send x)) c)))
      | inr (inr (inr c)) ↦ inr (inr (inr (spared j (λ g. cc oneshot.poll-drop_tx) c)))
    ];
    fired = λ j x h. cc;
    aimed = λ j a x h. cc;
  }
    where
      -- A channel that was used is not in the map, and is left alone.
      spared : (j : ℕ) {c : O} → oneshot.poll c ≢ Polled.pending → cells j ≡ c → cells' j ≡ c
      spared j used at_c = elim (Bool-cases (has_value j p)) [
        | inl in_map ↦
            let (b, e) = has_value-Has j p in_map in
            absurd (used (ap oneshot.poll (sym at_c ∙ (v.entry j b e).1) ∙ oneshot.poll-channel))
        | inr other ↦ ground (arith, dropped_all j)
      ]
