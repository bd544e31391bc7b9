-- ===== src/Client/Pending/Tests.antt =====
-- The unit tests of crates/patina-rpc/src/client.rs, on `PendingMap` and `PendingGuard`. Each
-- `dummy_sender()` is a sender of its own, an argument here.
use patina_rpc.Base.{
  ◌>>=◌, ℕ, ◌≡◌, refl, true, not, length, Test, passed, assert, is_none, ◌==◌, nat_eq,
  insert as map_insert, lookup,
}
use patina_rpc.Client.Pending.{default, insert, take, drain, len, disarm, drop}

unfoldable pub pending_map_insert_take_round_trips : ℕ → Test
pending_map_insert_take_round_trips sender =
    let (_, one) = insert 7 sender default in
    let (taken, emptied) = take 7 one in
    let (again, _) = take 7 emptied in
    do
      _ ← assert (len default == 0)
      _ ← assert (len one == 1)
      _ ← assert (not (is_none taken))
      _ ← assert (len emptied == 0)
      assert (is_none again)

unfoldable pub pending_map_drain_returns_all_and_empties : ℕ → ℕ → ℕ → Test
pending_map_drain_returns_all_and_empties first second third =
    let (_, one) = insert 1 first default in
    let (_, two) = insert 2 second one in
    let (_, three) = insert 3 third two in
    let (drained, emptied) = drain three in
    do
      _ ← assert (length drained == 3)
      _ ← assert (len emptied == 0)
      assert (length (drain emptied).0 == 0)

unfoldable pub armed_guard_removes_entry_on_drop : ℕ → Test
armed_guard_removes_entry_on_drop sender =
    let (_, one) = insert 42 sender default in
    let (_, left) = drop (record { id = 42; armed = true }) one in assert (len left == 0)

unfoldable pub disarmed_guard_leaves_entry_on_drop : ℕ → Test
disarmed_guard_leaves_entry_on_drop sender =
    let (_, one) = insert 42 sender default in
    let (_, left) = drop (disarm (record { id = 42; armed = true })) one in assert (len left == 1)

-- The tests pass, whatever their senders are.
pub pending_tests_pass :
    (first second third : ℕ)
    → (pending_map_insert_take_round_trips first ≡ passed)
      × (pending_map_drain_returns_all_and_empties first second third ≡ passed)
      × (armed_guard_removes_entry_on_drop first ≡ passed)
      × (disarmed_guard_leaves_entry_on_drop first ≡ passed)
unfolding pending_map_insert_take_round_trips pending_map_drain_returns_all_and_empties
    armed_guard_removes_entry_on_drop disarmed_guard_leaves_entry_on_drop insert take drain len
    disarm drop default map_insert lookup
pending_tests_pass first second third = (refl, refl, refl, refl)
