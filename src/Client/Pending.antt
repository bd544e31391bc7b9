-- ===== src/Client/Pending.antt =====
-- crates/patina-rpc/src/client.rs: `PendingMap` and `PendingGuard`. A sender is known by the number
-- of the call that waits at its other end. The lock makes each operation one step.
pub mod Tests
use patina_rpc.Base.{
  ℕ, ◌≡◌, refl, List, [], map, Assoc, Bool, true, false, Option, none, some, length, length-map,
  lookup, lookup-insert, lookup-remove, insert as map_insert, remove as map_remove, nat_eq, ◌==◌,
  if◌then◌else◌,
}

pub record PendingMap : Type 0 where
  pub inner : Assoc ℕ ℕ

unfoldable pub default : PendingMap
default = record { inner = [] }

-- `insert` also gives the sender that was parked under the id, which the caller drops.
unfoldable pub insert : ℕ → ℕ → PendingMap → Option ℕ × PendingMap
insert id tx m = (lookup id m.inner, record { inner = map_insert id tx m.inner })

unfoldable pub take : ℕ → PendingMap → Option ℕ × PendingMap
take id m = (lookup id m.inner, record { inner = map_remove id m.inner })

-- `remove` gives the sender that it drops.
unfoldable pub remove : ℕ → PendingMap → Option ℕ × PendingMap
remove id m = (lookup id m.inner, record { inner = map_remove id m.inner })

unfoldable pub drain : PendingMap → List ℕ × PendingMap
unfolding default
drain m = (map (λ entry. entry.1) m.inner, default)

unfoldable pub len : PendingMap → ℕ
len m = length m.inner

pub record PendingGuard : Type 0 where
  pub id : ℕ
  pub armed : Bool

unfoldable pub disarm : PendingGuard → PendingGuard
disarm g = record g { armed = false }

-- `Drop for PendingGuard`: what it does to the map.
unfoldable pub drop : PendingGuard → PendingMap → Option ℕ × PendingMap
unfolding remove
drop g m = if g.armed then remove g.id m else (none, m)

-- The sender parked under an id.
abbrev pub parked : ℕ → PendingMap → Option ℕ
parked id m = lookup id m.inner

-- What each operation gives, and whom it leaves parked: `insert` parks one sender over whoever had
-- its id; `take` hands out the sender of its id and unparks it; an armed guard unparks its id, a
-- disarmed one nobody; `drain` hands out one sender for each entry and leaves none.
pub parked-after :
    (m : PendingMap) (id tx j : ℕ) (g : PendingGuard)
    → (parked j (insert id tx m).1 ≡ (if id == j then some tx else parked j m))
      × ((take id m).0 ≡ parked id m)
      × (parked j (take id m).1 ≡ (if id == j then none else parked j m))
      × (parked j (drop (record g { armed = true }) m).1 ≡ (if g.id == j then none else parked j m))
      × ((drop (disarm g) m).1 ≡ m)
      × (length (drain m).0 ≡ len m)
      × (parked j (drain m).1 ≡ none)
      × (len (drain m).1 ≡ 0)
unfolding insert take drop disarm drain len lookup
parked-after m id tx j g = (
  lookup-insert id j tx m.inner,
  refl,
  lookup-remove id j m.inner,
  lookup-remove g.id j m.inner,
  refl,
  length-map _ m.inner,
  refl,
  refl,
)
