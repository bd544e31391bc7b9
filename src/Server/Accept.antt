-- ===== src/Server/Accept.antt =====
-- crates/patina-rpc/src/server.rs: `Server::serve`, on what `listener.accept()` gives, one result
-- after the other. A connection `P` is served by a task of its own, whose end the loop does not see.
use patina_rpc.Base.{
  ◌≡◌, refl, ◌⊎◌, inl, inr, List, [], ◌∷◌, ◌++◌, map, Option, none, some, Result, ok, err, ap,
}
use patina_rpc.Error.{PatinaError, wire, io, IoError, from_io_error}

-- The connections that were spawned, and what the loop returned, if it has.
pub record Served (P : Type 0) : Type 0 where
  pub spawned : List P
  pub result : Option PatinaError

module _ {P : Type 0} where
  unfoldable pub serve : List (Result P IoError) → Served P
  serve [] = record { spawned = []; result = none }
  serve (ok stream ∷ accepts) =
      let rest = serve accepts in record { spawned = stream ∷ rest.spawned; result = rest.result }
  serve (err e ∷ accepts) = record { spawned = []; result = some (from_io_error e) }

  -- The loop serves every connection that it accepts, in their order, and runs on; or, at the
  -- first error of `accept`, it has served every connection before it, returns that error, and
  -- serves none after it.
  pub serve_lem :
      (accepts : List (Result P IoError))
      → ((ps : List P) × (accepts ≡ map ok ps)
          × (serve accepts ≡ record { spawned = ps; result = none }))
        ⊎ ((ps : List P) × (e : IoError) × (rest : List (Result P IoError)) × (accepts
              ≡ map ok ps ++ (err e ∷ rest))
            × (serve accepts ≡ record { spawned = ps; result = some (wire (io e)) }))
  unfolding serve
  serve_lem [] = inl ([], refl, refl)
  serve_lem (err e ∷ accepts) = inr ([], e, accepts, refl, refl)
  serve_lem (ok p ∷ accepts) = elim (serve_lem accepts) [
    | inl (ps, q, s) ↦ inl (p ∷ ps, ap (◌∷◌ (ok p)) q, rw s)
    | inr (ps, e, rest, q, s) ↦ inr (p ∷ ps, e, rest, ap (◌∷◌ (ok p)) q, rw s)
  ]
