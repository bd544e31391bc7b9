-- ===== src/Server/Connection/Tally.antt =====
-- How often an id stands among replies, workers and requests.
use patina_rpc.Base.{
  ℕ, ◌+◌, ◌≡◌, List, [], ◌∷◌, ◌++◌, Option, none, some, ◌==◌, if◌then◌else◌, arith, nat_eq,
}
use patina_rpc.Envelope.{Envelope, RequestData}
use patina_rpc.Server.Registry.{reply_id}
use patina_rpc.Server.Connection.{Worker, working, replying}

abbrev pub is_for : ℕ → Option ℕ → ℕ
is_for i none = 0
is_for i (some j) = if i == j then 1 else 0

-- How many of the replies, workers or requests carry the id `i`.
abbrev pub replies_for : ℕ → List Envelope → ℕ
replies_for i [] = 0
replies_for i (e ∷ es) = is_for i (reply_id e) + replies_for i es

abbrev pub worker_id : Worker → Option ℕ
worker_id (working req) = some req.id
worker_id (replying e) = reply_id e

abbrev pub workers_for : ℕ → List Worker → ℕ
workers_for i [] = 0
workers_for i (w ∷ ws) = is_for i (worker_id w) + workers_for i ws

abbrev pub requests_for : ℕ → List RequestData → ℕ
requests_for i [] = 0
requests_for i (r ∷ rs) = is_for i (some r.id) + requests_for i rs

pub replies_for-append :
    (i : ℕ) (xs ys : List Envelope) → replies_for i (xs ++ ys) ≡ replies_for i xs + replies_for i ys
replies_for-append i [] ys = omega arith
replies_for-append i (x ∷ xs) ys = omega (arith, replies_for-append i xs ys)

pub workers_for-append :
    (i : ℕ) (xs ys : List Worker) → workers_for i (xs ++ ys) ≡ workers_for i xs + workers_for i ys
workers_for-append i [] ys = omega arith
workers_for-append i (x ∷ xs) ys = omega (arith, workers_for-append i xs ys)
