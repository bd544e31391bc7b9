-- ===== src/Server/Registry.antt =====
-- Which handler answers which method, after any registrations.
use Prim.Native.String.{◌++◌ as text_append}
use mathlib.Core.List.{foldl}
use patina_rpc.Base.{
  ℕ, ◌≡◌, refl, ◌⊎◌, inl, inr, Bool, false, ◌||◌, String, List, [], ◌∷◌, Assoc, Option, none, some,
  ok, err, lookup, ap, ◌∙◌, Result-cases, lookup-insert, ◌==◌, if◌then◌else◌, Option-cases,
  string_eq, arith,
}
use text.Mathlib.TextEquality.{eq_iff}
use patina_rpc.Envelope.{Envelope, RequestData, request, response, error, heartbeat}
use patina_rpc.Server.{
  HandlerError, Handler, PatinaService, Reply, ServerBuilder, register, add_service, build,
  add_method, service_method_handler, envelope_for, dispatch,
}

abbrev pub contains : String → List String → Bool
contains k [] = false
contains k (j ∷ js) = (j == k) || contains k js

unfoldable pub reply_id : Envelope → Option ℕ
reply_id (request r) = none
reply_id (response r) = some r.id
reply_id (error e) = some e.id
reply_id heartbeat = none

reply_id-envelope_for : (id : ℕ) (r : Reply) → reply_id (envelope_for id r) ≡ some id
unfolding reply_id
reply_id-envelope_for id (ok bytes) = refl
reply_id-envelope_for id (err e) = refl

module _ {W : Type 0} where
  lookup-add_methods :
      (svc : PatinaService W) (names : List String) (m : Assoc String (Handler W)) (k : String)
      → lookup k (foldl (add_method svc) m names)
        ≡ (if contains k names then some (service_method_handler svc k) else lookup k m)
  lookup-add_methods svc [] m k = refl
  lookup-add_methods svc (n ∷ names) m k = ground (
    arith,
    lookup-add_methods svc names (add_method svc m n) k,
    lookup-insert n k (service_method_handler svc n) m,
    eq_iff n k,
  )

  -- The handlers of a built server: `register` gives its method to its handler and leaves the
  -- others alone; `add_service` gives each method that the service names to the service, under
  -- that name, over whatever was registered, and leaves the others alone.
  pub build-lookup :
      (b : ServerBuilder W) (method k : String) (handler : Handler W) (svc : PatinaService W)
      → (lookup k (build (register method handler b)).handlers
          ≡ (if method == k then some handler else lookup k (build b).handlers))
        × (lookup k (build (add_service svc b)).handlers ≡ (
            if contains k svc.method_names
            then some (service_method_handler svc k)
            else lookup k (build b).handlers))
  unfolding build register add_service
  build-lookup b method k handler svc = (
    lookup-insert method k handler b.handlers,
    lookup-add_methods svc svc.method_names b.handlers k,
  )

  pub dispatch_cases :
      (handlers : Assoc String (Handler W)) (req : RequestData) (w : W)
      → let (e, w') = dispatch handlers req w in
        (reply_id e ≡ some req.id)
        × (((h : Handler W) × (lookup req.method handlers ≡ some h)
              × (e ≡ envelope_for req.id (h.handle req.payload w).0)
              × (w' ≡ (h.handle req.payload w).1))
            ⊎ ((lookup req.method handlers ≡ none)
                × (e
                    ≡ error (record {
                      id = req.id;
                      code = 404;
                      message = text_append "unknown method: " req.method;
                    }))
                × (w' ≡ w)))
  unfolding dispatch reply_id
  dispatch_cases handlers req w = elim (Option-cases (lookup req.method handlers)) [
    | inl missing ↦ rw (missing, dispatch) (refl, inr (refl, refl, refl))
    | inr (h, found) ↦
        rw (found, dispatch)
          (reply_id-envelope_for req.id (h.handle req.payload w).0, inl (h, refl, refl, refl))
  ]

  -- Every request is answered under its own id. A registered handler runs on the request's payload
  -- and decides the state that is left: its bytes go into a `Response`, or its error's code and
  -- message into an `Error`. Without a handler the answer is a 404 that names the method, and the
  -- state stays.
  pub dispatch_answers :
      (handlers : Assoc String (Handler W)) (req : RequestData) (w : W)
      → let (e, w') = dispatch handlers req w in
        ((h : Handler W) × (lookup req.method handlers ≡ some h)
          × (w' ≡ (h.handle req.payload w).1)
          × (((bytes : List ℕ) × ((h.handle req.payload w).0 ≡ ok bytes)
                × (e ≡ response (record { id = req.id; payload = bytes })))
              ⊎ ((x : HandlerError) × ((h.handle req.payload w).0 ≡ err x)
                  × (e ≡ error (record { id = req.id; code = x.code; message = x.message })))))
        ⊎ ((lookup req.method handlers ≡ none)
            × (e
                ≡ error (record {
                  id = req.id;
                  code = 404;
                  message = text_append "unknown method: " req.method;
                }))
            × (w' ≡ w))
  dispatch_answers handlers req w = elim ((dispatch_cases handlers req w).1) [
    | inr missing ↦ inr missing
    | inl (h, found, answered, left) ↦ inl (
      h,
      found,
      left,
      elim (Result-cases (h.handle req.payload w).0) [
        | inl (bytes, q) ↦ inl (bytes, q, answered ∙ ap (envelope_for req.id) q)
        | inr (x, q) ↦ inr (x, q, answered ∙ ap (envelope_for req.id) q)
      ],
    )
  ]
