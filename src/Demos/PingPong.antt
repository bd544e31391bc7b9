-- ===== src/Demos/PingPong.antt =====
-- crates/patina-rpc/examples/ping_pong.rs: its two handlers, its server, and its calls.
use patina_rpc.Base.{
  ℕ, ◌+◌, ◌-◌, ◌%◌, ◌^◌, ◌<◌, ◌≡◌, ◌⊎◌, inl, inr, refl, ap, ◌∙◌, List, map, ok, err, ◌&&◌, ltb,
  if◌then◌else◌, lookup, insert, string_eq, nat_eq,
}
use patina_rpc.Envelope.{Envelope}
use patina_rpc.Error.{closed}
use patina_rpc.Runtime.{Oneshot, Mpsc, CancellationToken}
use patina_rpc.Server.{Handler, handler_fn, Server, builder, register, build}
use patina_rpc.Client.{Args, Outcome, returned}
use patina_rpc.Client.Verdicts.{verdict, verdicts}
use patina_rpc.System.{System, Reach}
use patina_rpc.System.Contract.{promised, call_directly, verdicts-Promises}

-- `CountingPing`, on its `invocations`; the number of the call is only logged.
abbrev pub counting_ping : Handler ℕ
counting_ping = record { handle = λ payload invocations. (ok payload, (invocations + 1) % 2 ^ 64) }

-- `u8::to_ascii_uppercase`
abbrev pub to_ascii_uppercase : ℕ → ℕ
to_ascii_uppercase b = if ltb 96 b && ltb b 123 then b - 32 else b

abbrev pub upper : Handler ℕ
upper = handler_fn (λ payload w. (ok (map to_ascii_uppercase payload), w))

unfoldable pub server : Server ℕ
server = build (register "upper" upper (register "ping" counting_ping builder))

-- What the program's calls ask for: the "ping" of a payload, or its "upper".
pub data Call : Type 0 where
  ping_of upper_of : List ℕ → Call

abbrev pub args_of : Call → Args
args_of (ping_of payload) = record { method = "ping"; payload = payload }
args_of (upper_of payload) = record { method = "upper"; payload = payload }

-- What a call is for; the program asserts it of each "ping".
abbrev pub expected : Call → List ℕ
expected (ping_of payload) = payload
expected (upper_of payload) = map to_ascii_uppercase payload

directly : (c : Call) (w : ℕ) → call_directly server.handlers (args_of c) w ≡ ok (expected c)
unfolding server build register builder insert lookup
directly (ping_of payload) w = refl
directly (upper_of payload) w = refl

-- The assertion of the program, in any run: let a client make calls as the program does, on a
-- connection to its server, and let fewer than 2 ^ 64 ids have been handed out. Then whatever a call
-- has returned is `Closed`, or what the program expects of it: the payload itself of a "ping", and
-- the payload in upper case of an "upper".
pub replies_expected :
    {O C T D : Type 0} (oneshot : Oneshot O Envelope) (mpsc : Mpsc C Envelope)
    (tokens : CancellationToken T) (channels : Mpsc D Envelope) (plan : ℕ → Call) {w : ℕ}
    {y : System O C T ℕ D}
    → Reach oneshot mpsc tokens (λ k. args_of (plan k)) channels server.handlers w y
    → y.client.issued < 2 ^ 64
    → (k : ℕ) (r : Outcome) → y.client.calls k ≡ returned r
    → (r ≡ err closed) ⊎ (r ≡ ok (expected (plan k)))
replies_expected oneshot mpsc tokens channels plan {y = y} r fits k o at =
    elim (promised (λ j. args_of (plan j)) server.handlers (verdicts y.client.calls)
      (verdicts-Promises oneshot mpsc tokens (λ j. args_of (plan j)) channels server.handlers r
        fits)
      k o (ap verdict at)) [
        | inl lost ↦ inl lost
        | inr (w', said) ↦ inr (said ∙ directly (plan k) w')
      ]
