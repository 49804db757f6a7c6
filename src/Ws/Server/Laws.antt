-- ===== src/Ws/Server/Laws.antt =====
-- The connection count of src/ws/server.rs.
use cyclone_dds_ws_bridge.Base.{
  Bool, Bool-cases, List, Option-cases, [], arith, false, inl, inr, leb, some, suc, true, ℕ, ◌+◌,
  ◌<◌, ◌^◌, ◌∷◌, ◌≡◌, ◌≤◌,
}
use cyclone_dds_ws_bridge.Ws.Server.{
  Event, ServerState, accepted, bound, handshake_failed, panicked, peeked, run, session_ended,
  shutdown, step,
}

abbrev one_if : Bool → ℕ
one_if true = 1
one_if false = 0

abbrev pub panics : List Event → ℕ
panics [] = 0
panics (panicked ∷ events) = suc (panics events)
panics (_ ∷ events) = panics events

-- A slot for each task and for each panic so far, and one for the stream that is let through.
abbrev Counted : ℕ → ℕ → ServerState → Type 0
Counted max_connections gone s =
    (s.active_connections ≡ s.tasks + gone)
    × (s.active_connections + one_if s.peeking ≤ max_connections)

step-Counted :
    (m : ℕ) (e : Event) (s s' : ServerState) (gone : ℕ)
    → m < 2 ^ 64
    → step m e s ≡ some s'
    → Counted m gone s
    → Counted m (panics (e ∷ []) + gone) s'
unfolding step
step-Counted m accepted s s' gone small e c = ground (arith, e, c)
step-Counted m (peeked bytes) s s' gone small e c = ground (arith, e, c)
step-Counted m handshake_failed s s' gone small e c = ground (arith, e, c)
step-Counted m session_ended s s' gone small e c = ground (arith, e, c)
step-Counted m panicked s s' gone small e c = ground (arith, e, c)
step-Counted m shutdown s s' gone small e c = ground (arith, e, c)

panics_one :
    (event : Event) (events : List Event)
    → panics (event ∷ events) ≡ panics (event ∷ []) + panics events
panics_one panicked events = omega arith
panics_one _ events = omega arith

run-Counted :
    (m : ℕ) (events : List Event) (s s' : ServerState) (gone : ℕ)
    → m < 2 ^ 64
    → run m events s ≡ some s'
    → Counted m gone s
    → Counted m (panics events + gone) s'
unfolding run
run-Counted m [] s s' gone small e c = ground (arith, e, c)
run-Counted m (event ∷ events) s s' gone small e c = elim (Option-cases (step m event s)) [
  | inl refused ↦ absurd (ground (arith, refused, e))
  | inr (t, stepped) ↦
      let c' =
        run-Counted m events t s' (panics (event ∷ []) + gone) small (ground (arith, stepped, e))
          (step-Counted m event s t gone small stepped c) in
      let sum = panics_one event events in (omega (arith, c'.0, sum), c'.1)
]

-- The count of active connections never exceeds the limit, if that is below 2^64, and is the
-- number of running tasks and of tasks that panicked.
pub run-active_connections :
    (max_connections : ℕ) (events : List Event) (s : ServerState)
    → max_connections < 2 ^ 64
    → run max_connections events bound ≡ some s
    → (s.active_connections ≤ max_connections) × (s.active_connections ≡ s.tasks + panics events)
run-active_connections m events s small e =
    let (count, below) = run-Counted m events bound s 0 small e (omega arith, omega arith) in
    (omega arith, omega arith)

-- Once as many tasks have panicked as the limit allows connections (a limit below 2^64), no task
-- runs, and a server that still listens drops every stream that it accepts.
pub accepted_exhausted :
    (max_connections : ℕ) (events : List Event) (s : ServerState)
    → max_connections < 2 ^ 64
    → run max_connections events bound ≡ some s
    → max_connections ≤ panics events
    → s.listening ≡ true
    → (s.tasks ≡ 0) × (step max_connections accepted s ≡ some s)
unfolding step
accepted_exhausted m events s small e all on =
    let (count, below) = run-Counted m events bound s 0 small e (omega arith, omega arith) in
    let idle : s.tasks ≡ 0 = omega arith in
    let full : leb m s.active_connections ≡ true = ground arith in
    elim (Bool-cases s.peeking) [
      | inl waits ↦ absurd (ground (arith, waits, below, count, all))
      | inr free ↦ (idle, ground (arith, on, free, full))
    ]
