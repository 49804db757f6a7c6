-- ===== src/Ws/Session/Progress.antt =====
-- When a session of src/ws/session.rs ends.
-- The reader loop has ended, the writer task waits on two empty channels, and the bridge has the
-- sender of one of them.
use cyclone_dds_ws_bridge.Base.{
  All, Bool, Bool-cases, Bytes, List, Option-cases, [], arith, false, if◌then◌else◌, inl, inr,
  is_empty, not, refl, some, some_inj, subst, true, ℕ, ◌&&◌, ◌+◌, ◌<◌, ◌∷◌, ◌≡◌, ◌⊎◌,
}
use cyclone_dds_ws_bridge.Ws.Session.{
  Event, SessionState, clean_up, from_bridge, leave_loop, lose_sink, notify, recv_bridge, recv_resp,
  respond, run, select_bridge, select_else, select_resp, step, written,
}

abbrev pub IsWaiting : SessionState → Type 0
IsWaiting s =
    (s.reader_running ≡ false)
    × (s.writer_running ≡ true)
    × (s.registered ≡ true)
    × (s.bridge_rx ≡ [])
    × (s.resp_rx ≡ [])

abbrev is_notification : Event → Bool
is_notification (notify msg) = true
is_notification _ = false

step-IsWaiting :
    (has_room : List Bytes → Bool) (e : Event) (s s' : SessionState)
    → is_notification e ≡ false
    → step has_room e s ≡ some s'
    → IsWaiting s
    → IsWaiting s'
unfolding step recv_bridge recv_resp
step-IsWaiting has_room (notify msg) s s' quiet e w = absurd (ground (arith, quiet))
step-IsWaiting has_room (respond msg) s s' quiet e (r, w, k, b, p) = absurd (ground (arith, e, r))
step-IsWaiting has_room lose_sink s s' quiet e (r, w, k, b, p) =
    subst IsWaiting (some_inj e) (r, w, k, b, p)
step-IsWaiting has_room leave_loop s s' quiet e (r, w, k, b, p) = absurd (ground (arith, e, r))
step-IsWaiting has_room select_bridge s s' quiet e (r, w, k, b, p) =
    absurd (ground (arith, e, w, b))
step-IsWaiting has_room select_resp s s' quiet e (r, w, k, b, p) = absurd (ground (arith, e, w, p))
step-IsWaiting has_room select_else s s' quiet e (r, w, k, b, p) =
    absurd (ground (arith, e, w, k, b))
step-IsWaiting has_room clean_up s s' quiet e (r, w, k, b, p) = absurd (ground (arith, e, r, w))

-- A session whose reader loop has ended, with both channels empty and its writer task still
-- running, stays in that state and registered with the bridge, whatever happens but a notification
-- by the bridge: the writer task does not stop by itself.
pub run-IsWaiting :
    (has_room : List Bytes → Bool) (events : List Event) (s s' : SessionState)
    → All (λ e. is_notification e ≡ false) events
    → run has_room events s ≡ some s'
    → IsWaiting s
    → IsWaiting s'
unfolding run
run-IsWaiting has_room [] s s' quiet e w = subst IsWaiting (some_inj e) w
run-IsWaiting has_room (event ∷ events) s s' (first, quiet) e w =
    elim (Option-cases (step has_room event s)) [
      | inl refused ↦ absurd (ground (arith, refused, e))
      | inr (t, stepped) ↦
          run-IsWaiting has_room events t s' quiet (ground (arith, stepped, e))
            (step-IsWaiting has_room event s t first stepped w)
    ]

-- The events of the tasks of the session itself: the scheduler brings them about.
abbrev pub is_own : Event → Bool
is_own (notify msg) = false
is_own lose_sink = false
is_own _ = true

abbrev pub own_events : List Event → ℕ
own_events [] = 0
own_events (event ∷ events) = if is_own event then 1 + own_events events else own_events events

-- How many events the session is from its end: the failing send, and the cleanup.
abbrev pub remaining : SessionState → ℕ
remaining s = if s.registered then (if s.writer_running then 2 else 1) else 0

-- The reader loop has ended and the socket is lost; a writer task that runs has a message to send,
-- and the session is registered.
abbrev IsEnding : SessionState → Type 0
IsEnding s =
    (s.reader_running ≡ false)
    × (s.sink_open ≡ false)
    × ((if s.writer_running then s.registered && not (is_empty s.bridge_rx) else true) ≡ true)

step-IsEnding :
    (has_room : List Bytes → Bool) (e : Event) (s s' : SessionState)
    → step has_room e s ≡ some s'
    → IsEnding s
    → IsEnding s' × ((if is_own e then 1 else 0) + remaining s' ≡ remaining s)
unfolding step recv_bridge recv_resp written
step-IsEnding has_room (notify msg) s s' e (r, o, w) = ground (arith, e, r, o, w)
step-IsEnding has_room (respond msg) s s' e (r, o, w) = absurd (ground (arith, e, r))
step-IsEnding has_room lose_sink s s' e (r, o, w) = ground (arith, e, r, o, w)
step-IsEnding has_room leave_loop s s' e (r, o, w) = absurd (ground (arith, e, r))
step-IsEnding has_room select_bridge s s' e (r, o, w) = ground (arith, e, r, o, w)
step-IsEnding has_room select_resp s s' e (r, o, w) = ground (arith, e, r, o, w)
step-IsEnding has_room select_else s s' e (r, o, w) = ground (arith, e, r, o, w)
step-IsEnding has_room clean_up s s' e (r, o, w) = ground (arith, e, r, o, w)

run-IsEnding :
    (has_room : List Bytes → Bool) (events : List Event) (s s' : SessionState)
    → run has_room events s ≡ some s'
    → IsEnding s
    → IsEnding s' × (own_events events + remaining s' ≡ remaining s)
unfolding run
run-IsEnding has_room [] s s' e ending =
    subst (λ (t : SessionState). IsEnding t × (0 + remaining t ≡ remaining s)) (some_inj e)
      (ending, omega arith)
run-IsEnding has_room (event ∷ events) s s' e ending = elim (Option-cases (step has_room event s)) [
  | inl refused ↦ absurd (ground (arith, refused, e))
  | inr (t, stepped) ↦
      let (next, first) = step-IsEnding has_room event s t stepped ending in
      let (last, later) = run-IsEnding has_room events t s' (ground (arith, stepped, e)) next in
      (last, ground (arith, first, later))
]

-- An event of a task of the session can happen.
abbrev pub CanGoOn : (List Bytes → Bool) → SessionState → Type 0
CanGoOn has_room s =
    (e : Event) × (t : SessionState) × (is_own e ≡ true) × (step has_room e s ≡ some t)

failed_send :
    (has_room : List Bytes → Bool) (queue : List Bytes) (s : SessionState)
    → s.bridge_rx ≡ queue
    → is_empty queue ≡ false
    → s.writer_running ≡ true
    → CanGoOn has_room s
unfolding step recv_bridge
failed_send has_room [] s is some_there on = cc
failed_send has_room (msg ∷ queue) s is some_there on = (
  select_bridge,
  written from_bridge msg (record s { bridge_rx = queue }),
  refl,
  rw (on, is) refl,
)

IsEnding-CanGoOn :
    (has_room : List Bytes → Bool) (s : SessionState)
    → IsEnding s
    → s.registered ≡ true
    → CanGoOn has_room s
unfolding step
IsEnding-CanGoOn has_room s (r, o, w) there = elim (Bool-cases s.writer_running) [
  | inl on ↦ failed_send has_room s.bridge_rx s refl (ground (arith, w, on)) on
  | inr off ↦ (clean_up, record s { registered = false }, refl, rw (r, off, there) refl)
]

-- If the bridge notifies a session whose reader loop has ended, whose channels are empty and have
-- room, whose writer task runs and whose socket is lost, then whatever happens afterwards, and in
-- whatever order, the session is unregistered after exactly two events of its own tasks, the
-- failing send and the cleanup, and until then one of its tasks can go on.
pub clean_up_lem :
    (has_room : List Bytes → Bool) (msg : Bytes) (events : List Event) (s s' : SessionState)
    → has_room [] ≡ true
    → IsWaiting s
    → s.sink_open ≡ false
    → run has_room (notify msg ∷ events) s ≡ some s'
    → ((s'.registered ≡ false) × (own_events events ≡ 2))
      ⊎ ((s'.registered ≡ true) × (own_events events < 2) × CanGoOn has_room s')
unfolding run step
clean_up_lem has_room msg events s s' some_room (r, w, k, b, p) lost e =
    let told : SessionState = record s {
      writer_running = true;
      registered = true;
      bridge_rx = msg ∷ [];
    } in
    let ending : IsEnding told = (r, lost, refl) in
    let rest : run has_room events told ≡ some s' = rw (k, w, b, some_room) at e in
    let (last, all) = run-IsEnding has_room events told s' rest ending in
    elim (Bool-cases s'.registered) [
      | inl there ↦ inr (there, ground (arith, all, there), IsEnding-CanGoOn has_room s' last there)
      | inr gone ↦ inl (gone, ground (arith, all, gone))
    ]
