-- ===== src/Ws/Session/Order.antt =====
-- The order of the replies of a session of src/ws/session.rs.
-- The messages of the reply channel, in order.
use cyclone_dds_ws_bridge.Base.{
  Bool, Bool-cases, Bytes, List, Option-cases, [], ap, append-nil, append_assoc, arith, false, inl,
  inr, refl, some, some_inj, subst, sym, true, ℕ, ◌&&◌, ◌++◌, ◌∙◌, ◌∷◌, ◌≡◌,
}
use cyclone_dds_ws_bridge.Ws.Session.{
  Channel, Event, SessionState, clean_up, from_bridge, from_reader, leave_loop, lose_sink, notify,
  recv_bridge, recv_resp, resp_send, respond, run, select_bridge, select_else, select_resp,
  start_session, started, step, written,
}

abbrev on_resp : Channel × Bytes → List Bytes
on_resp (from_bridge, msg) = []
on_resp (from_reader, msg) = msg ∷ []

abbrev pub responses : List (Channel × Bytes) → List Bytes
responses [] = []
responses (m ∷ ms) = on_resp m ++ responses ms

-- What the reader loop hands over.
abbrev responded : Event → List Bytes
responded (respond msg) = msg ∷ []
responded _ = []

abbrev pub all_responded : List Event → List Bytes
all_responded [] = []
all_responded (e ∷ events) = responded e ++ all_responded events

responses-append :
    (xs ys : List (Channel × Bytes)) → responses (xs ++ ys) ≡ responses xs ++ responses ys
responses-append [] ys = refl
responses-append ((from_bridge, msg) ∷ xs) ys = responses-append xs ys
responses-append ((from_reader, msg) ∷ xs) ys = ap (◌∷◌ msg) (responses-append xs ys)

-- What went out and what waits of the replies.
abbrev replies_of : SessionState → List Bytes
replies_of s = responses s.sent ++ s.resp_rx

-- If the writer task still runs, it ran before, and the messages were added to the replies.
abbrev IsInOrder : SessionState → List Bytes → SessionState → Type 0
IsInOrder s messages s' =
    s'.writer_running ≡ true
    → (s.writer_running ≡ true) × (replies_of s' ≡ replies_of s ++ messages)

written_bridge-replies :
    (msg : Bytes) (queue : List Bytes) (s : SessionState)
    → IsInOrder s [] (written from_bridge msg (record s { bridge_rx = queue }))
unfolding written
written_bridge-replies msg queue s = elim (Bool-cases s.sink_open) [
  | inl opened ↦ rw opened (λ on. (
    on,
    rw (responses-append s.sent ((from_bridge, msg) ∷ []), append-nil (responses s.sent))
        (sym (append-nil (replies_of s))),
  ))
  | inr lost ↦ rw lost (λ on. absurd (ground (arith, on)))
]

written_resp-replies :
    (msg : Bytes) (queue : List Bytes) (s : SessionState)
    → s.resp_rx ≡ msg ∷ queue
    → IsInOrder s [] (written from_reader msg (record s { resp_rx = queue }))
unfolding written
written_resp-replies msg queue s is = elim (Bool-cases s.sink_open) [
  | inl opened ↦ rw opened (λ on. (
    on,
    rw
        (
          responses-append s.sent ((from_reader, msg) ∷ []),
          is,
          append_assoc (responses s.sent) (msg ∷ []) queue,
        )
        (sym (append-nil (responses s.sent ++ msg ∷ queue))),
  ))
  | inr lost ↦ rw lost (λ on. absurd (ground (arith, on)))
]

result-IsInOrder :
    (s : SessionState) (messages : List Bytes) (t s' : SessionState)
    → some t ≡ some s'
    → IsInOrder s messages t
    → IsInOrder s messages s'
result-IsInOrder s messages t s' e h = subst (IsInOrder s messages) (some_inj e) h

recv_bridge-IsInOrder :
    (queue : List Bytes) (s s' : SessionState) → recv_bridge queue s ≡ some s' → IsInOrder s [] s'
unfolding recv_bridge
recv_bridge-IsInOrder [] s s' e = absurd (ground (arith, e))
recv_bridge-IsInOrder (msg ∷ rest) s s' e =
    result-IsInOrder s [] _ s' e (written_bridge-replies msg rest s)

recv_resp-IsInOrder :
    (queue : List Bytes) (s s' : SessionState)
    → s.resp_rx ≡ queue
    → recv_resp queue s ≡ some s'
    → IsInOrder s [] s'
unfolding recv_resp
recv_resp-IsInOrder [] s s' is e = absurd (ground (arith, e))
recv_resp-IsInOrder (msg ∷ rest) s s' is e =
    result-IsInOrder s [] _ s' e (written_resp-replies msg rest s is)

-- The writer task and the replies are as before, or the task has ended.
same-IsInOrder :
    (s t s' : SessionState)
    → some t ≡ some s'
    → t.writer_running ≡ s.writer_running
    → replies_of t ≡ replies_of s
    → IsInOrder s [] s'
same-IsInOrder s t s' e w r =
    result-IsInOrder s [] t s' e (λ on. (sym w ∙ on, r ∙ sym (append-nil (replies_of s))))

ended-IsInOrder :
    (s : SessionState) (messages : List Bytes) (t s' : SessionState)
    → some t ≡ some s'
    → t.writer_running ≡ false
    → IsInOrder s messages s'
ended-IsInOrder s messages t s' e off =
    result-IsInOrder s messages t s' e (λ on. absurd (ground (arith, on, off)))

step-IsInOrder :
    (has_room : List Bytes → Bool) (e : Event) (s s' : SessionState)
    → step has_room e s ≡ some s'
    → IsInOrder s (responded e) s'
unfolding step resp_send
step-IsInOrder has_room (notify msg) s s' e = elim (Bool-cases s.registered) [
  | inl there ↦ elim (Bool-cases (s.writer_running && has_room s.bridge_rx)) [
    | inl room ↦
        same-IsInOrder s (record s { bridge_rx = s.bridge_rx ++ msg ∷ [] }) s'
          (ground (arith, e, there, room)) refl refl
    | inr full ↦ same-IsInOrder s s s' (ground (arith, e, there, full)) refl refl
  ]
  | inr gone ↦ absurd (ground (arith, gone, e))
]
step-IsInOrder has_room (respond msg) s s' e = elim (Bool-cases s.writer_running) [
  | inl on ↦ elim (Bool-cases (has_room s.resp_rx)) [
    | inl room ↦
        result-IsInOrder s (msg ∷ []) (record s { resp_rx = s.resp_rx ++ msg ∷ [] }) s'
          (ground (arith, e, on, room))
          (λ still. (on, sym (append_assoc (responses s.sent) s.resp_rx (msg ∷ []))))
    | inr full ↦ absurd (ground (arith, e, on, full))
  ]
  | inr off ↦ ended-IsInOrder s (msg ∷ []) s s' (ground (arith, e, off)) off
]
step-IsInOrder has_room lose_sink s s' e =
    same-IsInOrder s (record s { sink_open = false }) s' e refl refl
step-IsInOrder has_room leave_loop s s' e =
    same-IsInOrder s (record s { reader_running = false }) s' (ground (arith, e)) refl refl
step-IsInOrder has_room select_bridge s s' e =
    recv_bridge-IsInOrder s.bridge_rx s s' (ground (arith, e))
step-IsInOrder has_room select_resp s s' e =
    recv_resp-IsInOrder s.resp_rx s s' refl (ground (arith, e))
step-IsInOrder has_room select_else s s' e =
    ended-IsInOrder s [] (record s { writer_running = false }) s' (ground (arith, e)) refl
step-IsInOrder has_room clean_up s s' e =
    same-IsInOrder s (record s { registered = false }) s' (ground (arith, e)) refl refl

run-IsInOrder :
    (has_room : List Bytes → Bool) (events : List Event) (s s' : SessionState)
    → run has_room events s ≡ some s'
    → IsInOrder s (all_responded events) s'
unfolding run
run-IsInOrder has_room [] s s' e on = same-IsInOrder s s s' e refl refl on
run-IsInOrder has_room (event ∷ events) s s' e on = elim (Option-cases (step has_room event s)) [
  | inl refused ↦ absurd (ground (arith, refused, e))
  | inr (t, stepped) ↦
      let (before, later) = run-IsInOrder has_room events t s' (ground (arith, stepped, e)) on in
      let (first, now) = step-IsInOrder has_room event s t stepped before in
      (first, later ∙ rw now (append_assoc (replies_of s) (responded event) (all_responded events)))
]

-- From the start of a session, as long as the writer task runs, the replies that went out followed
-- by those that wait are exactly those that the reader loop handed over, in their order, whatever
-- notifications come between and whenever the channels have room.
pub responses-run :
    (has_room : List Bytes → Bool) (buffer_size : ℕ) (events : List Event) (s s' : SessionState)
    → start_session buffer_size ≡ some s
    → run has_room events s ≡ some s'
    → s'.writer_running ≡ true
    → responses s'.sent ++ s'.resp_rx ≡ all_responded events
unfolding start_session
responses-run has_room buffer_size events s s' begun e on =
    (run-IsInOrder has_room events s s' e on).1
    ∙ (let same : started ≡ s = ground arith in rw (← same) refl)
