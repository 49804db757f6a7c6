-- ===== src/Ws/Server.antt =====
-- The accept loop of `start` of src/ws/server.rs and the tasks that it spawns.
pub mod Laws
use cyclone_dds_ws_bridge.Base.{
  Bool, Bytes, List, Option, [], false, if◌then◌else◌, leb, length, list_eq, nat_eq, none, not,
  pair_eq, some, take, true, ℕ, ◌%◌, ◌&&◌, ◌++◌, ◌+◌, ◌-◌, ◌==◌, ◌^◌, ◌||◌, ◌∷◌,
}
use cyclone_dds_ws_bridge.Base.Text.{codes}
use cyclone_dds_ws_bridge.Qos.Normalize.{policy_eq}

pub record ServerState : Type 0 where
  -- The loop goes on.
  pub listening : Bool
  -- A stream was accepted and let through, and its first bytes are awaited.
  pub peeking : Bool
  pub active_connections : ℕ
  -- The tasks that were spawned and have not ended.
  pub tasks : ℕ

pub data Event : Type 0 where
  -- `listener.accept()` gives a stream; `stream.peek(..)` gives these bytes, or fails.
  accepted : Event
  peeked : Option Bytes → Event
  -- A task ends: after a failed handshake, after its session, or in a panic.
  handshake_failed session_ended panicked : Event
  shutdown : Event

-- `Ok(n) if n >= 11 && &buf[..11] == b"GET /health"`
unfoldable pub is_health : Option Bytes → Bool
is_health none = false
is_health (some buf) = leb 11 (length buf) && take 11 buf == codes "GET /health"

-- The end of a line of HTTP.
abbrev pub crlf : Bytes
crlf = 13 ∷ 10 ∷ []

-- `HEALTH_RESPONSE`
unfoldable pub health_response : Bytes
health_response =
    codes "HTTP/1.1 200 OK"
    ++ (crlf
        ++ (codes "Content-Length: 2"
            ++ (crlf ++ (codes "Connection: close" ++ (crlf ++ (crlf ++ codes "OK"))))))

-- What the loop itself writes to a stream, by the bytes that `peek` shows; a task gets the others.
unfoldable pub answer : Option Bytes → Option Bytes
answer peeked_bytes = if is_health peeked_bytes then some health_response else none

-- `fetch_sub(1)` at the end of a task, which wraps below 0.
abbrev released : ServerState → ServerState
released s = record s {
  active_connections = (s.active_connections + 2 ^ 64 - 1) % 2 ^ 64;
  tasks = s.tasks - 1;
}

-- `none` where the event cannot happen.
unfoldable pub step : ℕ → Event → ServerState → Option ServerState
step max_connections accepted s =
    if not s.listening || s.peeking
    then none
    else if leb max_connections s.active_connections
    then some s
    else some (record s { peeking = true })
step max_connections (peeked bytes) s =
    if not s.listening || not s.peeking
    then none
    else if is_health bytes
    then some (record s { peeking = false })
    else some (record s {
      peeking = false;
      active_connections = (s.active_connections + 1) % 2 ^ 64;
      tasks = s.tasks + 1;
    })
step max_connections handshake_failed s = if s.tasks == 0 then none else some (released s)
step max_connections session_ended s = if s.tasks == 0 then none else some (released s)
step max_connections panicked s =
    if s.tasks == 0 then none else some (record s { tasks = s.tasks - 1 })
step max_connections shutdown s =
    if not s.listening || s.peeking then none else some (record s { listening = false })

abbrev and_run : (ServerState → Option ServerState) → Option ServerState → Option ServerState
and_run rest none = none
and_run rest (some s) = rest s

unfoldable pub run : ℕ → List Event → ServerState → Option ServerState
run max_connections [] s = some s
run max_connections (event ∷ events) s =
    and_run (run max_connections events) (step max_connections event s)

-- After `bind`.
abbrev pub bound : ServerState
bound = record { listening = true; peeking = false; active_connections = 0; tasks = 0 }
