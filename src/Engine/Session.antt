-- ===== src/Engine/Session.antt =====
-- include/engine/session.hpp: `Session`.
use low_latency_project.Prelude.{ℕ, ◌+◌, ◌-◌, ◌%◌, ◌^◌, Bool, true, false, leb}
use low_latency_project.Core.Types.{Timestamp}

pub data SessionState : Type 0 where
  closed opening active closing : SessionState

pub record Session : Type 0 where
  pub seq_num : ℕ
  pub last_heartbeat_ns : Timestamp
  pub session_open_ns : Timestamp
  pub state : SessionState
  pub session_id : ℕ

abbrev pub new_session : Session
new_session = record {
  seq_num = 0;
  last_heartbeat_ns = 0;
  session_open_ns = 0;
  state = closed;
  session_id = 0;
}

unfoldable pub open_session : ℕ → Session → Session
open_session id s = record s { session_id = id; state = active }

unfoldable pub close_session : Session → Session
close_session s = record s { state = closed }

-- The number before the increment, and the session after it.
unfoldable pub next_seq : Session → ℕ × Session
next_seq s = (s.seq_num, record s { seq_num = (s.seq_num + 1) % 2 ^ 64 })

unfoldable pub heartbeat_due : Timestamp → ℕ → Session → Bool
heartbeat_due now interval s = leb interval ((now + 2 ^ 64 - s.last_heartbeat_ns) % 2 ^ 64)

unfoldable pub is_active : Session → Bool
is_active s = elim s.state [ active ↦ true | _ ↦ false ]
