-- ===== src/Stream/Types.antt =====
-- stream/types.go: lifecycle snapshots. A time is a number, 0 for the zero time; an error value is
-- a parameter of the types that hold one.
use busylib_go.Prelude.{ℕ, Option}

pub data Lifecycle : Type 0 where
  idle connecting connected reconnecting stopped failed : Lifecycle

pub data AccessStatus : Type 0 where
  access_unknown access_accepted access_rejected : AccessStatus

pub data DataStatus : Type 0 where
  data_waiting data_fresh data_stale : DataStatus

pub record Status (E : Type 0) : Type 0 where
  pub lifecycle : Lifecycle
  pub access : AccessStatus
  pub freshness : DataStatus
  pub attempt : ℕ
  pub connected_at : ℕ
  pub last_state_at : ℕ
  pub last_error : Option E
