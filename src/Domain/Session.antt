-- ===== src/Domain/Session.antt =====
-- internal/domain/domain.go: sessions and the requests about them.
use radius_go.Base.{ℕ, Option}
use radius_go.Base.Int.{ℤ}
use radius_go.Base.Text.{Str, codes}
use radius_go.Domain.User.{ServiceType}

-- A string type, as `ServiceType`.
abbrev pub SessionState : Type 0
SessionState = Str

abbrev pub session_state_active : SessionState
session_state_active = codes "active"

abbrev pub session_state_stop : SessionState
session_state_stop = codes "stopped"

abbrev pub session_state_stale : SessionState
session_state_stale = codes "stale"

pub record RadiusSession : Type 0 where
  pub id : Str
  pub session_id : Str
  pub username : Str
  pub nas_id : Str
  pub nas_ip : Str
  pub nas_identifier : Str
  pub framed_ip : Str
  pub calling_station : Str
  pub called_station : Str
  pub service_type : ServiceType
  pub input_octets : ℤ
  pub output_octets : ℤ
  pub session_time : ℤ
  pub session_status : SessionState
  pub mikrotik_group : Str
  pub rate_limit : Str
  pub bandwidth_max_up : ℕ
  pub bandwidth_max_down : ℕ
  pub max_total_octets : ℕ
  pub start_time : ℤ
  pub last_update : ℤ
  pub stop_time : Option ℤ
  pub created_at : ℤ
  pub updated_at : ℤ

pub record DisconnectRequest : Type 0 where
  pub username : Str
  pub reason : Str

pub record CoaChangeRequest : Type 0 where
  pub username : Str
  pub rate_limit : Str
  pub group : Str
  pub bandwidth_max_up : Option ℕ
  pub bandwidth_max_down : Option ℕ
  pub max_total_octets : Option ℕ
