-- ===== src/Service.antt =====
-- The state of the server: `Service` of internal/radius/service.go, and what its handlers leave
-- behind. A handler returns the new state, the packet that it writes and the goroutines that it
-- starts, as tasks that run at some later time.
pub mod Refresh
pub mod Outlast
pub mod Table
pub mod Cleanup
pub mod Secret
pub mod Reconcile
use radius_go.Base.{ℕ, ◌+◌, ◌%◌, ◌^◌, Bool, true, false, Option, none, some, List, [], ◌∷◌}
use radius_go.Base.Int.{ℤ}
use radius_go.Base.Text.{Str}
use radius_go.Base.Dict.{Dict}
use radius_go.Config.{Config}
use radius_go.Domain.User.{RadiusUser, Nas}
use radius_go.Domain.Session.{RadiusSession}
use radius_go.Packet.{Packet}

-- The servers, the channel that stops the loops, and the mutex are not part of it.
pub record Service : Type 0 where
  pub config : Config
  pub started_at : ℤ
  pub nases : Dict Nas
  pub subscribers : Dict RadiusUser
  pub sessions : Dict RadiusSession
  pub auth_requests : ℕ
  pub auth_accepts : ℕ
  pub auth_rejects : ℕ
  pub acct_requests : ℕ

-- The goroutines that handlers start, with the arguments that they capture.
pub data Task : Type 0 where
  record_first_login : Str → Str → ℤ → Task
  disable_user : Str → Task
  upsert_session : RadiusSession → Task
  add_usage_delta : Str → ℤ → ℤ → Task
  disconnect_and_disable : Str → Str → Task

pub record Outcome : Type 0 where
  pub service : Service
  pub reply : Option Packet
  pub tasks : List Task

-- `atomic.AddUint64(&n, 1)`
abbrev pub increment : ℕ → ℕ
increment n = (n + 1) % 2 ^ 64

abbrev pub inc_auth_requests : Service → Service
inc_auth_requests s = record s { auth_requests = increment s.auth_requests }

abbrev pub inc_auth_accepts : Service → Service
inc_auth_accepts s = record s { auth_accepts = increment s.auth_accepts }

abbrev pub inc_auth_rejects : Service → Service
inc_auth_rejects s = record s { auth_rejects = increment s.auth_rejects }

abbrev pub inc_acct_requests : Service → Service
inc_acct_requests s = record s { acct_requests = increment s.acct_requests }
