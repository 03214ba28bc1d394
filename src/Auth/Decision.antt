-- ===== src/Auth/Decision.antt =====
-- handleAuth of internal/radius/auth.go. The handler takes the lock of the service several times;
-- `Interleaving` is what other goroutines do to the service before it takes it again. Each reading
-- of the clock is an argument.
use radius_go.Base.{
  ℕ, suc, Bool, true, false, ◌&&◌, ◌||◌, not, Option, none, some, List, [], ◌∷◌, ◌++◌,
  if◌then◌else◌,
}
use radius_go.Base.Int.{ℤ, pos, ltb_ℤ, leb_ℤ, ◌+ℤ◌, mul64}
use radius_go.Base.Text.{Str, is_empty, str_eq}
use radius_go.Base.Dict.{Dict, lookup, insert}
use radius_go.Domain.Voucher.{time_limit_calendar, time_limit_usage}
use radius_go.Domain.User.{RadiusUser}
use radius_go.Domain.Session.{RadiusSession, session_state_active}
use radius_go.Packet.Code
use radius_go.Packet.Authenticator.{add_message_authenticator}
use radius_go.Service.{
  Service, Task, Outcome, record_first_login, disable_user, inc_auth_requests, inc_auth_accepts,
  inc_auth_rejects,
}
use radius_go.Auth.Reply.{Env, accept_packet}

-- What the library reads from the request: the secret, User-Name, and the User-Passwords, `none` if
-- one of them cannot be decrypted.
pub record AuthRequest : Type 0 where
  pub secret : Str
  pub username : Str
  pub passwords : Option (List Str)

-- The readings of the clock: at the first login, for the expiry checks, for the reply.
pub record AuthClock : Type 0 where
  pub login : ℤ
  pub check : ℤ
  pub reply : ℤ

pub record Interleaving : Type 0 where
  pub before_login : Service → Service
  pub before_disable : Service → Service
  pub before_count : Service → Service

unfoldable pub password_matches : Env → Str → Str → Bool
password_matches env hash supplied =
    if is_empty supplied || is_empty hash then false else env.compare_hash hash supplied

module _ (env : Env) (req : AuthRequest) where
  -- The error of the authenticator is dropped.
  unfoldable pub reject_auth : Service → List Task → Outcome
  reject_auth s tasks = record {
    service = inc_auth_rejects s;
    reply =
        some
          (add_message_authenticator env.lib (env.lib.new_packet Code.access_reject req.secret)).0;
    tasks = tasks;
  }

-- Clears `enabled` where the user is still in memory.
unfoldable pub disable_in_memory : Str → Service → Service
disable_in_memory username s = elim (lookup username s.subscribers) [
  | none ↦ s
  | some u ↦ record s { subscribers = insert username (record u { enabled = false }) s.subscribers }
]

abbrev pub nanoseconds : ℤ → ℤ
nanoseconds seconds = mul64 seconds 1000000000

-- What the first login stores with the user who is in memory now; the limits are those that the
-- handler read before.
abbrev pub stored_login : RadiusUser → ℤ → RadiusUser → RadiusUser
stored_login user now stored =
    let stamped : RadiusUser = record stored { first_login_at = some now } in
    if str_eq user.voucher_time_limit_type time_limit_calendar
    then record stamped { expires_at = some (now +ℤ nanoseconds user.voucher_time_limit_seconds) }
    else stamped

unfoldable pub store_first_login : Str → RadiusUser → ℤ → Service → Service
store_first_login username user now s = elim (lookup username s.subscribers) [
  | none ↦ s
  | some stored ↦ record s {
    subscribers = insert username (stored_login user now stored) s.subscribers;
  }
]

abbrev pub after : Option ℤ → ℤ → Bool
after none now = false
after (some t) now = ltb_ℤ t now

-- The three reasons to refuse a voucher, in the order of the code.
unfoldable pub voucher_refused : RadiusUser → ℤ → Bool
voucher_refused user now =
    if after user.expires_at now
    then true
    else if str_eq user.voucher_time_limit_type time_limit_usage
        && ltb_ℤ (pos 0) user.voucher_time_limit_seconds
        && leb_ℤ user.voucher_time_limit_seconds user.usage_seconds_used
    then true
    else ltb_ℤ (pos 0) user.voucher_data_cap_bytes
      && leb_ℤ user.voucher_data_cap_bytes user.data_bytes_used

abbrev pub is_active_of : Str → RadiusSession → Bool
is_active_of username sess =
    str_eq sess.username username && str_eq sess.session_status session_state_active

-- The number of active sessions of a user.
unfoldable pub active_count : Str → Dict RadiusSession → ℕ
active_count username [] = 0
active_count username ((id, sess) ∷ m) =
    let rest = active_count username m in if is_active_of username sess then suc rest else rest

module _ (env : Env) (inter : Interleaving) (clock : AuthClock) (req : AuthRequest) where
  -- `Access-Accept`, unless the packet cannot be encoded.
  unfoldable pub accept_auth : RadiusUser → Service → List Task → Outcome
  accept_auth user s tasks =
      let (resp, fine) =
        add_message_authenticator env.lib (accept_packet env req.secret user clock.reply) in
      if fine
      then record { service = inc_auth_accepts s; reply = some resp; tasks = tasks }
      else reject_auth env req s tasks

  unfoldable pub count_sessions : RadiusUser → Service → List Task → Outcome
  count_sessions user s tasks =
      if leb_ℤ user.simultaneous_use (pos (active_count req.username s.sessions))
      then reject_auth env req s tasks
      else accept_auth user s tasks

  unfoldable pub check_simultaneous : RadiusUser → Service → List Task → Outcome
  check_simultaneous user s tasks =
      if ltb_ℤ (pos 0) user.simultaneous_use
      then count_sessions user (inter.before_count s) tasks
      else accept_auth user s tasks

  -- A refused voucher is disabled, in memory at once and in the database by a task.
  unfoldable pub check_voucher : RadiusUser → Service → List Task → Outcome
  check_voucher user s tasks =
      if voucher_refused user clock.check
      then reject_auth env req (disable_in_memory req.username (inter.before_disable s))
          (tasks ++ (disable_user user.id ∷ []))
      else check_simultaneous user s tasks

  -- The first login of a voucher. The handler's own copy of the user gets the time of the login
  -- and not the expiry.
  unfoldable pub first_login : RadiusUser → Service → Outcome
  first_login user s = elim user.first_login_at [
    | some t ↦ check_voucher user s []
    | none ↦
        check_voucher (record user { first_login_at = some clock.login })
          (store_first_login req.username user clock.login (inter.before_login s))
          (record_first_login user.id user.voucher_time_limit_type user.voucher_time_limit_seconds
            ∷ [])
  ]

  unfoldable pub admit : RadiusUser → Service → Outcome
  admit user s = if user.is_voucher then first_login user s else check_simultaneous user s []

  unfoldable pub authenticate : Str → Service → Outcome
  authenticate password s = elim (lookup req.username s.subscribers) [
    | none ↦ reject_auth env req s []
    | some user ↦
        if not user.enabled || not (password_matches env user.password_hash password)
        then reject_auth env req s []
        else admit user s
  ]

  unfoldable pub handle_auth : Service → Outcome
  handle_auth s =
      let s' = inc_auth_requests s in
      elim req.passwords [
        | none ↦ reject_auth env req s' []
        | some [] ↦ reject_auth env req s' []
        | some (password ∷ _) ↦ authenticate password s'
      ]
