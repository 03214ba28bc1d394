-- ===== src/Auth/Counters.antt =====
-- The counters of authentication requests.
use radius_go.Base.{
  ◌≡◌, refl, some, List, [], ◌∷◌, ◌++◌, if◌then◌else◌, arith, inl, inr, Option-cases,
}
use radius_go.Base.Int.{ℤ}
use radius_go.Base.Text.{Str}
use radius_go.Base.Dict.{lookup}
use radius_go.Domain.User.{RadiusUser}
use radius_go.Packet.{AttributeLaws}
use radius_go.Packet.Code
use radius_go.Service.{
  Service, Task, Outcome, record_first_login, disable_user, increment, inc_auth_requests,
}
use radius_go.Auth.Reply.{Env, accept_packet}
use radius_go.Auth.Reply.Kept.{code-accept_packet, code-add_message_authenticator}
use radius_go.Auth.Decision.{
  AuthRequest, AuthClock, Interleaving, reject_auth, disable_in_memory, store_first_login,
  accept_auth, count_sessions, check_simultaneous, check_voucher, first_login, admit, authenticate,
  handle_auth,
}
use radius_go.Auth.Admission.{is_accept}

-- Two states with the same counters.
pub record SameCounters (a b : Service) : Type 0 where
  pub requests : a.auth_requests ≡ b.auth_requests
  pub accepts : a.auth_accepts ≡ b.auth_accepts
  pub rejects : a.auth_rejects ≡ b.auth_rejects

-- The outcome counts its answer, and only that, on top of the counters of a state.
pub record Counts (s : Service) (o : Outcome) : Type 0 where
  pub requests : o.service.auth_requests ≡ s.auth_requests
  pub accepts :
      o.service.auth_accepts ≡ (if is_accept o then increment s.auth_accepts else s.auth_accepts)
  pub rejects :
      o.service.auth_rejects ≡ (if is_accept o then s.auth_rejects else increment s.auth_rejects)

disable_in_memory-SameCounters :
    (username : Str) (q s : Service)
    → SameCounters q s
    → SameCounters (disable_in_memory username q) s
unfolding disable_in_memory
disable_in_memory-SameCounters username q s h = ground arith

store_first_login-SameCounters :
    (username : Str) (user : RadiusUser) (now : ℤ) (q s : Service)
    → SameCounters q s
    → SameCounters (store_first_login username user now q) s
unfolding store_first_login
store_first_login-SameCounters username user now q s h = ground arith

-- What other goroutines do meanwhile is not counted here: they keep the counters of a state.
pub record KeepsCounters (inter : Interleaving) (s : Service) : Type 0 where
  pub login : (q : Service) → SameCounters q s → SameCounters (inter.before_login q) s
  pub disable : (q : Service) → SameCounters q s → SameCounters (inter.before_disable q) s
  pub count : (q : Service) → SameCounters q s → SameCounters (inter.before_count q) s

module _ (env : Env) (laws : AttributeLaws env.lib) (inter : Interleaving) (clock : AuthClock)
    (req : AuthRequest) (s : Service) (keeps : KeepsCounters inter s) where
  reject_auth-Counts :
      (q : Service) (tasks : List Task) → SameCounters q s → Counts s (reject_auth env req q tasks)
  unfolding reject_auth
  reject_auth-Counts q tasks h = ground (
    arith,
    code-add_message_authenticator env.lib (env.lib.new_packet Code.access_reject req.secret),
    laws.new_packet_lem Code.access_reject req.secret,
  )

  accept_auth-Counts :
      (user : RadiusUser) (q : Service) (tasks : List Task)
      → SameCounters q s
      → Counts s (accept_auth env inter clock req user q tasks)
  unfolding accept_auth
  accept_auth-Counts user q tasks h = ground (
    arith,
    reject_auth-Counts q tasks h,
    code-add_message_authenticator env.lib (accept_packet env req.secret user clock.reply),
    code-accept_packet env user laws req.secret clock.reply,
  )

  check_simultaneous-Counts :
      (user : RadiusUser) (q : Service) (tasks : List Task)
      → SameCounters q s
      → Counts s (check_simultaneous env inter clock req user q tasks)
  unfolding check_simultaneous count_sessions
  check_simultaneous-Counts user q tasks h = ground (
    arith,
    accept_auth-Counts user q tasks h,
    accept_auth-Counts user (inter.before_count q) tasks (keeps.count q h),
    reject_auth-Counts (inter.before_count q) tasks (keeps.count q h),
  )

  check_voucher-Counts :
      (user : RadiusUser) (q : Service) (tasks : List Task)
      → SameCounters q s
      → Counts s (check_voucher env inter clock req user q tasks)
  unfolding check_voucher
  check_voucher-Counts user q tasks h = ground (
    arith,
    check_simultaneous-Counts user q tasks h,
    reject_auth-Counts (disable_in_memory req.username (inter.before_disable q))
        (tasks ++ (disable_user user.id ∷ []))
        (disable_in_memory-SameCounters req.username (inter.before_disable q) s
          (keeps.disable q h)),
  )

  admit-Counts :
      (user : RadiusUser) (q : Service)
      → SameCounters q s
      → Counts s (admit env inter clock req user q)
  unfolding admit first_login
  admit-Counts user q h = ground (
    arith,
    check_simultaneous-Counts user q [] h,
    check_voucher-Counts user q [] h,
    check_voucher-Counts (record user { first_login_at = some clock.login })
        (store_first_login req.username user clock.login (inter.before_login q))
        (record_first_login user.id user.voucher_time_limit_type user.voucher_time_limit_seconds
          ∷ [])
        (store_first_login-SameCounters req.username user clock.login (inter.before_login q) s
          (keeps.login q h)),
  )

  authenticate-Counts :
      (password : Str) (q : Service)
      → SameCounters q s
      → Counts s (authenticate env inter clock req password q)
  unfolding authenticate
  authenticate-Counts password q h = elim (Option-cases (lookup req.username q.subscribers)) [
    | inl e ↦ rw (e, authenticate) (reject_auth-Counts q [] h)
    | inr (user, e) ↦
        rw (e, authenticate) (ground (arith, reject_auth-Counts q [] h, admit-Counts user q h))
  ]

module _ (env : Env) (laws : AttributeLaws env.lib) (inter : Interleaving) (clock : AuthClock)
    (req : AuthRequest) (s : Service) where
  -- Every authentication request is counted once, and once more under the answer that it gets:
  -- accepts for an Access-Accept and rejects for any other, where other goroutines leave the counters
  -- alone.
  pub handle_auth-Counts :
      KeepsCounters inter (inc_auth_requests s)
      → Counts (inc_auth_requests s) (handle_auth env inter clock req s)
  unfolding handle_auth
  handle_auth-Counts keeps = elim (Option-cases req.passwords) [
    | inl e ↦ rw (e, handle_auth) (reject_auth-Counts env laws inter clock req s1 keeps s1 [] same)
    | inr ([], e) ↦
        rw (e, handle_auth) (reject_auth-Counts env laws inter clock req s1 keeps s1 [] same)
    | inr (password ∷ rest, e) ↦
        rw (e, handle_auth) (authenticate-Counts env laws inter clock req s1 keeps password s1 same)
  ]
    where
      s1 : Service
      s1 = inc_auth_requests s

      same : SameCounters s1 s1
      same = record { requests = refl; accepts = refl; rejects = refl }
