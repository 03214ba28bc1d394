-- ===== src/Auth/Accepted.antt =====
-- What an admitted request leaves behind: the service, the answer and the goroutines of handleAuth.
use radius_go.Base.{
  ◌≡◌, refl, sym, ◌∙◌, ap, subst, Bool, true, false, Option, none, some, List, [], ◌∷◌,
  if◌then◌else◌, arith, Option-cases, Bool-cases, inl, inr,
}
use radius_go.Base.Int.{ℤ, pos, ltb_ℤ, ◌<ℤ◌}
use radius_go.Base.Text.{Str}
use radius_go.Base.Dict.{lookup}
use radius_go.Domain.User.{RadiusUser}
use radius_go.Packet.{Packet, AttributeLaws}
use radius_go.Packet.Authenticator.{add_message_authenticator}
use radius_go.Service.{
  Service, Task, Outcome, record_first_login, inc_auth_requests, inc_auth_accepts,
}
use radius_go.Auth.Effective.{
  effective_rate_limit, effective_bandwidth, effective_max_total_octets, effective_session_timeout,
  effective_idle_timeout, format_rate_limit,
}
use radius_go.Auth.Reply.{
  Env, accept_packet, add_service_type, add_ppp, add_hotspot, add_timeouts, add_mikrotik,
  add_pf_sense, add_usage_timeout, add_calendar_timeout, add_ppp_profile, add_framed_ip,
}
use radius_go.Auth.Decision.{
  AuthRequest, AuthClock, Interleaving, password_matches, store_first_login, voucher_refused,
  active_count, accept_auth, count_sessions, check_simultaneous, check_voucher, first_login, admit,
  authenticate, handle_auth,
}
use radius_go.Auth.Admission.{IsGood-voucher_refused, IsAdmitted, logged_in, voucher_refused-login}

-- The goroutines that an accepted login starts.
abbrev pub login_tasks : RadiusUser → List Task
login_tasks user =
    if user.is_voucher
    then elim user.first_login_at [
      | some t ↦ []
      | none ↦
          record_first_login user.id user.voucher_time_limit_type user.voucher_time_limit_seconds
          ∷ []
    ]
    else []

module _ (env : Env) (laws : AttributeLaws env.lib) (inter : Interleaving) (clock : AuthClock)
    (req : AuthRequest) where
  -- The service when the answer is written: others may act before the sessions are counted.
  abbrev pub counted : RadiusUser → Service → Service
  counted user s = if ltb_ℤ (pos 0) user.simultaneous_use then inter.before_count s else s

  abbrev accepted : RadiusUser → Service → List Task → Outcome
  accepted user s tasks = record {
    service = inc_auth_accepts (counted user s);
    reply =
        some (add_message_authenticator env.lib (accept_packet env req.secret user clock.reply)).0;
    tasks = tasks;
  }

  accept_packet-login :
      (user : RadiusUser) (t : Option ℤ)
      → accept_packet env req.secret (record user { first_login_at = t }) clock.reply
        ≡ accept_packet env req.secret user clock.reply
  unfolding accept_packet add_service_type add_ppp add_hotspot add_timeouts add_mikrotik
      add_pf_sense add_usage_timeout add_calendar_timeout add_ppp_profile add_framed_ip
      effective_rate_limit effective_bandwidth effective_max_total_octets effective_session_timeout
      effective_idle_timeout format_rate_limit
  accept_packet-login user t = refl

  check_simultaneous-accepted :
      (user : RadiusUser) (s : Service) (tasks : List Task)
      → (pos 0 <ℤ user.simultaneous_use
          → pos (active_count req.username (inter.before_count s).sessions)
            <ℤ user.simultaneous_use)
      → (add_message_authenticator env.lib (accept_packet env req.secret user clock.reply)).1 ≡ true
      → check_simultaneous env inter clock req user s tasks ≡ accepted user s tasks
  unfolding check_simultaneous count_sessions accept_auth
  check_simultaneous-accepted user s tasks room fine = ground arith

  -- Room among the sessions that are counted from a state.
  abbrev Room : RadiusUser → Service → Type 0
  Room user q =
      pos 0 <ℤ user.simultaneous_use
      → pos (active_count req.username (inter.before_count q).sessions) <ℤ user.simultaneous_use

  abbrev fine : RadiusUser → Bool
  fine user = (add_message_authenticator env.lib (accept_packet env req.secret user clock.reply)).1

  check_voucher-accepted :
      (user : RadiusUser) (s : Service) (tasks : List Task)
      → voucher_refused user clock.check ≡ false
      → Room user s
      → fine user ≡ true
      → check_voucher env inter clock req user s tasks ≡ accepted user s tasks
  unfolding check_voucher
  check_voucher-accepted user s tasks good room e =
      rw (good, check_voucher) (check_simultaneous-accepted user s tasks room e)

  first_login-accepted :
      (user : RadiusUser) (s : Service)
      → user.first_login_at ≡ none
      → voucher_refused user clock.check ≡ false
      → Room user (store_first_login req.username user clock.login (inter.before_login s))
      → fine user ≡ true
      → first_login env inter clock req user s
        ≡ accepted user (store_first_login req.username user clock.login (inter.before_login s)) (
            record_first_login user.id user.voucher_time_limit_type user.voucher_time_limit_seconds
            ∷ [])
  unfolding first_login
  first_login-accepted user s new good room e = ground (
    arith,
    new,
    accept_packet-login user (some clock.login),
    check_voucher-accepted (record user { first_login_at = some clock.login })
        (store_first_login req.username user clock.login (inter.before_login s))
        (record_first_login user.id user.voucher_time_limit_type user.voucher_time_limit_seconds
          ∷ [])
        (voucher_refused-login env laws inter clock req user (some clock.login) clock.check ∙ good)
        room
        (ap (λ (p : Packet). (add_message_authenticator env.lib p).1)
            (accept_packet-login user (some clock.login))
          ∙ e),
  )

  -- Where the login stage leaves the service `q` and starts `tasks`.
  accepted_from :
      (user : RadiusUser) (s q : Service) (tasks : List Task)
      → logged_in env laws inter clock req user s ≡ q
      → login_tasks user ≡ tasks
      → (Room user q → admit env inter clock req user s ≡ accepted user q tasks)
      → Room user (logged_in env laws inter clock req user s)
      → admit env inter clock req user s
        ≡ accepted user (logged_in env laws inter clock req user s) (login_tasks user)
  accepted_from user s q tasks e e' f room =
      f (subst (Room user) e room)
      ∙ ap (λ (r : Service). accepted user r tasks) (sym e)
      ∙ ap (accepted user (logged_in env laws inter clock req user s)) (sym e')

  admit_plain :
      (user : RadiusUser) (s : Service)
      → user.is_voucher ≡ false
      → admit env inter clock req user s ≡ check_simultaneous env inter clock req user s []
  unfolding admit
  admit_plain user s e = ground (arith, e)

  pub admit_voucher :
      (user : RadiusUser) (s : Service)
      → user.is_voucher ≡ true
      → admit env inter clock req user s ≡ first_login env inter clock req user s
  unfolding admit
  admit_voucher user s e = ground (arith, e)

  pub first_login_old :
      (user : RadiusUser) (s : Service) (t : ℤ)
      → user.first_login_at ≡ some t
      → first_login env inter clock req user s ≡ check_voucher env inter clock req user s []
  unfolding first_login
  first_login_old user s t e = ground (arith, e)

  admit-accepted :
      (user : RadiusUser) (password : Str) (s : Service)
      → IsAdmitted env laws inter clock req user password s
      → admit env inter clock req user s
        ≡ accepted user (logged_in env laws inter clock req user s) (login_tasks user)
  admit-accepted user password s h = elim (Bool-cases user.is_voucher) [
    | inr plain ↦
        accepted_from user s s [] (ground (arith, plain)) (ground (arith, plain))
          (λ room.
            admit_plain user s plain ∙ check_simultaneous-accepted user s [] room h.encodable)
          h.room
    | inl voucher ↦
        let good = IsGood-voucher_refused user clock.check (h.good voucher) in
        elim (Option-cases user.first_login_at) [
          | inl new ↦
              accepted_from user s
                (store_first_login req.username user clock.login (inter.before_login s))
                (record_first_login user.id user.voucher_time_limit_type
                    user.voucher_time_limit_seconds
                  ∷ [])
                (ground (arith, voucher, new)) (ground (arith, voucher, new))
                (λ room.
                  admit_voucher user s voucher
                  ∙ first_login-accepted user s new good room h.encodable)
                h.room
          | inr (t, old) ↦
              accepted_from user s s [] (ground (arith, voucher, old))
                (ground (arith, voucher, old))
                (λ room.
                  admit_voucher user s voucher
                  ∙ first_login_old user s t old
                  ∙ check_voucher-accepted user s [] good room h.encodable)
                h.room
        ]
  ]

  pub authenticate-known :
      (user : RadiusUser) (password : Str) (s : Service)
      → lookup req.username s.subscribers ≡ some user
      → user.enabled ≡ true
      → password_matches env user.password_hash password ≡ true
      → authenticate env inter clock req password s ≡ admit env inter clock req user s
  unfolding authenticate
  authenticate-known user password s e on fits = ground (arith, e, on, fits)

  pub handle_auth-admitted :
      (user : RadiusUser) (password : Str) (rest : List Str) (s : Service)
      → req.passwords ≡ some (password ∷ rest)
      → lookup req.username s.subscribers ≡ some user
      → IsAdmitted env laws inter clock req user password (inc_auth_requests s)
      → handle_auth env inter clock req s ≡ record {
        service =
            inc_auth_accepts
              (counted user (logged_in env laws inter clock req user (inc_auth_requests s)));
        reply =
            some
              (add_message_authenticator env.lib (accept_packet env req.secret user clock.reply)).0;
        tasks = login_tasks user;
      }
  unfolding handle_auth
  handle_auth-admitted user password rest s p e h =
      rw (p, handle_auth)
        (authenticate-known user password (inc_auth_requests s) e h.enabled h.password_ok
          ∙ admit-accepted user password (inc_auth_requests s) h)
