-- ===== src/Auth/Admission.antt =====
-- Who is let in: handleAuth answers Access-Accept under exactly the conditions listed here.
use radius_go.Base.{
  ◌≡◌, ◌↔◌, refl, sym, ◌⊎◌, ◌∙◌, Bool, true, false, ◌&&◌, not, Option, none, some, List, [], ◌∷◌,
  ◌==◌, if◌then◌else◌, arith, Bool-cases, inl, inr,
}
use radius_go.Base.Int.{ℤ, pos, ltb_ℤ, leb_ℤ, ◌<ℤ◌, ◌≤ℤ◌}
use radius_go.Base.Text.{Str, str_eq_iff}
use radius_go.Base.Dict.{lookup}
use radius_go.Domain.User.{RadiusUser}
use radius_go.Domain.Voucher.{time_limit_usage}
use radius_go.Packet.{AttributeLaws}
use radius_go.Packet.Code
use radius_go.Packet.Authenticator.{add_message_authenticator}
use radius_go.Service.{Service, Task, Outcome, record_first_login, inc_auth_requests}
use radius_go.Auth.Effective.{
  effective_rate_limit, effective_bandwidth, effective_max_total_octets, effective_session_timeout,
  effective_idle_timeout, format_rate_limit,
}
use radius_go.Auth.Reply.{
  Env, accept_packet, add_service_type, add_ppp, add_hotspot, add_timeouts, add_mikrotik,
  add_pf_sense, add_usage_timeout, add_calendar_timeout, add_ppp_profile, add_framed_ip,
}
use radius_go.Auth.Reply.Kept.{code-accept_packet, code-add_message_authenticator}
use radius_go.Auth.Decision.{
  AuthRequest, AuthClock, Interleaving, password_matches, reject_auth, store_first_login,
  voucher_refused, after, active_count, accept_auth, count_sessions, check_simultaneous,
  check_voucher, first_login, admit, authenticate, handle_auth,
}

-- Whether the handler answers with an Access-Accept.
abbrev pub is_accept : Outcome → Bool
is_accept o = elim o.reply [ none ↦ false | some p ↦ p.code == Code.access_accept ]

-- What makes a voucher good at a time, apart from the code's tests.
pub record IsGood (user : RadiusUser) (now : ℤ) : Type 0 where
  pub not_expired : (t : ℤ) → user.expires_at ≡ some t → now ≤ℤ t
  pub time_left :
      user.voucher_time_limit_type ≡ time_limit_usage
      → pos 0 <ℤ user.voucher_time_limit_seconds
      → user.usage_seconds_used <ℤ user.voucher_time_limit_seconds
  pub data_left :
      pos 0 <ℤ user.voucher_data_cap_bytes → user.data_bytes_used <ℤ user.voucher_data_cap_bytes

pub voucher_refused-IsGood :
    (user : RadiusUser) (now : ℤ) → voucher_refused user now ≡ false → IsGood user now
unfolding voucher_refused
voucher_refused-IsGood user now h = record {
  not_expired = λ t e. ground arith;
  time_left = λ u l. ground (arith, str_eq_iff user.voucher_time_limit_type time_limit_usage);
  data_left = λ c. ground arith;
}

after-false : (o : Option ℤ) (now : ℤ) → ((t : ℤ) → o ≡ some t → now ≤ℤ t) → after o now ≡ false
after-false none now h = refl
after-false (some t) now h = ground (arith, h t refl)

pub IsGood-voucher_refused :
    (user : RadiusUser) (now : ℤ) → IsGood user now → voucher_refused user now ≡ false
unfolding voucher_refused
IsGood-voucher_refused user now h = ground (
  arith,
  after-false user.expires_at now h.not_expired,
  str_eq_iff user.voucher_time_limit_type time_limit_usage,
)

module _ (env : Env) (laws : AttributeLaws env.lib) (inter : Interleaving) (clock : AuthClock)
    (req : AuthRequest) where
  pub is_accept-reject_auth :
      (s : Service) (tasks : List Task) → is_accept (reject_auth env req s tasks) ≡ false
  unfolding reject_auth
  is_accept-reject_auth s tasks = ground (
    arith,
    code-add_message_authenticator env.lib (env.lib.new_packet Code.access_reject req.secret),
    laws.new_packet_lem Code.access_reject req.secret,
  )

  -- Whether the reply can be encoded.
  abbrev pub encodes : RadiusUser → Bool
  encodes user =
      (add_message_authenticator env.lib (accept_packet env req.secret user clock.reply)).1

  is_accept-accept_auth :
      (user : RadiusUser) (s : Service) (tasks : List Task)
      → is_accept (accept_auth env inter clock req user s tasks) ≡ encodes user
  unfolding accept_auth
  is_accept-accept_auth user s tasks = ground (
    arith,
    is_accept-reject_auth s tasks,
    code-add_message_authenticator env.lib (accept_packet env req.secret user clock.reply),
    code-accept_packet env user laws req.secret clock.reply,
  )

  -- Whether the user's active sessions leave room for one more, in the state that is counted.
  abbrev pub has_room : RadiusUser → Service → Bool
  has_room user s =
      if ltb_ℤ (pos 0) user.simultaneous_use
      then not (
          leb_ℤ user.simultaneous_use
            (pos (active_count req.username (inter.before_count s).sessions)))
      else true

  is_accept-check_simultaneous :
      (user : RadiusUser) (s : Service) (tasks : List Task)
      → is_accept (check_simultaneous env inter clock req user s tasks)
        ≡ (has_room user s && encodes user)
  unfolding check_simultaneous count_sessions
  is_accept-check_simultaneous user s tasks = ground (
    arith,
    is_accept-accept_auth user s tasks,
    is_accept-accept_auth user (inter.before_count s) tasks,
    is_accept-reject_auth (inter.before_count s) tasks,
  )

  is_accept-check_voucher :
      (user : RadiusUser) (s : Service) (tasks : List Task)
      → is_accept (check_voucher env inter clock req user s tasks)
        ≡ (not (voucher_refused user clock.check) && (has_room user s && encodes user))
  unfolding check_voucher
  is_accept-check_voucher user s tasks = elim (Bool-cases (voucher_refused user clock.check)) [
    | inl e ↦ rw (e, check_voucher) (is_accept-reject_auth _ _)
    | inr e ↦ rw (e, check_voucher) (is_accept-check_simultaneous user s tasks)
  ]

  -- The reply does not depend on the time of the first login.
  encodes-login :
      (user : RadiusUser) (t : Option ℤ)
      → encodes (record user { first_login_at = t }) ≡ encodes user
  unfolding accept_packet add_service_type add_ppp add_hotspot add_timeouts add_mikrotik
      add_pf_sense add_usage_timeout add_calendar_timeout add_ppp_profile add_framed_ip
      effective_rate_limit effective_bandwidth effective_max_total_octets effective_session_timeout
      effective_idle_timeout format_rate_limit
  encodes-login user t = refl

  pub voucher_refused-login :
      (user : RadiusUser) (t : Option ℤ) (now : ℤ)
      → voucher_refused (record user { first_login_at = t }) now ≡ voucher_refused user now
  unfolding voucher_refused
  voucher_refused-login user t now = refl

  -- The service after the stage that records a first login.
  abbrev pub logged_in : RadiusUser → Service → Service
  logged_in user s =
      if user.is_voucher
      then elim user.first_login_at [
        | some t ↦ s
        | none ↦ store_first_login req.username user clock.login (inter.before_login s)
      ]
      else s

  is_accept-admit :
      (user : RadiusUser) (s : Service)
      → is_accept (admit env inter clock req user s) ≡ (
          not (user.is_voucher && voucher_refused user clock.check)
          && (has_room user (logged_in user s) && encodes user))
  unfolding admit first_login
  is_accept-admit user s = ground (
    arith,
    is_accept-check_voucher user s [],
    is_accept-check_simultaneous user s [],
    is_accept-check_voucher (record user { first_login_at = some clock.login })
        (store_first_login req.username user clock.login (inter.before_login s))
        (record_first_login user.id user.voucher_time_limit_type user.voucher_time_limit_seconds
          ∷ []),
    encodes-login user (some clock.login),
    voucher_refused-login user (some clock.login) clock.check,
  )

  -- The conditions under which a known user is let in.
  pub record IsAdmitted (user : RadiusUser) (password : Str) (s : Service) : Type 0 where
    pub enabled : user.enabled ≡ true
    pub password_ok : password_matches env user.password_hash password ≡ true
    pub good : user.is_voucher ≡ true → IsGood user clock.check
    pub room :
        pos 0 <ℤ user.simultaneous_use
        → pos (active_count req.username (inter.before_count (logged_in user s)).sessions)
          <ℤ user.simultaneous_use
    pub encodable : encodes user ≡ true

  is_accept-authenticate :
      (user : RadiusUser) (password : Str) (s : Service)
      → lookup req.username s.subscribers ≡ some user
      → is_accept (authenticate env inter clock req password s) ≡ (
          (user.enabled && password_matches env user.password_hash password)
          && (not (user.is_voucher && voucher_refused user clock.check)
              && (has_room user (logged_in user s) && encodes user)))
  unfolding authenticate
  is_accept-authenticate user password s e =
      ground (arith, e, is_accept-admit user s, is_accept-reject_auth s [])

  admitted :
      (user : RadiusUser) (password : Str) (s : Service)
      → IsAdmitted user password s
      → lookup req.username s.subscribers ≡ some user
      → is_accept (authenticate env inter clock req password s) ≡ true
  admitted user password s h e =
      is_accept-authenticate user password s e
      ∙ ground (
        arith,
        h.enabled,
        h.password_ok,
        h.encodable,
        λ (v : user.is_voucher ≡ true). IsGood-voucher_refused user clock.check (h.good v),
      )

  IsAdmitted-only :
      (user : RadiusUser) (password : Str) (s : Service)
      → lookup req.username s.subscribers ≡ some user
      → is_accept (authenticate env inter clock req password s) ≡ true
      → IsAdmitted user password s
  IsAdmitted-only user password s e a =
      let b = sym (is_accept-authenticate user password s e) ∙ a in
      record {
        enabled = ground arith;
        password_ok = ground arith;
        good = λ v. voucher_refused-IsGood user clock.check (ground arith);
        room = λ p. ground arith;
        encodable = ground arith;
      }

  -- A request with a password, for a user in memory, is answered by Access-Accept exactly when: the
  -- user is enabled, the password matches, a voucher is neither expired nor used up, the active
  -- sessions leave room, and the reply can be encoded.
  pub handle_auth_accepts_iff :
      (user : RadiusUser) (password : Str) (rest : List Str) (s : Service)
      → req.passwords ≡ some (password ∷ rest)
      → lookup req.username s.subscribers ≡ some user
      → (is_accept (handle_auth env inter clock req s) ≡ true)
        ↔ IsAdmitted user password (inc_auth_requests s)
  unfolding handle_auth
  handle_auth_accepts_iff user password rest s p e = (
    λ a. IsAdmitted-only user password (inc_auth_requests s) e (rw (p, handle_auth) at a),
    λ h. rw (p, handle_auth) (admitted user password (inc_auth_requests s) h e),
  )

  -- Without a password that can be read, or for a name that is not in memory, the answer is no.
  pub handle_auth_unknown :
      (s : Service)
      → (req.passwords ≡ none)
        ⊎ ((req.passwords ≡ some []) ⊎ (lookup req.username s.subscribers ≡ none))
      → is_accept (handle_auth env inter clock req s) ≡ false
  unfolding handle_auth authenticate
  handle_auth_unknown s h = ground (arith, is_accept-reject_auth (inc_auth_requests s) [])
