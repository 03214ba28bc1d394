-- ===== src/Auth/Lifetime.antt =====
-- The life of a voucher over several requests: its first login starts it, a refusal ends it.
use radius_go.Base.{
  ◌≡◌, ◌∙◌, ap, true, false, Option, none, some, List, [], ◌∷◌, arith, Option-cases, Bool-cases,
  inl, inr,
}
use mathlib.Core.List.{append-nil}
use radius_go.Base.Int.{◌+ℤ◌}
use radius_go.Base.Text.{Str, str_eq_iff}
use radius_go.Base.Dict.{lookup}
use radius_go.Domain.User.{RadiusUser}
use radius_go.Domain.Voucher.{time_limit_calendar, time_limit_usage}
use radius_go.Packet.{Packet, AttributeLaws}
use radius_go.Packet.Authenticator.{add_message_authenticator, values-add_message_authenticator}
use radius_go.Service.{Service, Outcome, inc_auth_requests}
use radius_go.Auth.Effective.{effective_session_timeout}
use radius_go.Auth.Reply.{Env, accept_packet}
use radius_go.Auth.Reply.Timeouts.{
  timeouts, one_timeout, session_timeout_type, timeouts-accept_packet,
}
use radius_go.Auth.Decision.{
  AuthRequest, AuthClock, Interleaving, password_matches, store_first_login, nanoseconds,
  handle_auth,
}
use radius_go.Auth.Admission.{
  is_accept, IsGood, IsAdmitted, logged_in, handle_auth_accepts_iff, handle_auth_unknown,
}
use radius_go.Auth.Accepted.{counted, handle_auth-admitted}
use radius_go.Auth.Vouchers.{disabled, lookup-store_first_login, handle_auth-refused}

module _ (env : Env) (laws : AttributeLaws env.lib) where
  pub disabled_is_rejected :
      (inter : Interleaving) (clock : AuthClock) (req : AuthRequest) (s : Service)
      (o : Option RadiusUser)
      → lookup req.username s.subscribers ≡ disabled o
      → is_accept (handle_auth env inter clock req s) ≡ false
  disabled_is_rejected inter clock req s none e =
      handle_auth_unknown env laws inter clock req s (inr (inr e))
  disabled_is_rejected inter clock req s (some u) e = elim (Option-cases req.passwords) [
    | inl p ↦ handle_auth_unknown env laws inter clock req s (inl p)
    | inr ([], p) ↦ handle_auth_unknown env laws inter clock req s (inr (inl p))
    | inr (password ∷ rest, p) ↦ elim (Bool-cases (is_accept (handle_auth env inter clock req s))) [
      | inr no_accept ↦ no_accept
      | inl accept ↦
          let h =
            (handle_auth_accepts_iff env laws inter clock req _ password rest s p e).0 accept in
          cc (h.enabled)
    ]
  ]

  -- A voucher that was refused stays refused: the next request in its name is rejected too, whatever
  -- its password and its time, if nothing else touched the service in between.
  pub refused_again :
      (inter later : Interleaving) (clock clock' : AuthClock) (req req' : AuthRequest)
      (user : RadiusUser) (password : Str) (rest : List Str) (s : Service)
      → req.passwords ≡ some (password ∷ rest)
      → lookup req.username s.subscribers ≡ some user
      → user.enabled ≡ true
      → password_matches env user.password_hash password ≡ true
      → user.is_voucher ≡ true
      → ¬ IsGood user clock.check
      → req'.username ≡ req.username
      → is_accept (handle_auth env later clock' req' (handle_auth env inter clock req s).service)
        ≡ false
  refused_again inter later clock clock' req req' user password rest s p e on fits v bad same =
      let o = handle_auth env inter clock req s in
      let r = handle_auth-refused env laws inter clock req user password rest s p e on fits v bad in
      disabled_is_rejected later clock' req' o.service _
        (ap (λ (name : Str). lookup name o.service.subscribers) same ∙ r.1)

module _ (env : Env) (laws : AttributeLaws env.lib) (inter : Interleaving) (clock : AuthClock)
    (req : AuthRequest) (user : RadiusUser) where
  subscribers-counted :
      (q : Service)
      → ((r : Service) → (inter.before_count r).subscribers ≡ r.subscribers)
      → (counted env laws inter clock req user q).subscribers ≡ q.subscribers
  subscribers-counted q quiet = ground (arith, quiet q)

  logged_in_new :
      (q : Service)
      → user.is_voucher ≡ true
      → user.first_login_at ≡ none
      → logged_in env laws inter clock req user q
        ≡ store_first_login req.username user clock.login (inter.before_login q)
  logged_in_new q voucher new = ground (arith, voucher, new)

module _ (env : Env) (laws : AttributeLaws env.lib) (inter : Interleaving) (clock : AuthClock)
    (req : AuthRequest) (user : RadiusUser) (password : Str) (rest : List Str) (s : Service)
    (given : req.passwords ≡ some (password ∷ rest))
    (known : lookup req.username s.subscribers ≡ some user)
    (admitted : IsAdmitted env laws inter clock req user password (inc_auth_requests s)) where
  -- The first login of an admitted calendar voucher stamps it, and sets its expiry to the time of
  -- the login and the seconds of its limit; the other fields are those that are in memory then. The
  -- user is still there, and other goroutines leave the subscribers alone afterwards.
  pub first_login_expiry :
      (stored : RadiusUser)
      → user.is_voucher ≡ true
      → user.first_login_at ≡ none
      → user.voucher_time_limit_type ≡ time_limit_calendar
      → lookup req.username (inter.before_login (inc_auth_requests s)).subscribers ≡ some stored
      → ((q : Service) → (inter.before_count q).subscribers ≡ q.subscribers)
      → lookup req.username (handle_auth env inter clock req s).service.subscribers
        ≡ some (record stored {
          first_login_at = some clock.login;
          expires_at = some (clock.login +ℤ nanoseconds user.voucher_time_limit_seconds);
        })
  first_login_expiry stored voucher new calendar found quiet =
      let s1 = inc_auth_requests s in
      let q = store_first_login req.username user clock.login (inter.before_login s1) in
      ap (λ (o : Outcome). lookup req.username o.service.subscribers)
        (handle_auth-admitted env laws inter clock req user password rest s given known admitted)
      ∙ ap (lookup req.username) (
          subscribers-counted env laws inter clock req user
            (logged_in env laws inter clock req user s1) quiet)
      ∙ ap (λ (r : Service). lookup req.username r.subscribers)
          (logged_in_new env laws inter clock req user s1 voucher new)
      ∙ lookup-store_first_login req.username user stored clock.login (inter.before_login s1) found
      ∙ ground (arith, str_eq_iff user.voucher_time_limit_type time_limit_calendar)

  -- The answer to the first login of a calendar voucher says nothing of the expiry: its
  -- Session-Timeout attributes are those of a user without a time limit.
  pub first_login_untimed :
      (p : Packet)
      → user.is_voucher ≡ true
      → user.voucher_time_limit_type ≡ time_limit_calendar
      → user.expires_at ≡ none
      → (handle_auth env inter clock req s).reply ≡ some p
      → timeouts p ≡ one_timeout env laws user (effective_session_timeout user)
  first_login_untimed p voucher calendar unset e =
      let a = accept_packet env req.secret user clock.reply in
      let same : p ≡ (add_message_authenticator env.lib a).0 = cc (
        e,
        ap (λ (o : Outcome). o.reply)
            (handle_auth-admitted env laws inter clock req user password rest s given known
              admitted),
      ) in
      ap timeouts same
      ∙ values-add_message_authenticator env.lib laws a session_timeout_type (λ x. omega arith)
      ∙ timeouts-accept_packet env laws user req.secret clock.reply
      ∙ ground (
        arith,
        str_eq_iff user.voucher_time_limit_type time_limit_usage,
        append-nil (one_timeout env laws user (effective_session_timeout user)),
      )
