-- ===== src/Auth/Vouchers.antt =====
-- Vouchers in handleAuth: the first login, and what a refusal does.
use radius_go.Base.{
  ◌≡◌, refl, ◌∙◌, ap, true, false, Option, none, some, List, [], ◌∷◌, ◌++◌, arith, Option-cases,
  Bool-cases, inl, inr,
}
use radius_go.Base.Int.{ℤ}
use radius_go.Base.Text.{Str}
use radius_go.Base.Dict.{lookup, lookup-insert_self}
use radius_go.Domain.User.{RadiusUser}
use radius_go.Packet.{AttributeLaws}
use radius_go.Service.{Service, Task, Outcome, record_first_login, disable_user, inc_auth_requests}
use radius_go.Auth.Reply.{Env}
use radius_go.Auth.Decision.{
  AuthRequest, AuthClock, Interleaving, password_matches, reject_auth, disable_in_memory,
  store_first_login, stored_login, voucher_refused, check_voucher, first_login, admit, handle_auth,
}
use radius_go.Auth.Admission.{
  is_accept, IsGood, voucher_refused-IsGood, logged_in, voucher_refused-login,
  is_accept-reject_auth,
}
use radius_go.Auth.Accepted.{login_tasks, admit_voucher, first_login_old, authenticate-known}

-- A user who is disabled, where there is one.
abbrev pub disabled : Option RadiusUser → Option RadiusUser
disabled none = none
disabled (some u) = some (record u { enabled = false })

pub lookup-disable_in_memory :
    (username : Str) (s : Service)
    → lookup username (disable_in_memory username s).subscribers
      ≡ disabled (lookup username s.subscribers)
unfolding disable_in_memory
lookup-disable_in_memory username s = elim (Option-cases (lookup username s.subscribers)) [
  | inl e ↦ rw (e, disable_in_memory) e
  | inr (u, e) ↦ rw (e, disable_in_memory) (lookup-insert_self username _ s.subscribers)
]

pub lookup-store_first_login :
    (username : Str) (user stored : RadiusUser) (now : ℤ) (s : Service)
    → lookup username s.subscribers ≡ some stored
    → lookup username (store_first_login username user now s).subscribers
      ≡ some (stored_login user now stored)
unfolding store_first_login
lookup-store_first_login username user stored now s e =
    rw (e, store_first_login) (lookup-insert_self username _ s.subscribers)

module _ (env : Env) (laws : AttributeLaws env.lib) (inter : Interleaving) (clock : AuthClock)
    (req : AuthRequest) where
  -- The outcome of a refused voucher, from the state that the login stage left.
  abbrev refused : RadiusUser → Service → List Task → Outcome
  refused user q tasks =
      reject_auth env req (disable_in_memory req.username (inter.before_disable q))
        (tasks ++ (disable_user user.id ∷ []))

  check_voucher-refused :
      (user : RadiusUser) (q : Service) (tasks : List Task)
      → voucher_refused user clock.check ≡ true
      → check_voucher env inter clock req user q tasks ≡ refused user q tasks
  unfolding check_voucher
  check_voucher-refused user q tasks e = rw (e, check_voucher)

  first_login-refused :
      (user : RadiusUser) (s : Service)
      → user.first_login_at ≡ none
      → voucher_refused user clock.check ≡ true
      → first_login env inter clock req user s
        ≡ refused user (store_first_login req.username user clock.login (inter.before_login s)) (
            record_first_login user.id user.voucher_time_limit_type user.voucher_time_limit_seconds
            ∷ [])
  unfolding first_login
  first_login-refused user s new bad = ground (
    arith,
    new,
    check_voucher-refused (record user { first_login_at = some clock.login })
        (store_first_login req.username user clock.login (inter.before_login s))
        (record_first_login user.id user.voucher_time_limit_type user.voucher_time_limit_seconds
          ∷ [])
        (voucher_refused-login env laws inter clock req user (some clock.login) clock.check ∙ bad),
  )

  admit-refused :
      (user : RadiusUser) (s : Service)
      → user.is_voucher ≡ true
      → voucher_refused user clock.check ≡ true
      → admit env inter clock req user s
        ≡ refused user (logged_in env laws inter clock req user s) (login_tasks user)
  admit-refused user s voucher bad = elim (Option-cases user.first_login_at) [
    | inl new ↦
        admit_voucher env laws inter clock req user s voucher
        ∙ first_login-refused user s new bad
        ∙ ground (arith, voucher, new)
    | inr (t, old) ↦
        admit_voucher env laws inter clock req user s voucher
        ∙ first_login_old env laws inter clock req user s t old
        ∙ check_voucher-refused user s [] bad
        ∙ ground (arith, voucher, old)
  ]

  bad_is_refused :
      (user : RadiusUser) → ¬ IsGood user clock.check → voucher_refused user clock.check ≡ true
  bad_is_refused user bad = elim (Bool-cases (voucher_refused user clock.check)) [
    | inl e ↦ e
    | inr e ↦ absurd (bad (voucher_refused-IsGood user clock.check e))
  ]

  subscribers-reject_auth :
      (s : Service) (tasks : List Task)
      → (reject_auth env req s tasks).service.subscribers ≡ s.subscribers
  unfolding reject_auth
  subscribers-reject_auth s tasks = refl

  tasks-reject_auth :
      (s : Service) (tasks : List Task) → (reject_auth env req s tasks).tasks ≡ tasks
  unfolding reject_auth
  tasks-reject_auth s tasks = refl

  -- A known, enabled voucher with the right password that is expired or used up is rejected; it is
  -- disabled in memory, if others have not removed it by then; and the goroutine that disables it in
  -- the database is started, behind the one for a first login.
  pub handle_auth-refused :
      (user : RadiusUser) (password : Str) (rest : List Str) (s : Service)
      → req.passwords ≡ some (password ∷ rest)
      → lookup req.username s.subscribers ≡ some user
      → user.enabled ≡ true
      → password_matches env user.password_hash password ≡ true
      → user.is_voucher ≡ true
      → ¬ IsGood user clock.check
      → let o = handle_auth env inter clock req s in
        let q =
          inter.before_disable (logged_in env laws inter clock req user (inc_auth_requests s)) in
        (is_accept o ≡ false)
        × (lookup req.username o.service.subscribers ≡ disabled (lookup req.username q.subscribers))
        × (o.tasks ≡ login_tasks user ++ (disable_user user.id ∷ []))
  unfolding handle_auth
  handle_auth-refused user password rest s p e on fits voucher bad =
      let s1 = inc_auth_requests s in
      let q = logged_in env laws inter clock req user s1 in
      let tasks = login_tasks user ++ (disable_user user.id ∷ []) in
      let q' = disable_in_memory req.username (inter.before_disable q) in
      let same =
        authenticate-known env laws inter clock req user password s1 e on fits
        ∙ admit-refused user s1 voucher (bad_is_refused user bad) in
      rw (p, handle_auth, same)
        (
          is_accept-reject_auth env laws inter clock req q' tasks,
          ap (lookup req.username) (subscribers-reject_auth q' tasks)
              ∙ lookup-disable_in_memory req.username (inter.before_disable q),
          tasks-reject_auth q' tasks,
        )
