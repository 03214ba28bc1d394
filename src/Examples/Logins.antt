-- ===== src/Examples/Logins.antt =====
-- The theorems on authentication, applied.
use radius_go.Base.{◌≡◌, ◌↔◌, refl, ap, true, false, some, [], ◌∷◌, ◌++◌, arith}
use radius_go.Base.Int.{◌+ℤ◌}
use radius_go.Base.Text.{str_eq}
use radius_go.Base.Dict.{lookup}
use radius_go.Packet.{Packet}
use radius_go.Packet.Reference.{reference, reference_laws}
use radius_go.Packet.Authenticator.{add_message_authenticator}
use radius_go.Service.{Outcome, inc_auth_requests, disable_user}
use radius_go.Auth.Reply.{accept_packet}
use radius_go.Auth.Effective.{effective_session_timeout}
use radius_go.Auth.Reply.Timeouts.{timeouts, one_timeout}
use radius_go.Auth.Decision.{password_matches, voucher_refused, nanoseconds, handle_auth}
use radius_go.Auth.Admission.{
  is_accept, IsGood, IsGood-voucher_refused, IsAdmitted, logged_in, handle_auth_accepts_iff,
}
use radius_go.Auth.Accepted.{login_tasks, handle_auth-admitted}
use radius_go.Auth.Vouchers.{disabled, handle_auth-refused}
use radius_go.Auth.Lifetime.{refused_again, first_login_expiry, first_login_untimed}
use radius_go.Auth.Counters.{KeepsCounters, Counts, handle_auth-Counts}
use radius_go.Examples.{
  env, alice, calendar_voucher, spent_voucher, service, request_of, clock, alone, alice_known,
  calendar_known, spent_known,
}

handle_auth_accepts_iff_example :
    (is_accept (handle_auth env alone clock (request_of alice) service) ≡ true)
    ↔ IsAdmitted env reference_laws alone clock
        (request_of alice)
        alice
        alice.password_hash
        (inc_auth_requests service)
handle_auth_accepts_iff_example =
    handle_auth_accepts_iff env reference_laws alone clock (request_of alice) alice
      alice.password_hash [] service refl alice_known

spent_is_refused : voucher_refused spent_voucher clock.check ≡ true
unfolding voucher_refused str_eq
spent_is_refused = refl

spent_is_not-IsGood : ¬ IsGood spent_voucher clock.check
spent_is_not-IsGood good =
    absurd (cc (spent_is_refused, IsGood-voucher_refused spent_voucher clock.check good))

spent_password : password_matches env spent_voucher.password_hash spent_voucher.password_hash ≡ true
unfolding password_matches str_eq
spent_password = refl

handle_auth-refused_example :
    let req = request_of spent_voucher in
    let o = handle_auth env alone clock req service in
    let q =
      logged_in env reference_laws alone clock req spent_voucher (inc_auth_requests service) in
    (is_accept o ≡ false)
    × (lookup req.username o.service.subscribers ≡ disabled (lookup req.username q.subscribers))
    × (o.tasks ≡ login_tasks spent_voucher ++ (disable_user spent_voucher.id ∷ []))
handle_auth-refused_example =
    handle_auth-refused env reference_laws alone clock (request_of spent_voucher) spent_voucher
      spent_voucher.password_hash [] service refl spent_known refl spent_password refl
      spent_is_not-IsGood

refused_again_example :
    is_accept (
      handle_auth env alone clock
        (request_of spent_voucher)
        (handle_auth env alone clock (request_of spent_voucher) service).service)
    ≡ false
refused_again_example =
    refused_again env reference_laws alone alone clock clock (request_of spent_voucher)
      (request_of spent_voucher) spent_voucher spent_voucher.password_hash [] service refl
      spent_known refl spent_password refl spent_is_not-IsGood refl

calendar-IsGood : IsGood calendar_voucher clock.check
calendar-IsGood = record {
  not_expired = λ t e. absurd (cc (e));
  time_left = λ usage l. absurd (cc (usage));
  data_left = λ c. absurd (omega (arith, c));
}

calendar-IsAdmitted :
    IsAdmitted env reference_laws alone clock
      (request_of calendar_voucher)
      calendar_voucher
      calendar_voucher.password_hash
      (inc_auth_requests service)
unfolding password_matches str_eq accept_packet add_message_authenticator reference
calendar-IsAdmitted = record {
  enabled = refl;
  password_ok = refl;
  good = λ v. calendar-IsGood;
  room = λ some_limit. absurd (omega (arith, some_limit));
  encodable = refl;
}

first_login_expiry_example :
    lookup calendar_voucher.username
      (handle_auth env alone clock (request_of calendar_voucher) service).service.subscribers
    ≡ some (record calendar_voucher {
      first_login_at = some clock.login;
      expires_at = some (clock.login +ℤ nanoseconds calendar_voucher.voucher_time_limit_seconds);
    })
first_login_expiry_example =
    first_login_expiry env reference_laws alone clock (request_of calendar_voucher) calendar_voucher
      calendar_voucher.password_hash [] service refl calendar_known calendar-IsAdmitted
      calendar_voucher refl refl refl calendar_known (λ q. refl)

abbrev calendar_reply : Packet
calendar_reply =
    (add_message_authenticator env.lib
      (accept_packet env (request_of calendar_voucher).secret calendar_voucher clock.reply)).0

calendar_replies :
    (handle_auth env alone clock (request_of calendar_voucher) service).reply ≡ some calendar_reply
calendar_replies =
    ap (λ (o : Outcome). o.reply)
      (handle_auth-admitted env reference_laws alone clock (request_of calendar_voucher)
        calendar_voucher calendar_voucher.password_hash [] service refl calendar_known
        calendar-IsAdmitted)

first_login_untimed_example :
    timeouts calendar_reply
    ≡ one_timeout env reference_laws calendar_voucher (effective_session_timeout calendar_voucher)
first_login_untimed_example =
    first_login_untimed env reference_laws alone clock (request_of calendar_voucher)
      calendar_voucher calendar_voucher.password_hash [] service refl calendar_known
      calendar-IsAdmitted calendar_reply refl refl refl calendar_replies

alone-KeepsCounters : KeepsCounters alone (inc_auth_requests service)
alone-KeepsCounters = record { login = λ q h. h; disable = λ q h. h; count = λ q h. h }

handle_auth-Counts_example :
    Counts (inc_auth_requests service) (handle_auth env alone clock (request_of alice) service)
handle_auth-Counts_example =
    handle_auth-Counts env reference_laws alone clock (request_of alice) service alone-KeepsCounters
