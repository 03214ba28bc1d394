-- ===== src/Examples/Usages.antt =====
-- The theorems on accounting, applied.
use radius_go.Base.{suc, ◌≤◌, ◌≡◌, refl, true, false, none, some, [], ◌∷◌, arith}
use radius_go.Base.Int.{pos, add64, sub64}
use radius_go.Base.Text.{codes, str_eq}
use radius_go.Base.Dict.{lookup, insert, IsMap}
use radius_go.Packet.Reference.{reference_laws}
use radius_go.Auth.Decision.{active_count, handle_auth}
use radius_go.Auth.Admission.{is_accept}
use radius_go.Accounting.{
  AcctRequest, total_octets, delta, find_session, limit_reached, handle_acct_start,
  handle_acct_update,
}
use radius_go.Accounting.Sessions.{Quiet}
use radius_go.Accounting.Retransmit.{after_start, after_stop, start_start_stop}
use radius_go.Accounting.Metering.{Metered, Idle, run_updates, Growing, run_updates-Metered}
use radius_go.Accounting.Limits.{grown_user, limit_locks_out}
use radius_go.Examples.{
  env, data_voucher, data_session, service, request_of, clock, alone, acct_alone, report,
  acct_clock, data_known,
}

acct_alone-Quiet : Quiet acct_alone
acct_alone-Quiet = record { store = λ q. refl; lookup_user = λ q. refl; disable = λ q. refl }

acct_alone-Idle : Idle acct_alone
acct_alone-Idle = record {
  sessions_lookup = λ q. refl;
  subscribers_lookup = λ q. refl;
  sessions_disable = λ q. refl;
  subscribers_disable = λ q. refl;
}

data_found :
    find_session report.username report.session_id service.sessions
    ≡ some (codes "k1", data_session)
unfolding find_session str_eq
data_found = refl

one_key : IsMap service.sessions
unfolding lookup
one_key = (refl, tt)

data-Metered : Metered report.username report.session_id service 100 900
unfolding add64
data-Metered = record {
  keys = one_key;
  id = codes "k1";
  sess = data_session;
  user = data_voucher;
  running = data_found;
  known = data_known;
  voucher = refl;
  at_total = refl;
  used_so_far = refl;
}

-- A second report, of 300 octets.
abbrev later_report : AcctRequest
later_report = record report { input_octets = some 200 }

reports_grow :
    Growing report.username report.session_id 100
      ((report, acct_clock, false) ∷ (later_report, acct_clock, true) ∷ [])
      300
unfolding add64 total_octets
reports_grow = (refl, refl, (250, refl, omega arith, (refl, refl, (300, refl, omega arith, refl))))

run_updates-Metered_example :
    Metered report.username report.session_id
      (run_updates acct_alone
        ((report, acct_clock, false) ∷ (later_report, acct_clock, true) ∷ [])
        service)
      300
      1100
run_updates-Metered_example =
    run_updates-Metered acct_alone acct_alone-Idle report.username report.session_id 100 300 900
      ((report, acct_clock, false) ∷ (later_report, acct_clock, true) ∷ []) service data-Metered
      reports_grow (omega arith)

limit_hit : limit_reached (grown_user report data_session data_voucher) ≡ true
unfolding limit_reached delta add64 sub64 total_octets str_eq
limit_hit = refl

limit_locks_out_example :
    is_accept (
      handle_auth env alone clock
        (request_of data_voucher)
        (handle_acct_update acct_alone report acct_clock false service).0)
    ≡ false
limit_locks_out_example =
    limit_locks_out acct_alone acct_alone-Idle report acct_clock false service (codes "k1")
      data_session data_voucher data_found data_known refl env reference_laws alone clock
      (request_of data_voucher) limit_hit refl

new_key : lookup (codes "k2") service.sessions ≡ none
unfolding lookup str_eq
new_key = refl

newer_key :
    lookup (codes "k3") (after_start acct_alone report (codes "k2") (pos 9) service).sessions ≡ none
unfolding lookup insert str_eq handle_acct_start
newer_key = refl

start_start_stop_example :
    suc (active_count report.username service.sessions)
    ≤ active_count report.username
        (after_stop acct_alone report acct_clock (
          after_start acct_alone report
            (codes "k3")
            (pos 10)
            (after_start acct_alone report (codes "k2") (pos 9) service))).sessions
start_start_stop_example =
    start_start_stop acct_alone acct_alone-Quiet report (codes "k2") (codes "k3") (pos 9) (pos 10)
      acct_clock service one_key new_key newer_key
