-- ===== src/Accounting/Retransmit.antt =====
-- How many sessions of a user are active after Accounting-Start and Accounting-Stop.
use radius_go.Base.{
  ℕ, suc, ◌+◌, ◌≤◌, ◌≡◌, ◌∙◌, ap, true, false, none, some, arith, Option-cases, inl, inr,
}
use radius_go.Base.Int.{ℤ}
use radius_go.Base.Text.{Str, str_eq, str_eq_refl}
use radius_go.Base.Dict.{Dict, lookup, IsMap}
use radius_go.Domain.Session.{RadiusSession}
use radius_go.Service.{Service}
use radius_go.Auth.Decision.{is_active_of, active_count}
use radius_go.Accounting.{
  AcctRequest, AcctClock, AcctInterleaving, handle_acct_start, find_session, updated_session,
  handle_acct_update,
}
use radius_go.Accounting.Sessions.{
  one_if, Quiet, active_count-start, active_count-insert_old, start-IsMap, find_session-lookup,
  sessions-handle_acct_update, sessions-apply, sessions-apply_none,
}

module _ (inter : AcctInterleaving) (r : AcctRequest) where
  abbrev pub after_start : Str → ℤ → Service → Service
  after_start id now s = (handle_acct_start inter r id now s).0

  abbrev pub after_stop : AcctClock → Service → Service
  after_stop clock s = (handle_acct_update inter r clock true s).0

module _ (inter : AcctInterleaving) (quiet : Quiet inter) (r : AcctRequest) where
  -- Accounting-Start opens one active session of its user, whatever the table holds: the same
  -- request sent twice opens two, and no other user's number of active sessions changes. Both
  -- identifiers are new, and other goroutines leave the table alone meanwhile.
  pub start_twice :
      (name id id' : Str) (now now' : ℤ) (s : Service)
      → lookup id s.sessions ≡ none
      → lookup id' (after_start inter r id now s).sessions ≡ none
      → active_count name (after_start inter r id' now' (after_start inter r id now s)).sessions
        ≡ active_count name s.sessions
          + one_if (str_eq r.username name)
          + one_if (str_eq r.username name)
  start_twice name id id' now now' s fresh fresh' =
      active_count-start inter quiet r name id' now' (after_start inter r id now s) fresh'
      ∙ ap (λ (n : ℕ). n + one_if (str_eq r.username name))
          (active_count-start inter quiet r name id now s fresh)

  not_active :
      (name : Str) (clock : AcctClock) (sess : RadiusSession)
      → is_active_of name (updated_session r clock true sess) ≡ false
  unfolding str_eq
  not_active name clock sess = ground arith

  -- Accounting-Stop closes the session that it names, and no other: the number of active sessions
  -- of every user goes down by one where that session was active and his, and stays else. No key
  -- stands twice in the table, and other goroutines leave it alone meanwhile.
  pub active_count-stop :
      (name : Str) (clock : AcctClock) (s : Service) (id : Str) (sess : RadiusSession)
      → IsMap s.sessions
      → find_session r.username r.session_id s.sessions ≡ some (id, sess)
      → active_count name (after_stop inter r clock s).sessions + one_if (is_active_of name sess)
        ≡ active_count name s.sessions
  active_count-stop name clock s id sess h e =
      let closed = updated_session r clock true sess in
      let same =
        sessions-handle_acct_update inter quiet r clock true s
        ∙ sessions-apply inter quiet r clock true s id sess e in
      ap (λ (m : Dict RadiusSession). active_count name m + one_if (is_active_of name sess)) same
      ∙ active_count-insert_old name id sess closed s.sessions
          (find_session-lookup r.username r.session_id s.sessions id sess h e)
      ∙ ground (arith, not_active name clock sess)

  stop_one :
      (name : Str) (clock : AcctClock) (s : Service)
      → IsMap s.sessions
      → active_count name s.sessions ≤ suc (active_count name (after_stop inter r clock s).sessions)
  stop_one name clock s h = elim (Option-cases (find_session r.username r.session_id s.sessions)) [
    | inl e ↦
        let same : (after_stop inter r clock s).sessions ≡ s.sessions =
          sessions-handle_acct_update inter quiet r clock true s
          ∙ sessions-apply_none inter quiet r clock true s e in
        omega (arith, ap (active_count name) same)
    | inr ((id, sess), e) ↦ ground (arith, active_count-stop name clock s id sess h e)
  ]

  -- A start that was sent twice and one stop leave a session of the user active that nothing closes
  -- before it is stale: he has at least one more than before. No key stands twice in the table,
  -- both identifiers are new, and other goroutines leave the table alone meanwhile.
  pub start_start_stop :
      (id id' : Str) (now now' : ℤ) (clock : AcctClock) (s : Service)
      → IsMap s.sessions
      → lookup id s.sessions ≡ none
      → lookup id' (after_start inter r id now s).sessions ≡ none
      → suc (active_count r.username s.sessions)
        ≤ active_count r.username
            (after_stop inter r clock
              (after_start inter r id' now' (after_start inter r id now s))).sessions
  start_start_stop id id' now now' clock s h fresh fresh' =
      let q = after_start inter r id now s in
      let q' = after_start inter r id' now' q in
      let stopped =
        stop_one r.username clock q'
          (start-IsMap inter quiet r id' now' q (start-IsMap inter quiet r id now s h)) in
      ground (
        arith,
        stopped,
        start_twice r.username id id' now now' s fresh fresh',
        str_eq_refl r.username,
      )
