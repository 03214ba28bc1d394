-- ===== src/Accounting/Sessions.antt =====
-- The table of sessions under accounting requests.
use radius_go.Base.{ℕ, ◌+◌, ◌≡◌, sym, ◌∙◌, ap, subst, Bool, true, false, none, some, [], ◌∷◌, arith}
use radius_go.Base.Int.{ℤ}
use radius_go.Base.Text.{Str, str_eq, str_eq_iff, str_eq_refl}
use radius_go.Base.Dict.{Dict, lookup, insert, IsMap, insert-IsMap}
use radius_go.Domain.Session.{RadiusSession, session_state_active}
use radius_go.Service.{Service}
use radius_go.Auth.Decision.{is_active_of, active_count, disable_in_memory}
use radius_go.Accounting.{
  AcctRequest, AcctClock, AcctInterleaving, new_session, handle_acct_start, find_session,
  updated_session, apply_acct_update, charge, handle_acct_update, disconnect_and_disable_voucher,
}

abbrev pub one_if : Bool → ℕ
one_if true = 1
one_if false = 0

-- A session under a new key.
pub active_count-insert_new :
    (name id : Str) (sess : RadiusSession) (m : Dict RadiusSession)
    → lookup id m ≡ none
    → active_count name (insert id sess m) ≡ active_count name m + one_if (is_active_of name sess)
unfolding active_count insert lookup
active_count-insert_new name id sess [] h = ground arith
active_count-insert_new name id sess ((j, other) ∷ m) h =
    ground (arith, active_count-insert_new name id sess m)

-- A session in place of another.
pub active_count-insert_old :
    (name id : Str) (old sess : RadiusSession) (m : Dict RadiusSession)
    → lookup id m ≡ some old
    → active_count name (insert id sess m) + one_if (is_active_of name old)
      ≡ active_count name m + one_if (is_active_of name sess)
unfolding active_count insert lookup
active_count-insert_old name id old sess [] h = cc
active_count-insert_old name id old sess ((j, other) ∷ m) h =
    ground (arith, active_count-insert_old name id old sess m)

pub find_session-lookup :
    (name session_id : Str) (m : Dict RadiusSession) (id : Str) (sess : RadiusSession)
    → IsMap m
    → find_session name session_id m ≡ some (id, sess)
    → lookup id m ≡ some sess
unfolding find_session lookup
find_session-lookup name session_id [] id sess h e = cc
find_session-lookup name session_id ((j, other) ∷ m) id sess h e =
    ground
      (arith, find_session-lookup name session_id m id sess h.1, str_eq_iff j id, str_eq_refl j)

-- What other goroutines do leaves the table alone.
pub record Quiet (inter : AcctInterleaving) : Type 0 where
  pub store : (q : Service) → (inter.before_store q).sessions ≡ q.sessions
  pub lookup_user : (q : Service) → (inter.before_lookup q).sessions ≡ q.sessions
  pub disable : (q : Service) → (inter.before_disable q).sessions ≡ q.sessions

module _ (inter : AcctInterleaving) (quiet : Quiet inter) (r : AcctRequest) where
  -- Accounting-Start under a fresh identifier adds one active session to its user and none to others.
  pub active_count-start :
      (name id : Str) (now : ℤ) (s : Service)
      → lookup id s.sessions ≡ none
      → active_count name (handle_acct_start inter r id now s).0.sessions
        ≡ active_count name s.sessions + one_if (str_eq r.username name)
  unfolding handle_acct_start new_session
  active_count-start name id now s fresh =
      let sess = new_session r id now (lookup r.username s.subscribers) in
      ap (λ (m : Dict RadiusSession). active_count name (insert id sess m)) (quiet.store s)
      ∙ active_count-insert_new name id sess s.sessions fresh
      ∙ ground (arith, str_eq_refl session_state_active)

  pub start-IsMap :
      (id : Str) (now : ℤ) (s : Service)
      → IsMap s.sessions
      → IsMap (handle_acct_start inter r id now s).0.sessions
  unfolding handle_acct_start
  start-IsMap id now s h =
      let sess = new_session r id now (lookup r.username s.subscribers) in
      insert-IsMap id sess (inter.before_store s).sessions (subst IsMap (sym (quiet.store s)) h)

  -- A request of which no limit is reached and one of which it is leave the same table.
  pub sessions-handle_acct_update :
      (clock : AcctClock) (stop : Bool) (s : Service)
      → (handle_acct_update inter r clock stop s).0.sessions
        ≡ (apply_acct_update r clock stop s).0.sessions
  unfolding handle_acct_update disconnect_and_disable_voucher disable_in_memory
  sessions-handle_acct_update clock stop s =
      let q = (apply_acct_update r clock stop s).0 in
      ground (arith, quiet.lookup_user q, quiet.disable (inter.before_lookup q))

  pub sessions-apply :
      (clock : AcctClock) (stop : Bool) (s : Service) (id : Str) (sess : RadiusSession)
      → find_session r.username r.session_id s.sessions ≡ some (id, sess)
      → (apply_acct_update r clock stop s).0.sessions
        ≡ insert id (updated_session r clock stop sess) s.sessions
  unfolding apply_acct_update charge
  sessions-apply clock stop s id sess e = ground (arith, e)

  pub sessions-apply_none :
      (clock : AcctClock) (stop : Bool) (s : Service)
      → find_session r.username r.session_id s.sessions ≡ none
      → (apply_acct_update r clock stop s).0.sessions ≡ s.sessions
  unfolding apply_acct_update
  sessions-apply_none clock stop s e = ground (arith, e)
