-- ===== src/Accounting/Usage.antt =====
-- What accounting requests charge to a voucher, one request and a series of them.
use radius_go.Base.{
  ◌≡◌, refl, Bool, true, ◌&&◌, ◌||◌, not, some, List, [], ◌∷◌, if◌then◌else◌, arith,
}
use radius_go.Base.Int.{ℤ, pos, ltb_ℤ}
use radius_go.Base.Text.{Str, is_empty, str_eq_iff}
use radius_go.Base.Dict.{Dict, lookup, insert, IsMap}
use radius_go.Domain.User.{RadiusUser}
use radius_go.Domain.Session.{RadiusSession}
use radius_go.Service.{Service, Task, upsert_session, add_usage_delta}
use radius_go.Accounting.{
  AcctRequest, AcctClock, find_session, updated_session, delta_sec, delta_oct, charged,
  limit_reached, charge, apply_acct_update,
}
use radius_go.Accounting.Sessions.{find_session-lookup}

-- The goroutine that stores a growth, where there is a growth and a database row.
abbrev pub usage_tasks : RadiusUser → ℤ → ℤ → List Task
usage_tasks u secs octets =
    if not (is_empty u.id) && (ltb_ℤ (pos 0) secs || ltb_ℤ (pos 0) octets)
    then add_usage_delta u.id secs octets ∷ []
    else []

-- One request about a session of a voucher that is in memory.
pub apply_acct_update-voucher :
    (r : AcctRequest) (clock : AcctClock) (stop : Bool) (s : Service) (id : Str)
    (sess : RadiusSession) (u : RadiusUser)
    → find_session r.username r.session_id s.sessions ≡ some (id, sess)
    → lookup r.username s.subscribers ≡ some u
    → u.is_voucher ≡ true
    → apply_acct_update r clock stop s ≡ (
      record s {
        sessions = insert id (updated_session r clock stop sess) s.sessions;
        subscribers =
            insert r.username (charged (delta_sec r sess) (delta_oct r sess) u) s.subscribers;
      },
      limit_reached (charged (delta_sec r sess) (delta_oct r sess) u),
      upsert_session (updated_session r clock stop sess)
          ∷ usage_tasks u (delta_sec r sess) (delta_oct r sess),
    )
unfolding apply_acct_update charge
apply_acct_update-voucher r clock stop s id sess u e known voucher =
    rw (e, known, voucher, apply_acct_update, charge) refl

-- The entry that a search found is found again under what replaces it.
pub find_session-insert :
    (name session_id : Str) (m : Dict RadiusSession) (id : Str) (sess sess' : RadiusSession)
    → IsMap m
    → find_session name session_id m ≡ some (id, sess)
    → sess'.username ≡ sess.username
    → sess'.session_id ≡ sess.session_id
    → find_session name session_id (insert id sess' m) ≡ some (id, sess')
unfolding find_session insert
find_session-insert name session_id [] id sess sess' h e u k = cc
find_session-insert name session_id ((j, other) ∷ m) id sess sess' h e u k = ground (
  arith,
  find_session-insert name session_id m id sess sess' h.1,
  find_session-lookup name session_id m id sess h.1,
  str_eq_iff j id,
  str_eq_iff sess.username name,
  str_eq_iff sess.session_id session_id,
)
