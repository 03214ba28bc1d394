-- ===== src/Service/Table.antt =====
-- cleanupStaleSessions, ReconcileSessions and the accessors of internal/radius/service.go.
use radius_go.Base.{
  ℕ, suc, Bool, ◌&&◌, Option, none, some, List, [], ◌∷◌, map, if◌then◌else◌, is_some, length,
}
use radius_go.Base.Int.{ℤ, pos, ltb_ℤ, sub64, mul64, ◌+ℤ◌}
use radius_go.Base.Text.{Str, codes, str_eq}
use radius_go.Base.Dict.{Dict, lookup, insert}
use radius_go.Domain.User.{Nas, Subscriber, subscriber_from_user}
use radius_go.Domain.Session.{RadiusSession, session_state_active, session_state_stale}
use radius_go.Service.{Service, Task, upsert_session}
use radius_go.Net.HostPort.{host_of}

abbrev pub is_active : RadiusSession → Bool
is_active sess = str_eq sess.session_status session_state_active

abbrev pub is_stale : ℤ → RadiusSession → Bool
is_stale cutoff sess = is_active sess && ltb_ℤ sess.last_update cutoff

abbrev pub made_stale : ℤ → RadiusSession → RadiusSession
made_stale now sess = record sess {
  session_status = session_state_stale;
  stop_time = some now;
  last_update = now;
}

-- One pass of cleanupStaleSessions: the sessions, how many were stale, how many were kept, and the
-- goroutines that store the stale ones.
pub record Cleaned : Type 0 where
  pub sessions : Dict RadiusSession
  pub stale_sessions_cleaned : ℕ
  pub active_sessions_kept : ℕ
  pub tasks : List Task

abbrev pub clean_one : ℤ → ℤ → Str → RadiusSession → Cleaned → Cleaned
clean_one cutoff now id sess rest =
    if is_stale cutoff sess
    then record {
      sessions = (id, made_stale now sess) ∷ rest.sessions;
      stale_sessions_cleaned = suc rest.stale_sessions_cleaned;
      active_sessions_kept = rest.active_sessions_kept;
      tasks = upsert_session (made_stale now sess) ∷ rest.tasks;
    }
    else record {
      sessions = (id, sess) ∷ rest.sessions;
      stale_sessions_cleaned = rest.stale_sessions_cleaned;
      active_sessions_kept = suc rest.active_sessions_kept;
      tasks = rest.tasks;
    }

-- The loop over the table: the entry that it stands at is the one that it stores. The clock is read
-- for each stale session; the reading for a key is an argument.
unfoldable pub clean : ℤ → (Str → ℤ) → Dict RadiusSession → Cleaned
clean cutoff clock [] = record {
  sessions = [];
  stale_sessions_cleaned = 0;
  active_sessions_kept = 0;
  tasks = [];
}
clean cutoff clock ((id, sess) ∷ m) = clean_one cutoff (clock id) id sess (clean cutoff clock m)

-- `time.Now().Add(-staleDuration)`
unfoldable pub cutoff_of : Service → ℤ → ℤ
cutoff_of s now = now +ℤ sub64 (pos 0) (mul64 s.config.stale_session_timeout 1000000000)

unfoldable pub cleanup_stale_sessions : ℤ → (Str → ℤ) → Service → Service × Cleaned
cleanup_stale_sessions now clock s =
    let done = clean (cutoff_of s now) clock s.sessions in
    (record s { sessions = done.sessions }, done)

-- The loop of ReconcileSessions: the table and the number of sessions that it did not have.
unfoldable pub merge : List RadiusSession → Dict RadiusSession → Dict RadiusSession × ℕ
merge [] m = (m, 0)
merge (sess ∷ more) m =
    let there = is_some (lookup sess.id m) in
    let (grown, n) = merge more (if there then m else insert sess.id sess m) in
    (grown, if there then n else suc n)

-- What ListActiveSessions returns is an argument, `none` for an error.
unfoldable pub reconcile_sessions : Option (List RadiusSession) → Service → Service × Option ℕ
reconcile_sessions none s = (s, none)
reconcile_sessions (some stored) s =
    let (m, merged) = merge stored s.sessions in (record s { sessions = m }, some merged)

unfoldable pub count_active : Dict RadiusSession → ℕ
count_active [] = 0
count_active ((id, sess) ∷ m) =
    let rest = count_active m in if is_active sess then suc rest else rest

pub record Status : Type 0 where
  pub started_at : ℤ
  pub nas_count : ℕ
  pub subscriber_count : ℕ
  pub active_sessions : ℕ
  pub auth_requests : ℕ
  pub auth_accepts : ℕ
  pub auth_rejects : ℕ
  pub acct_requests : ℕ
  pub health : Str

unfoldable pub snapshot : Service → Status
snapshot s = record {
  started_at = s.started_at;
  nas_count = length s.nases;
  subscriber_count = length s.subscribers;
  active_sessions = count_active s.sessions;
  auth_requests = s.auth_requests;
  auth_accepts = s.auth_accepts;
  auth_rejects = s.auth_rejects;
  acct_requests = s.acct_requests;
  health = codes "ok";
}

-- The values of a map, in the order in which `range` visits them.
abbrev entries {ℓ} : {V : Type ℓ} → Dict V → List V
entries m = map (λ (e : Str × _). e.1) m

unfoldable pub list_nas : Service → List Nas
list_nas s = entries s.nases

unfoldable pub list_subscribers : Service → List Subscriber
list_subscribers s = map subscriber_from_user (entries s.subscribers)

unfoldable pub list_sessions : Service → List RadiusSession
list_sessions s = entries s.sessions

-- RADIUSSecret: the secret of the server that a request comes from, `none` where it is not known.
unfoldable pub radius_secret : Str → Service → Option Str
radius_secret remote_addr s = elim (lookup (host_of remote_addr) s.nases) [
  | none ↦ none
  | some nas ↦ some nas.secret
]
