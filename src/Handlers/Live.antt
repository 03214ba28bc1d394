-- ===== src/Handlers/Live.antt =====
-- The handlers of internal/radius/handlers.go and subscriber_handlers.go that work on the memory of
-- the server: the lists, the status, disconnects, changes of profile, the cleanup and the
-- reconciliation.
pub mod Reconciled
use radius_go.Base.{ℕ, Bool, ◌&&◌, Option, none, some, List, [], if◌then◌else◌, length, leb}
use radius_go.Base.Int.{ℤ}
use radius_go.Base.Text.{Str, codes}
use radius_go.Domain.Session.{RadiusSession, DisconnectRequest, CoaChangeRequest}
use radius_go.Packet.{RadiusLibrary}
use radius_go.Coa.{Network, ProfileChange, disconnect_user, change_user_profile}
use radius_go.Repository.{Postgres, Database, query}
use radius_go.Repository.Sessions.{list_active_sessions}
use radius_go.Service.{Service, Task}
use radius_go.Service.Table.{
  list_nas, list_subscribers, list_sessions, snapshot, cleanup_stale_sessions, reconcile_sessions,
}
use radius_go.Validate.{
  non_empty, limit_string, max_username_len, max_rate_limit_len, max_group_len,
}
use radius_go.Handlers.{
  Libraries, Link, Payload, nases, subscribers, radius_sessions, radius_status, disconnected,
  profile_changed, cleaned_up, merged_in, Response, ok, fail,
}

-- What a handler answers, the memory that it leaves, and the goroutines that it starts.
pub record Live : Type 0 where
  pub response : Response
  pub service : Service
  pub tasks : List Task

abbrev pub live : Service → Response → Live
live s r = record { response = r; service = s; tasks = [] }

abbrev pub rejected : Service → Str → Live
rejected s message = live s (fail 400 (codes "bad_request") message)

unfoldable pub handle_list_nas : Service → Live
handle_list_nas s = live s (ok (nases (list_nas s)))

unfoldable pub handle_list_subscribers : Service → Live
handle_list_subscribers s = live s (ok (subscribers (list_subscribers s)))

unfoldable pub handle_list_sessions : Service → Live
handle_list_sessions s = live s (ok (radius_sessions (list_sessions s)))

unfoldable pub handle_status : Service → Live
handle_status s = live s (ok (radius_status (snapshot s)))

-- `nonEmpty(req.Username) && len(req.Username) <= maxUsernameLen`
abbrev pub names_user : Str → Bool
names_user username = non_empty username && leb (length username) max_username_len

-- The reason is not sent: DisconnectUser does not use it.
unfoldable pub handle_disconnect_user :
    RadiusLibrary → Network → Option DisconnectRequest → Service → Live
handle_disconnect_user lib net none s = rejected s (codes "invalid JSON")
handle_disconnect_user lib net (some req) s =
    if names_user req.username
    then (let (s', count) = disconnect_user lib net req.username s in
        live s' (ok (disconnected req.username count)))
    else rejected s (codes "username is required")

abbrev pub change_of : CoaChangeRequest → ProfileChange
change_of req = record {
  rate_limit = limit_string req.rate_limit max_rate_limit_len;
  group = limit_string req.group max_group_len;
  bw_up = req.bandwidth_max_up;
  bw_down = req.bandwidth_max_down;
  max_octets = req.max_total_octets;
}

unfoldable pub handle_coa_change :
    RadiusLibrary → Network → Option CoaChangeRequest → Service → Live
handle_coa_change lib net none s = rejected s (codes "invalid JSON")
handle_coa_change lib net (some req) s =
    if names_user req.username
    then (let (s', result) = change_user_profile lib net req.username (change_of req) s in
        live s' (ok (profile_changed result)))
    else rejected s (codes "username is required")

-- At a time, with the reading of the clock at each stale session and at the end.
unfoldable pub handle_session_cleanup : ℤ → (Str → ℤ) → ℤ → Service → Live
handle_session_cleanup now clock done_at s =
    let (s', done) = cleanup_stale_sessions now clock s in
    record {
      response = ok (cleaned_up done.stale_sessions_cleaned done.active_sessions_kept done_at);
      service = s';
      tasks = done.tasks;
    }

-- The database is read, and the sessions that the memory lacks are merged into it; the memory is the
-- one at the answer of the database.
unfoldable pub handle_session_reconcile : Postgres → Link → Database → Service → Live
handle_session_reconcile pg link db s =
    let rows = query (link.delivery 0) (λ d. some (list_active_sessions pg d)) (link.before 0 db) in
    let (s', merged) = reconcile_sessions rows s in
    elim merged [
      | none ↦ live s' (fail 500 (codes "reconcile_failed") (codes "reconcile failed"))
      | some count ↦ live s' (ok (merged_in count))
    ]
