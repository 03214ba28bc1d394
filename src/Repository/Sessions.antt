-- ===== src/Repository/Sessions.antt =====
-- internal/radius/repository.go: the statements on radius_sessions.
use radius_go.Base.{Bool, ◌&&◌, Option, none, some, List, [], ◌∷◌, ◌++◌, if◌then◌else◌, take, ◌>>=◌}
use radius_go.Base.Int.{ℤ, pos, leb_ℤ}
use radius_go.Base.Text.{Str, codes, str_eq}
use radius_go.Domain.Session.{RadiusSession, SessionState, session_state_active}
use radius_go.Repository.{Postgres, Database, Statement, is_int4, is_int8}
use radius_go.Repository.Table.{select, update_where, order_by, exists}

module _ (pg : Postgres) where
  unfoldable pub session_fits : RadiusSession → Bool
  session_fits s =
      pg.holds_text s.session_id
      && pg.holds_text s.username
      && pg.holds_text s.nas_id
      && pg.holds_text s.nas_ip
      && pg.holds_text s.nas_identifier
      && pg.holds_text s.framed_ip
      && pg.holds_text s.calling_station
      && pg.holds_text s.called_station
      && pg.holds_text s.service_type
      && is_int8 s.input_octets
      && is_int8 s.output_octets
      && is_int8 s.session_time
      && pg.holds_text s.session_status
      && pg.holds_text s.mikrotik_group
      && pg.holds_text s.rate_limit
      && is_int4 (pos s.bandwidth_max_up)
      && is_int4 (pos s.bandwidth_max_down)
      && is_int4 (pos s.max_total_octets)

  abbrev pub stored_time : Option ℤ → Option ℤ
  stored_time none = none
  stored_time (some t) = some (pg.microseconds t)

  -- The row of a session, under the time at which the row was made.
  abbrev pub session_row : ℤ → RadiusSession → Str → ℤ → RadiusSession
  session_row now s key created = record s {
    id = key;
    start_time = pg.microseconds s.start_time;
    last_update = pg.microseconds s.last_update;
    stop_time = stored_time s.stop_time;
    created_at = created;
    updated_at = now;
  }

  -- `INSERT … ON CONFLICT (id) DO UPDATE SET …`
  unfoldable pub upsert_session : ℤ → RadiusSession → Statement
  upsert_session now s db = do
    key ← pg.uuid s.id
    if session_fits s
        then some (record db {
          sessions =
              if exists (λ r. str_eq r.id key) db.sessions
              then update_where (λ r. str_eq r.id key)
                  (λ old. session_row now s old.id old.created_at) db.sessions
              else db.sessions ++ session_row now s key now ∷ [];
        })
        else none

  unfoldable pub list_sessions_by_status : SessionState → Database → List RadiusSession
  list_sessions_by_status status db = select (λ s. str_eq s.session_status status) db.sessions

  unfoldable pub list_active_sessions : Database → List RadiusSession
  unfolding list_sessions_by_status
  list_active_sessions db = list_sessions_by_status session_state_active db

  unfoldable pub list_active_sessions_by_username : Str → Database → List RadiusSession
  list_active_sessions_by_username name db =
      select (λ s. str_eq s.username name && str_eq s.session_status (codes "active")) db.sessions

  -- `ORDER BY start_time DESC LIMIT 500`
  unfoldable pub list_all_sessions : Database → List RadiusSession
  list_all_sessions db = take 500 (order_by (λ a b. leb_ℤ b.start_time a.start_time) db.sessions)

  unfoldable pub update_session_status : ℤ → Str → SessionState → Option ℤ → Statement
  update_session_status now id status stop_time db = do
    key ← pg.uuid id
    if pg.holds_text status
        then some (record db {
          sessions =
              update_where (λ s. str_eq s.id key)
                (λ s. record s {
                  session_status = status;
                  stop_time = stored_time stop_time;
                  updated_at = now;
                })
                db.sessions;
        })
        else none
