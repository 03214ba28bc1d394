-- ===== src/Handlers/Live/Reconciled.antt =====
-- What HandleSessionReconcile brings from the database into the memory.
use radius_go.Base.{
  ℕ, ◌+◌, ◌≡◌, refl, ◌∙◌, ap, Bool, true, ◌&&◌, List, [], ◌∷◌, first_of, is_some, length, arith,
  All,
}
use radius_go.Base.Text.{Str, str_eq}
use radius_go.Base.Dict.{Dict, lookup, insert, lookup-insert_self, IsMap}
use radius_go.Domain.Session.{RadiusSession}
use radius_go.Repository.{Postgres, Database, Delivery, answered, query}
use radius_go.Repository.Sessions.{list_active_sessions}
use radius_go.Repository.Table.{select, first_where}
use radius_go.Service.{Service}
use radius_go.Service.Table.{merge, reconcile_sessions, is_active}
use radius_go.Service.Reconcile.{find_stored, merge-lookup, merge-length, reconcile_sessions_lem}
use radius_go.Handlers.{Link, ok, merged_in}
use radius_go.Handlers.Live.{Live, live, handle_session_reconcile}

-- The first row of an identifier among the rows of a query.
find_stored-select :
    (p : RadiusSession → Bool) (id : Str) (rows : List RadiusSession)
    → find_stored id (select p rows) ≡ first_where (λ r. p r && str_eq r.id id) rows
unfolding find_stored select first_where
find_stored-select p id [] = refl
find_stored-select p id (r ∷ rows) = ground (arith, find_stored-select p id rows)

abbrev In : Dict RadiusSession → RadiusSession → Type 0
In m sess = is_some (lookup sess.id m) ≡ true

merge-kept :
    (id : Str) (stored : List RadiusSession) (m : Dict RadiusSession)
    → is_some (lookup id m) ≡ true
    → is_some (lookup id (merge stored m).0) ≡ true
merge-kept id stored m h = ground (arith, h, merge-lookup id stored m)

-- After a merge every session that was stored is in the table.
merge-In :
    (stored : List RadiusSession) (m : Dict RadiusSession) → All (In (merge stored m).0) stored
unfolding merge
merge-In [] m = tt
merge-In (new ∷ more) m = ground (
  arith,
  merge-In more m,
  merge-In more (insert new.id new m),
  merge-kept new.id more m,
  merge-kept new.id more (insert new.id new m),
  lookup-insert_self new.id new m,
)

merge_again :
    (stored : List RadiusSession) (m : Dict RadiusSession)
    → All (In m) stored
    → merge stored m ≡ (m, 0)
unfolding merge
merge_again [] m h = refl
merge_again (new ∷ more) m h = ground (arith, h.0, merge_again more m h.1)

-- The rows that the query gives.
abbrev rows_of : Link → Database → List RadiusSession
rows_of link db = select is_active (link.before 0 db).sessions

handle_session_reconcile-answered :
    (pg : Postgres) (link : Link) (db : Database) (s : Service)
    → link.delivery 0 ≡ answered
    → handle_session_reconcile pg link db s
      ≡ live
          (record s { sessions = (merge (rows_of link db) s.sessions).0 })
          (ok (merged_in (merge (rows_of link db) s.sessions).1))
unfolding handle_session_reconcile reconcile_sessions query list_active_sessions
handle_session_reconcile-answered pg link db s sent =
    ap (λ (d : Delivery). handle_session_reconcile pg (record link { delivery = λ k. d }) db s) sent

-- A reconciliation whose query succeeds answers the number of sessions by which the table grows, and
-- keeps every session that is there; of the others it has exactly the active rows of the database, an
-- identifier's first one. No key stands twice if none did before, and a second reconciliation with
-- the same rows adds none.
pub handle_session_reconcile_lem :
    (pg : Postgres) (link : Link) (db : Database) (s : Service) (id : Str)
    → link.delivery 0 ≡ answered
    → IsMap s.sessions
    → ((n : ℕ) × ((handle_session_reconcile pg link db s).response ≡ ok (merged_in n))
        × (length (handle_session_reconcile pg link db s).service.sessions ≡ length s.sessions + n))
      × (lookup id (handle_session_reconcile pg link db s).service.sessions
          ≡ first_of
              (lookup id s.sessions)
              (first_where (λ r. is_active r && str_eq r.id id) (link.before 0 db).sessions))
      × IsMap (handle_session_reconcile pg link db s).service.sessions
      × ((handle_session_reconcile pg link db
            (handle_session_reconcile pg link db s).service).response
          ≡ ok (merged_in 0))
unfolding reconcile_sessions
handle_session_reconcile_lem pg link db s id sent h =
    let rows = rows_of link db in
    let (there, grown, keys) = reconcile_sessions_lem rows s id h in
    let first = handle_session_reconcile-answered pg link db s sent in
    let second =
      handle_session_reconcile-answered pg link db
        (record s { sessions = (merge rows s.sessions).0 }) sent in
    let again = merge_again rows (merge rows s.sessions).0 (merge-In rows s.sessions) in
    let found = find_stored-select is_active id (link.before 0 db).sessions in
    rw (first) (
      ((merge rows s.sessions).1, refl, merge-length rows s.sessions),
      there ∙ ap (first_of (lookup id s.sessions)) found,
      keys,
      ap (λ (l : Live). l.response) second
          ∙ ap (λ (q : Dict RadiusSession × ℕ). ok (merged_in q.1)) again,
    )
