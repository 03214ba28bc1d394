-- ===== src/Service/Reconcile.antt =====
-- What ReconcileSessions adds to the table.
use radius_go.Base.{
  ℕ, suc, ◌+◌, ◌≡◌, refl, Option, none, some, List, [], ◌∷◌, if◌then◌else◌, first_of, length, arith,
}
use radius_go.Base.Text.{Str, str_eq, str_eq_iff}
use radius_go.Base.Dict.{Dict, lookup, insert, lookup-insert, IsMap, insert-IsMap}
use radius_go.Domain.Session.{RadiusSession}
use radius_go.Service.{Service}
use radius_go.Service.Table.{merge, reconcile_sessions}

length-insert_new :
    (id : Str) (sess : RadiusSession) (m : Dict RadiusSession)
    → lookup id m ≡ none
    → length (insert id sess m) ≡ suc (length m)
unfolding lookup insert
length-insert_new id sess [] h = refl
length-insert_new id sess ((j, other) ∷ m) h = ground (arith, length-insert_new id sess m)

-- The first stored session of an id.
unfoldable pub find_stored : Str → List RadiusSession → Option RadiusSession
find_stored id [] = none
find_stored id (sess ∷ more) = if str_eq sess.id id then some sess else find_stored id more

pub merge-lookup :
    (id : Str) (stored : List RadiusSession) (m : Dict RadiusSession)
    → lookup id (merge stored m).0 ≡ first_of (lookup id m) (find_stored id stored)
unfolding merge find_stored
merge-lookup id [] m = ground arith
merge-lookup id (new ∷ more) m = ground (
  arith,
  merge-lookup id more m,
  merge-lookup id more (insert new.id new m),
  lookup-insert new.id id new m,
  str_eq_iff new.id id,
)

pub merge-length :
    (stored : List RadiusSession) (m : Dict RadiusSession)
    → length (merge stored m).0 ≡ length m + (merge stored m).1
unfolding merge
merge-length [] m = omega arith
merge-length (new ∷ more) m = ground (
  arith,
  merge-length more m,
  merge-length more (insert new.id new m),
  length-insert_new new.id new m,
)

merge-IsMap :
    (stored : List RadiusSession) (m : Dict RadiusSession) → IsMap m → IsMap (merge stored m).0
unfolding merge
merge-IsMap [] m h = h
merge-IsMap (new ∷ more) m h = ground (
  arith,
  merge-IsMap more m h,
  merge-IsMap more (insert new.id new m) (insert-IsMap new.id new m h),
)

-- Reconciling adds the stored sessions that the table lacks, and changes no other: under an id
-- stands the session that stood there before, else the first stored one. The result is the number of
-- sessions by which the table grew, and no key stands twice if none did before.
pub reconcile_sessions_lem :
    (stored : List RadiusSession) (s : Service) (id : Str)
    → IsMap s.sessions
    → (lookup id (reconcile_sessions (some stored) s).0.sessions
        ≡ first_of (lookup id s.sessions) (find_stored id stored))
      × ((merged : ℕ) × ((reconcile_sessions (some stored) s).1 ≡ some merged)
          × (length (reconcile_sessions (some stored) s).0.sessions ≡ length s.sessions + merged))
      × IsMap (reconcile_sessions (some stored) s).0.sessions
unfolding reconcile_sessions
reconcile_sessions_lem stored s id h = (
  merge-lookup id stored s.sessions,
  ((merge stored s.sessions).1, refl, merge-length stored s.sessions),
  merge-IsMap stored s.sessions h,
)
