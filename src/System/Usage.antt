-- ===== src/System/Usage.antt =====
-- What a voucher used, by the memory and by the database.
use radius_go.Base.{
  ℕ, ◌+◌, ◌≡◌, refl, sym, ◌∙◌, ap, true, false, Option, none, some, List, [], ◌∷◌, arith, All,
  Bool-cases, inl, inr,
}
use radius_go.Base.Int.{ℤ, pos}
use radius_go.Base.Text.{Str, is_empty, str_eq}
use radius_go.Base.Dict.{lookup}
use radius_go.Domain.User.{RadiusUser}
use radius_go.Repository.{Postgres}
use radius_go.Repository.Table.{first_where, exists}
use radius_go.Service.{Service}
use radius_go.Repository.{Database}
use radius_go.System.{System, Reach, owed}
use radius_go.System.Rows.{Tracked}
use radius_go.System.Conserved.{Conserved}
use radius_go.System.Conserved.Steps.{Reach-Conserved}

-- `s.subscribers[name].DataBytesUsed`
abbrev pub bytes_in_memory : Str → Service → Option ℤ
bytes_in_memory name s = elim (lookup name s.subscribers) [
  | none ↦ none
  | some u ↦ some u.data_bytes_used
]

-- `SELECT data_bytes_used FROM radius_users WHERE id=$1`
abbrev pub bytes_in_database : Str → Database → Option ℤ
bytes_in_database id db = elim (first_where (λ u. str_eq u.id id) db.users) [
  | none ↦ none
  | some u ↦ some u.data_bytes_used
]

stored_bytes :
    (name id : Str) (d : ℕ) (users : List RadiusUser)
    → All (Tracked name id d) users
    → exists (λ u. str_eq u.id id) users ≡ true
    → (u : RadiusUser) × (first_where (λ u. str_eq u.id id) users ≡ some u)
      × (u.data_bytes_used ≡ pos d)
unfolding first_where
stored_bytes name id d [] rows there = absurd (cc (there))
stored_bytes name id d (u ∷ us) rows there = elim (Bool-cases (str_eq u.id id)) [
  | inl it ↦ (u, rw (it) refl, rows.0.bytes it)
  | inr other ↦
      let (v, found, is) = stored_bytes name id d us rows.1 (ground (arith, there, other)) in
      (v, rw (other) found, is)
]

-- However accounting, logins, refreshes from older reads, other requests and the goroutines that
-- handlers started are interleaved, the octets of a voucher in memory are the sum of those in the
-- database, those that goroutines still have to add, and those of the goroutines whose statement
-- failed: none is counted twice, and no refresh brings back an older usage. The steps leave out a
-- change and a deletion of that user by a request; the totals and the usage at an accounting request
-- fit an int64, other goroutines that start add nothing to the row, and the sum is right at the start.
-- The identifier is not empty and in the form in which the server keeps it.
pub usage-Conserved :
    (pg : Postgres) (name id : Str) (lost : ℕ) (s t : System)
    → pg.uuid id ≡ some id
    → is_empty id ≡ false
    → Conserved pg name id 0 s
    → Reach pg name id s lost t
    → (m d : ℕ) × (bytes_in_memory name t.service ≡ some (pos m))
      × (bytes_in_database id t.database ≡ some (pos d))
      × (d + owed pg id t.pending + lost ≡ m)
usage-Conserved pg name id lost s t canonical given c r =
    let k = Reach-Conserved pg name id canonical given r c in
    let (u, known, mem) = k.known in
    let (v, found, is) =
      stored_bytes name id k.in_database t.database.users k.row.rows k.row.there in
    (
      k.in_memory,
      k.in_database,
      rw (known, bytes_in_memory) (ap some mem.bytes),
      rw (found, bytes_in_database) (ap some is),
      k.balance,
    )

-- Once every goroutine has run and none failed, the database has the usage that is in memory.
pub usage_settles :
    (pg : Postgres) (name id : Str) (s t : System)
    → pg.uuid id ≡ some id
    → is_empty id ≡ false
    → Conserved pg name id 0 s
    → Reach pg name id s 0 t
    → t.pending ≡ []
    → bytes_in_database id t.database ≡ bytes_in_memory name t.service
usage_settles pg name id s t canonical given c r settled =
    let (m, d, known, found, sum) = usage-Conserved pg name id 0 s t canonical given c r in
    let same : d ≡ m = omega (arith, sum, ap (owed pg id) settled) in
    found ∙ ap (λ (n : ℕ). some (pos n)) same ∙ sym known
