-- ===== src/Service/Cleanup.antt =====
-- What a pass of cleanupStaleSessions does to the table, and what its counters count.
use radius_go.Base.{◌+◌, ◌≡◌, refl, ap, false, [], ◌∷◌, if◌then◌else◌, length, arith}
use mathlib.Core.Option
use radius_go.Base.Int.{ℤ}
use radius_go.Base.Text.{Str, str_eq}
use radius_go.Base.Dict.{Dict}
use radius_go.Domain.Session.{RadiusSession, session_state_active, session_state_stale}
use radius_go.Service.{Service}
use radius_go.Service.Table.{
  is_stale, made_stale, Cleaned, clean, cutoff_of, cleanup_stale_sessions, count_active,
}

stale_is_not_active : str_eq session_state_stale session_state_active ≡ false
unfolding str_eq
stale_is_not_active = refl

-- A session after a pass.
abbrev pub passed : ℤ → ℤ → RadiusSession → RadiusSession
passed cutoff now sess = if is_stale cutoff sess then made_stale now sess else sess

module _ (cutoff : ℤ) (clock : Str → ℤ) where
  clean-counts :
      (m : Dict RadiusSession)
      → ((clean cutoff clock m).stale_sessions_cleaned + (clean cutoff clock m).active_sessions_kept
          ≡ length m)
        × (count_active (clean cutoff clock m).sessions
              + (clean cutoff clock m).stale_sessions_cleaned
            ≡ count_active m)
        × (length (clean cutoff clock m).tasks ≡ (clean cutoff clock m).stale_sessions_cleaned)
  unfolding clean count_active
  clean-counts [] = (omega arith, omega arith, omega arith)
  clean-counts ((j, sess) ∷ m) = ground (arith, clean-counts m, stale_is_not_active)

  clean_twice :
      (clock' : Str → ℤ) (m : Dict RadiusSession)
      → clean cutoff clock' (clean cutoff clock m).sessions ≡ record {
        sessions = (clean cutoff clock m).sessions;
        stale_sessions_cleaned = 0;
        active_sessions_kept = length m;
        tasks = [];
      }
  unfolding clean
  clean_twice clock' [] = refl
  clean_twice clock' ((j, sess) ∷ m) = ground (arith, clean_twice clock' m, stale_is_not_active)

-- The counters of a pass: both together count every session in the table, the first is the number
-- by which the active sessions go down and the number of sessions that are stored.
pub cleanup_stale_sessions-counts :
    (now : ℤ) (clock : Str → ℤ) (s : Service)
    → let (q, done) = cleanup_stale_sessions now clock s in
      (done.stale_sessions_cleaned + done.active_sessions_kept ≡ length s.sessions)
      × (count_active q.sessions + done.stale_sessions_cleaned ≡ count_active s.sessions)
      × (length done.tasks ≡ done.stale_sessions_cleaned)
unfolding cleanup_stale_sessions
cleanup_stale_sessions-counts now clock s = clean-counts (cutoff_of s now) clock s.sessions

-- A second pass with the same cutoff finds nothing stale, and counts as active sessions kept every
-- session that is in the table, those that the first pass made stale included.
pub cleanup_stale_sessions_twice :
    (now : ℤ) (clock clock' : Str → ℤ) (s : Service)
    → let (q, done) = cleanup_stale_sessions now clock s in
      cleanup_stale_sessions now clock' q ≡ (
        q,
        record {
          sessions = q.sessions;
          stale_sessions_cleaned = 0;
          active_sessions_kept = length s.sessions;
          tasks = [];
        },
      )
unfolding cleanup_stale_sessions cutoff_of
cleanup_stale_sessions_twice now clock clock' s =
    let one = clean (cutoff_of s now) clock s.sessions in
    ap (λ (c : Cleaned). (record s { sessions = c.sessions }, c))
      (clean_twice (cutoff_of s now) clock clock' s.sessions)
