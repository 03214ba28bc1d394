-- ===== src/Accounting/Metering.antt =====
-- A series of accounting requests of one session.
use radius_go.Base.{
  ℕ, ◌+◌, ◌-◌, ◌^◌, ◌≤◌, ◌<◌, ◌≡◌, sym, ◌∙◌, ap, subst, Bool, true, false, some, List, [], ◌∷◌,
  arith, Bool-cases, inl, inr,
}
use radius_go.Base.Int.{ℤ, pos, pos_part, ◌+ℤ◌, add64, wrap64-IsInt64}
use radius_go.Base.Text.{Str}
use radius_go.Base.Dict.{lookup, lookup-insert_self, IsMap, insert-IsMap}
use radius_go.Domain.User.{RadiusUser}
use radius_go.Domain.Session.{RadiusSession}
use radius_go.Service.{Service, Task}
use radius_go.Accounting.{
  AcctRequest, AcctClock, AcctInterleaving, total_octets, find_session, delta, updated_session,
  delta_sec, delta_oct, charged, apply_acct_update, disconnect_and_disable_voucher,
  handle_acct_update,
}
use radius_go.Accounting.Totals.{delta_grown, add64_pos}
use radius_go.Accounting.Usage.{apply_acct_update-voucher, find_session-insert}
use radius_go.Auth.Decision.{disable_in_memory}

-- The octets of both directions that a request reports.
abbrev pub reported : AcctRequest → ℤ
reported r =
    add64 (total_octets r.input_octets r.input_gigawords)
      (total_octets r.output_octets r.output_gigawords)

-- A voucher in memory that used some octets, and a session of his that stands at some total.
pub record Metered (name session_id : Str) (s : Service) (total used : ℕ) : Type 0 where
  pub keys : IsMap s.sessions
  pub id : Str
  pub sess : RadiusSession
  pub user : RadiusUser
  pub running : find_session name session_id s.sessions ≡ some (id, sess)
  pub known : lookup name s.subscribers ≡ some user
  pub voucher : user.is_voucher ≡ true
  pub at_total : add64 sess.input_octets sess.output_octets ≡ pos total
  pub used_so_far : user.data_bytes_used ≡ pos used

-- Other goroutines leave the two tables alone.
pub record Idle (inter : AcctInterleaving) : Type 0 where
  pub sessions_lookup : (q : Service) → (inter.before_lookup q).sessions ≡ q.sessions
  pub subscribers_lookup : (q : Service) → (inter.before_lookup q).subscribers ≡ q.subscribers
  pub sessions_disable : (q : Service) → (inter.before_disable q).sessions ≡ q.sessions
  pub subscribers_disable : (q : Service) → (inter.before_disable q).subscribers ≡ q.subscribers

pub add64-bound : (a b : ℤ) → pos_part (add64 a b) < 2 ^ 63
unfolding add64
add64-bound a b = (wrap64-IsInt64 (a +ℤ b)).0

delta_oct-reported :
    (r : AcctRequest) (sess : RadiusSession) (total next : ℕ)
    → add64 sess.input_octets sess.output_octets ≡ pos total
    → reported r ≡ pos next
    → total ≤ next
    → delta_oct r sess ≡ pos (next - total)
delta_oct-reported r sess total next e k le =
    let bound : next < 2 ^ 63 = subst (λ (z : ℤ). pos_part z < 2 ^ 63) k (add64-bound _ _) in
    ap (delta (reported r)) e
    ∙ ap (λ (z : ℤ). delta z (pos total)) k
    ∙ delta_grown next total le bound

apply-Metered :
    (r : AcctRequest) (clock : AcctClock) (stop : Bool) (s : Service) (total next used : ℕ)
    → Metered r.username r.session_id s total used
    → reported r ≡ pos next
    → total ≤ next
    → used + (next - total) < 2 ^ 63
    → Metered r.username r.session_id
        (apply_acct_update r clock stop s).0
        next
        (used + (next - total))
apply-Metered r clock stop s total next used m k le fits =
    let closed = updated_session r clock stop m.sess in
    let oct = delta_oct r m.sess in
    let grown = charged (delta_sec r m.sess) oct m.user in
    let same =
      apply_acct_update-voucher r clock stop s m.id m.sess m.user m.running m.known m.voucher in
    subst (λ (q : Service). Metered r.username r.session_id q next (used + (next - total)))
      (sym (ap (λ (p : Service × Bool × List Task). p.0) same))
      (record {
        keys = insert-IsMap m.id closed s.sessions m.keys;
        id = m.id;
        sess = closed;
        user = grown;
        running =
            find_session-insert r.username r.session_id s.sessions m.id m.sess closed m.keys
              m.running (ground arith) (ground arith);
        known = lookup-insert_self r.username grown s.subscribers;
        voucher = m.voucher;
        at_total = ground (arith, k);
        used_so_far =
            ap (add64 m.user.data_bytes_used)
              (delta_oct-reported r m.sess total next m.at_total k le)
            ∙ ap (λ (z : ℤ). add64 z (pos (next - total))) m.used_so_far
            ∙ add64_pos used (next - total) fits;
      })

-- Metering looks at the two tables, and not at whether the user is enabled.
disable-Metered :
    (name session_id : Str) (s : Service) (total used : ℕ)
    → Metered name session_id s total used
    → Metered name session_id (disable_in_memory name s) total used
unfolding disable_in_memory
disable-Metered name session_id s total used m =
    let off : RadiusUser = record m.user { enabled = false } in
    rw (m.known, disable_in_memory)
      (record {
        keys = m.keys;
        id = m.id;
        sess = m.sess;
        user = off;
        running = m.running;
        known = lookup-insert_self name off s.subscribers;
        voucher = m.voucher;
        at_total = m.at_total;
        used_so_far = m.used_so_far;
      })

tables-Metered :
    (name session_id : Str) (s q : Service) (total used : ℕ)
    → q.sessions ≡ s.sessions
    → q.subscribers ≡ s.subscribers
    → Metered name session_id s total used
    → Metered name session_id q total used
tables-Metered name session_id s q total used e k m = record {
  keys = subst IsMap (sym e) m.keys;
  id = m.id;
  sess = m.sess;
  user = m.user;
  running = ap (find_session name session_id) e ∙ m.running;
  known = ap (lookup name) k ∙ m.known;
  voucher = m.voucher;
  at_total = m.at_total;
  used_so_far = m.used_so_far;
}

-- Requests of one session whose totals do not go back, from a total to the last one.
abbrev pub Growing : Str → Str → ℕ → List (AcctRequest × AcctClock × Bool) → ℕ → Type 0
Growing name session_id total [] last = total ≡ last
Growing name session_id total ((r, clock, stop) ∷ rs) last =
    (r.username ≡ name)
    × (r.session_id ≡ session_id)
    × ((next : ℕ) × (reported r ≡ pos next) × (total ≤ next) × Growing name session_id next rs last)

module _ (inter : AcctInterleaving) where
  -- The service after a series of updates and stops.
  abbrev pub run_updates : List (AcctRequest × AcctClock × Bool) → Service → Service
  run_updates [] s = s
  run_updates ((r, clock, stop) ∷ rs) s = run_updates rs (handle_acct_update inter r clock stop s).0

module _ (inter : AcctInterleaving) (idle : Idle inter) where
  update-Metered :
      (r : AcctRequest) (clock : AcctClock) (stop : Bool) (s : Service) (total next used : ℕ)
      → Metered r.username r.session_id s total used
      → reported r ≡ pos next
      → total ≤ next
      → used + (next - total) < 2 ^ 63
      → Metered r.username r.session_id
          (handle_acct_update inter r clock stop s).0
          next
          (used + (next - total))
  unfolding handle_acct_update disconnect_and_disable_voucher
  update-Metered r clock stop s total next used m k le fits =
      let one = apply-Metered r clock stop s total next used m k le fits in
      let q = (apply_acct_update r clock stop s).0 in
      let q1 = inter.before_lookup q in
      let q2 = inter.before_disable q1 in
      let one1 =
        tables-Metered r.username r.session_id q q1 next (used + (next - total))
          (idle.sessions_lookup q) (idle.subscribers_lookup q) one in
      let one2 =
        tables-Metered r.username r.session_id q1 q2 next (used + (next - total))
          (idle.sessions_disable q1) (idle.subscribers_disable q1) one1 in
      let off = disable-Metered r.username r.session_id q2 next (used + (next - total)) one2 in
      elim (Bool-cases (apply_acct_update r clock stop s).1) [
        | inr none_hit ↦ rw (none_hit, handle_acct_update) one
        | inl hit ↦ rw (hit, one1.known, handle_acct_update, disconnect_and_disable_voucher) off
      ]

  Growing-le :
      (name session_id : Str) (total last : ℕ) (rs : List (AcctRequest × AcctClock × Bool))
      → Growing name session_id total rs last
      → total ≤ last
  Growing-le name session_id total last [] h = omega (arith, h)
  Growing-le name session_id total last ((r, clock, stop) ∷ rs) (same, here, (next, k, le, more)) =
      omega (arith, le, Growing-le name session_id next last rs more)

  -- The series charges the voucher, as it is in memory, exactly the growth from the stored total to
  -- the last reported one, however many updates report it and whether or not a limit is reached on
  -- the way: nothing is charged twice and nothing is lost, as long as the usage fits an int64
  -- and other goroutines leave the tables alone.
  pub run_updates-Metered :
      (name session_id : Str) (total last used : ℕ) (rs : List (AcctRequest × AcctClock × Bool))
      (s : Service)
      → Metered name session_id s total used
      → Growing name session_id total rs last
      → used + (last - total) < 2 ^ 63
      → Metered name session_id (run_updates inter rs s) last (used + (last - total))
  run_updates-Metered name session_id total last used [] s m h fits =
      let still : used ≡ used + (total - total) = omega arith in
      subst (λ (n : ℕ). Metered name session_id s n (used + (n - total))) h
        (subst (Metered name session_id s total) still m)
  run_updates-Metered name session_id total last used ((r, clock, stop) ∷ rs) s m
        (same, here, (next, k, le, more)) fits =
      let q = (handle_acct_update inter r clock stop s).0 in
      let up = Growing-le name session_id next last rs more in
      let one : Metered name session_id q next (used + (next - total)) =
        subst (λ (sid : Str). Metered name sid q next (used + (next - total))) here
          (subst (λ (n : Str). Metered n r.session_id q next (used + (next - total))) same
            (update-Metered r clock stop s total next used
              (subst (λ (sid : Str). Metered r.username sid s total used) (sym here)
                (subst (λ (n : Str). Metered n session_id s total used) (sym same) m))
              k le (omega (arith, up)))) in
      let sum : used + (next - total) + (last - next) ≡ used + (last - total) =
        omega (arith, up, le) in
      subst (Metered name session_id (run_updates inter rs q) last) sum (
        run_updates-Metered name session_id next last (used + (next - total)) rs q one more
          (omega (arith, up, le)))
