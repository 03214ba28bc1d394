-- ===== src/System/Conserved/Steps.antt =====
-- Every step keeps the balance of a voucher's usage.
use radius_go.Base.{
  ℕ, ◌+◌, ◌^◌, ◌<◌, ◌≡◌, refl, sym, ◌∙◌, ap, subst, Bool, false, some, List, ◌∷◌, ◌++◌, arith, All,
}
use radius_go.Base.Int.{ℤ, pos, pos_part, add64}
use radius_go.Base.Text.{Str, is_empty, str_eq_refl}
use radius_go.Base.Dict.{lookup, insert, lookup-insert_self}
use radius_go.Domain.User.{RadiusUser}
use radius_go.Accounting.{
  AcctRequest, AcctClock, delta, delta_sec, delta_oct, charged, updated_session, apply_acct_update,
}
use radius_go.Accounting.Metering.{reported, add64-bound}
use radius_go.Accounting.Totals.{add64_pos}
use radius_go.Accounting.Usage.{apply_acct_update-voucher, usage_tasks}
use radius_go.Auth.Decision.{disable_in_memory, store_first_login}
use radius_go.Repository.{Postgres}
use radius_go.Service.{Service, Task, upsert_session}
use radius_go.System.{
  System, Step, Reach, Fits, growth, owed, account, account_none, account_other, log_in, lock,
  others, start, read, store, run, fail, execute, here, next,
}
use radius_go.Repository.Table.Every.{All-append}
use radius_go.System.Foreign.Statements.{statement-HasRow}
use radius_go.System.Loaded.{Known}
use radius_go.System.Growth.{
  delta-pos, owed-append, disable_in_memory-Known, store_first_login-Known, apply_acct_update-other,
  apply_acct_update-none,
}
use radius_go.System.Conserved.{
  Conserved, Signed, IsRead-older, service-Conserved, start-Conserved, statement-Conserved,
  read-Conserved, store-Conserved, run-Conserved, fail-Conserved,
}

module _ (pg : Postgres) (name id : Str) (canonical : pg.uuid id ≡ some id)
    (given : is_empty id ≡ false) where
  -- The goroutines of a request carry its growth.
  usage_tasks-Signed :
      (u : RadiusUser) (secs octets : ℤ) (d : ℕ)
      → u.id ≡ id
      → octets ≡ pos d
      → All (Signed pg id) (usage_tasks u secs octets)
        × (owed pg id (usage_tasks u secs octets) ≡ d)
  usage_tasks-Signed u secs octets d is e = ground (arith, is, e, canonical, given, str_eq_refl id)

  same_lost :
      {s : System} (lost : ℕ) → Conserved pg name id lost s → Conserved pg name id (lost + 0) s
  same_lost {s} lost c =
      let same : lost ≡ lost + 0 = omega arith in subst (λ (n : ℕ). Conserved pg name id n s) same c

  account-Conserved :
      (lost : ℕ) (s : System) (r : AcctRequest) (clock : AcctClock) (stop : Bool) (u : RadiusUser)
      → r.username ≡ name
      → Fits pg id r s.service u
      → Conserved pg name id lost s
      → Conserved pg name id (lost + 0) (record s {
        service = (apply_acct_update r clock stop s.service).0;
        pending = s.pending ++ (apply_acct_update r clock stop s.service).2;
      })
  account-Conserved lost s r clock stop u is fits c =
      let (v, found, mem) = c.known in
      let same : v ≡ u = cc (found, fits.known, is) in
      let (d, grows, part) =
        delta-pos fits.total fits.before (omega (arith, fits.in_usage))
          (subst (λ (z : ℤ). pos_part z < 2 ^ 63) fits.at_total (add64-bound _ _)) in
      let oct : delta_oct r fits.sess ≡ pos d =
        ap (delta (reported r)) fits.at_total
        ∙ ap (λ (z : ℤ). delta z (pos fits.before)) fits.in_total
        ∙ grows in
      let at =
        apply_acct_update-voucher r clock stop s.service fits.session_id fits.sess u fits.running
          fits.known (ground (arith, same, mem.voucher)) in
      let is_row : u.id ≡ id = subst (λ (x : RadiusUser). x.id ≡ id) same mem.is_row in
      let secs = delta_sec r fits.sess in
      let grown = charged secs (delta_oct r fits.sess) u in
      let q : Service = record s.service {
        sessions =
            insert fits.session_id (updated_session r clock stop fits.sess) s.service.sessions;
        subscribers = insert r.username grown s.service.subscribers;
      } in
      let ts =
        upsert_session (updated_session r clock stop fits.sess)
        ∷ usage_tasks u secs (delta_oct r fits.sess) in
      let after : Service × List Task = (
        (apply_acct_update r clock stop s.service).0,
        (apply_acct_update r clock stop s.service).2,
      ) in
      let is_after : (q, ts) ≡ after =
        sym (ap (λ (o : Service × Bool × List Task). (o.0, o.2)) at) in
      let used : u.data_bytes_used ≡ pos c.in_memory = ground (arith, same, mem.bytes) in
      let (signs, owes) = usage_tasks-Signed u secs (delta_oct r fits.sess) d is_row oct in
      subst
        (λ (o : Service × List Task).
          Conserved pg name id (lost + 0) (record s { service = o.0; pending = s.pending ++ o.1 }))
        is_after
        (record {
          in_memory = c.in_memory + d;
          in_database = c.in_database;
          known = (
            grown,
            subst (λ (n : Str). lookup n q.subscribers ≡ some grown) is
                (lookup-insert_self r.username grown s.service.subscribers),
            record {
              is_row = is_row;
              voucher = ground (arith, same, mem.voucher);
              bytes =
                  ap (add64 u.data_bytes_used) oct
                  ∙ ap (λ (z : ℤ). add64 z (pos d)) used
                  ∙ add64_pos c.in_memory d (omega (arith, fits.in_usage, part, ap pos_part used));
            },
          );
          row = c.row;
          signed = All-append (Signed pg id) s.pending ts c.signed (refl, signs);
          balance = omega (arith, owed-append pg id s.pending ts, owes, c.balance);
          reads =
              IsRead-older name id c.in_memory (c.in_memory + d) s.snapshots (omega arith) c.reads;
        })

  -- One step.
  Step-Conserved :
      {lost more : ℕ} {s t : System}
      → Step pg name id s more t
      → Conserved pg name id lost s
      → Conserved pg name id (lost + more) t
  Step-Conserved {lost} {more} {s} (account r clock stop u is fits) c =
      account-Conserved lost s r clock stop u is fits c
  Step-Conserved {lost} {more} {s} (account_none r clock stop gone) c = same_lost lost (
      let at = apply_acct_update-none r clock stop s.service gone in
      start-Conserved pg name id canonical given lost s c
        (apply_acct_update r clock stop s.service).0 (apply_acct_update r clock stop s.service).2
        (subst (λ (o : Service × Bool × List Task). Known name id c.in_memory o.0.subscribers)
          (sym at) c.known)
        (subst (λ (o : Service × Bool × List Task). All (λ t. growth pg id t ≡ pos 0) o.2) (sym at)
          tt))
  Step-Conserved {lost} {more} {s} (account_other r clock stop other foreign) c = same_lost lost (
      start-Conserved pg name id canonical given lost s c
        (apply_acct_update r clock stop s.service).0 (apply_acct_update r clock stop s.service).2
        (let (v, found, mem) = c.known in
          (v, apply_acct_update-other r clock stop s.service name other ∙ found, mem))
        foreign)
  Step-Conserved {lost} {more} {s} (log_in username user now) c = same_lost lost (
      service-Conserved pg name id canonical given lost s c
        (store_first_login username user now s.service)
        (store_first_login-Known name id c.in_memory username user now s.service c.known))
  Step-Conserved {lost} {more} {s} (lock username) c = same_lost lost (
      service-Conserved pg name id canonical given lost s c (disable_in_memory username s.service)
        (disable_in_memory-Known name id c.in_memory username s.service c.known))
  Step-Conserved {lost} {more} {s} (others q e) c = same_lost lost (
      service-Conserved pg name id canonical given lost s c q
        (subst (Known name id c.in_memory) (sym e) c.known))
  Step-Conserved {lost} {more} {s} (start ts foreign) c =
      same_lost lost
        (start-Conserved pg name id canonical given lost s c s.service ts c.known foreign)
  Step-Conserved {lost} {more} {s} (read q e) c =
      same_lost lost (read-Conserved pg name id canonical given lost s c q e)
  Step-Conserved {lost} {more} {s} (store older newer q e) c =
      same_lost lost (store-Conserved pg name id canonical given lost s c older newer q e)
  Step-Conserved {lost} {more} {s} (run before after t now db e ran) c =
      run-Conserved pg name id canonical given lost s c before after t now db e ran
  Step-Conserved {lost} {more} {s} (fail before after t e) c =
      fail-Conserved pg name id canonical given lost s c before after t e
  Step-Conserved {lost} {more} {s} (execute cmd now db foreign done) c = same_lost lost (
      statement-Conserved pg name id canonical given lost s c db
        (statement-HasRow pg now name id c.in_database s.database db c.row cmd foreign done))

  pub Reach-Conserved :
      {s : System} {lost : ℕ} {t : System}
      → Reach pg name id s lost t
      → Conserved pg name id 0 s
      → Conserved pg name id lost t
  Reach-Conserved here c = c
  Reach-Conserved (next r st) c = Step-Conserved st (Reach-Conserved r c)
