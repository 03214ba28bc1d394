-- ===== src/Accounting/Limits.antt =====
-- What accounting does when a voucher reaches a limit, and what it means for the next login.
use radius_go.Base.{
  ◌≡◌, refl, ◌∙◌, ap, Bool, true, false, some, List, [], ◌∷◌, ◌++◌, if◌then◌else◌, Bool-cases, inl,
  inr,
}
use radius_go.Base.Text.{Str}
use radius_go.Base.Dict.{lookup, insert, lookup-insert_self}
use radius_go.Domain.User.{RadiusUser}
use radius_go.Domain.Session.{RadiusSession}
use radius_go.Packet.{AttributeLaws}
use radius_go.Service.{Service, Task, upsert_session, disconnect_and_disable}
use radius_go.Auth.Reply.{Env}
use radius_go.Auth.Decision.{AuthRequest, AuthClock, Interleaving, disable_in_memory, handle_auth}
use radius_go.Auth.Admission.{is_accept}
use radius_go.Auth.Vouchers.{disabled, lookup-disable_in_memory}
use radius_go.Auth.Lifetime.{disabled_is_rejected}
use radius_go.Accounting.{
  AcctRequest, AcctClock, AcctInterleaving, find_session, updated_session, delta_sec, delta_oct,
  charged, limit_reached, disconnect_and_disable_voucher, handle_acct_update,
}
use radius_go.Accounting.Usage.{apply_acct_update-voucher, usage_tasks}
use radius_go.Accounting.Metering.{Idle}

module _ (r : AcctRequest) (sess : RadiusSession) (u : RadiusUser) where
  abbrev pub grown_user : RadiusUser
  grown_user = charged (delta_sec r sess) (delta_oct r sess) u

module _ (r : AcctRequest) (clock : AcctClock) (stop : Bool) (sess : RadiusSession)
    (u : RadiusUser) where
  abbrev pub stored_service : Str → Service → Service
  stored_service id s = record s {
    sessions = insert id (updated_session r clock stop sess) s.sessions;
    subscribers = insert r.username (grown_user r sess u) s.subscribers;
  }

  abbrev pub update_tasks : List Task
  update_tasks =
      upsert_session (updated_session r clock stop sess)
      ∷ usage_tasks u (delta_sec r sess) (delta_oct r sess)

module _ (inter : AcctInterleaving) (idle : Idle inter) (r : AcctRequest) (clock : AcctClock)
    (stop : Bool) (s : Service) (id : Str) (sess : RadiusSession) (u : RadiusUser)
    (found : find_session r.username r.session_id s.sessions ≡ some (id, sess))
    (known : lookup r.username s.subscribers ≡ some u) (voucher : u.is_voucher ≡ true) where
  disconnected :
      disconnect_and_disable_voucher inter r.username (stored_service r clock stop sess u id s) ≡ (
        disable_in_memory r.username
            (inter.before_disable (inter.before_lookup (stored_service r clock stop sess u id s))),
        disconnect_and_disable r.username u.id ∷ [],
      )
  unfolding disconnect_and_disable_voucher
  disconnected =
      let there : lookup r.username
            (inter.before_lookup (stored_service r clock stop sess u id s)).subscribers
          ≡ some (grown_user r sess u) =
        ap (lookup r.username) (idle.subscribers_lookup (stored_service r clock stop sess u id s))
        ∙ lookup-insert_self r.username (grown_user r sess u) s.subscribers in
      rw (there, disconnect_and_disable_voucher) refl

  pub handle_acct_update-limit :
      (lookup r.username (handle_acct_update inter r clock stop s).0.subscribers
        ≡ some (
            if limit_reached (grown_user r sess u)
            then record (grown_user r sess u) { enabled = false }
            else (grown_user r sess u)))
      × ((handle_acct_update inter r clock stop s).1 ≡ (
          if limit_reached (grown_user r sess u)
          then (update_tasks r clock stop sess u) ++ (disconnect_and_disable r.username u.id ∷ [])
          else (update_tasks r clock stop sess u)))
  unfolding handle_acct_update
  handle_acct_update-limit =
      let one = apply_acct_update-voucher r clock stop s id sess u found known voucher in
      let q =
        inter.before_disable (inter.before_lookup (stored_service r clock stop sess u id s)) in
      let kept : lookup r.username q.subscribers ≡ some (grown_user r sess u) =
        ap (lookup r.username) (
          idle.subscribers_disable (inter.before_lookup (stored_service r clock stop sess u id s))
          ∙ idle.subscribers_lookup (stored_service r clock stop sess u id s))
        ∙ lookup-insert_self r.username (grown_user r sess u) s.subscribers in
      elim (Bool-cases (limit_reached (grown_user r sess u))) [
        | inl hit ↦
            rw (one, hit, disconnected, handle_acct_update)
              (lookup-disable_in_memory r.username q ∙ ap disabled kept, refl)
        | inr below ↦
            rw (one, below, handle_acct_update)
              (lookup-insert_self r.username (grown_user r sess u) s.subscribers, refl)
      ]

  -- A voucher that accounting finds at a limit is locked out at once: the next Access-Request in
  -- its name is rejected, whatever its password, if nothing else touched the user in between and
  -- other goroutines leave the tables alone meanwhile.
  pub limit_locks_out :
      (env : Env) (laws : AttributeLaws env.lib) (later : Interleaving) (when : AuthClock)
      (req : AuthRequest)
      → limit_reached (grown_user r sess u) ≡ true
      → req.username ≡ r.username
      → is_accept (handle_auth env later when req (handle_acct_update inter r clock stop s).0)
        ≡ false
  limit_locks_out env laws later when req hit same =
      let q = (handle_acct_update inter r clock stop s).0 in
      disabled_is_rejected env laws later when req q (some (grown_user r sess u)) (
        ap (λ (name : Str). lookup name q.subscribers) same
        ∙ handle_acct_update-limit.0
        ∙ ap
            (λ (b : Bool). some (
              if b
              then record (grown_user r sess u) { enabled = false }
              else (grown_user r sess u)))
            hit)
