-- ===== src/Vouchers/Fresh.antt =====
-- What GenerateVouchers makes, and its first login.
use radius_go.Base.{ℕ, ◌≡◌, refl, ◌∙◌, ap, true, false, some, [], ◌∷◌, arith}
use radius_go.Base.Int.{ℤ, pos, pos_part}
use radius_go.Base.Text.{Str}
use radius_go.Base.Dict.{lookup}
use radius_go.Domain.User.{RadiusUser, subscriber_from_user}
use radius_go.Domain.Voucher.{VoucherPackage, GenerateVoucherRequest}
use radius_go.Packet.{AttributeLaws}
use radius_go.Service.{Service}
use radius_go.Auth.Reply.{Env}
use radius_go.Auth.Decision.{
  AuthRequest, AuthClock, Interleaving, password_matches, voucher_refused, handle_auth,
}
use radius_go.Auth.Admission.{is_accept, voucher_refused-IsGood, encodes, handle_auth_accepts_iff}
use radius_go.Vouchers.{Draw, code_of, password_of, new_voucher, GeneratedVoucher}

-- A voucher made with a package: an unused row, under the hash of the password that is shown.
pub record IsFresh (pkg : VoucherPackage) (draws : ℕ → Draw) (v : GeneratedVoucher) : Type 0 where
  pub index : ℕ
  pub code : Str
  pub digest : Str
  pub user_made : v.user ≡ new_voucher pkg (draws index).new_id code digest
  pub hashed : (draws index).hash v.password ≡ some digest
  pub shown : v.subscriber ≡ subscriber_from_user v.user

module _ (pkg : VoucherPackage) (req : GenerateVoucherRequest) (code_length : ℤ)
    (draws : ℕ → Draw) where
  abbrev made : ℕ → Str → GeneratedVoucher
  made index digest =
      let code = code_of req code_length index (draws index) in
      record {
        user = new_voucher pkg (draws index).new_id code digest;
        subscriber = subscriber_from_user (new_voucher pkg (draws index).new_id code digest);
        password = password_of req code (draws index);
      }

new_voucher_good :
    (pkg : VoucherPackage) (id code digest : Str) (now : ℤ)
    → voucher_refused (new_voucher pkg id code digest) now ≡ false
unfolding voucher_refused new_voucher
new_voucher_good pkg id code digest now = ground arith

new_voucher_enabled :
    (pkg : VoucherPackage) (id code digest : Str) → (new_voucher pkg id code digest).enabled ≡ true
unfolding new_voucher
new_voucher_enabled pkg id code digest = refl

new_voucher_unlimited :
    (pkg : VoucherPackage) (id code digest : Str)
    → pkg.max_concurrent_users ≡ pos 0
    → pos_part (new_voucher pkg id code digest).simultaneous_use ≡ 0
unfolding new_voucher
new_voucher_unlimited pkg id code digest many = ground (arith, many)

-- A generated voucher works: once it is in memory as it was made, its first request with the
-- password that was shown is accepted at any time, if bcrypt accepts what it hashed, password and
-- hash are not empty, the package sets no limit on concurrent use, and the reply can be encoded.
pub generated_is_accepted :
    (env : Env) (laws : AttributeLaws env.lib) (inter : Interleaving) (clock : AuthClock)
    (req : AuthRequest) (s : Service) (pkg : VoucherPackage) (draws : ℕ → Draw)
    (v : GeneratedVoucher)
    → IsFresh pkg draws v
    → lookup req.username s.subscribers ≡ some v.user
    → req.passwords ≡ some (v.password ∷ [])
    → password_matches env v.user.password_hash v.password ≡ true
    → pkg.max_concurrent_users ≡ pos 0
    → encodes env laws inter clock req v.user ≡ true
    → is_accept (handle_auth env inter clock req s) ≡ true
generated_is_accepted env laws inter clock req s pkg draws v fresh known given fits many fine =
    let id = (draws fresh.index).new_id in
    let unlimited : pos_part v.user.simultaneous_use ≡ 0 =
      ap (λ (u : RadiusUser). pos_part u.simultaneous_use) fresh.user_made
      ∙ new_voucher_unlimited pkg id fresh.code fresh.digest many in
    (handle_auth_accepts_iff env laws inter clock req v.user v.password [] s given known).1
      (record {
        enabled =
            ap (λ (u : RadiusUser). u.enabled) fresh.user_made
            ∙ new_voucher_enabled pkg id fresh.code fresh.digest;
        password_ok = fits;
        good = λ voucher. voucher_refused-IsGood v.user clock.check (
            ap (λ (u : RadiusUser). voucher_refused u clock.check) fresh.user_made
            ∙ new_voucher_good pkg id fresh.code fresh.digest clock.check);
        room = λ limited. absurd (omega (arith, limited, unlimited));
        encodable = fine;
      })
