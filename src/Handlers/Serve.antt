-- ===== src/Handlers/Serve.antt =====
-- internal/radius/http_router.go: the handlers behind the routes that use the database.
use radius_go.Base.{ℕ, Option}
use radius_go.Base.Text.{Str}
use radius_go.Domain.Pppoe.{CreatePppoeProfileRequest, UpdatePppoeProfileRequest}
use radius_go.Domain.User.{CreateNasRequest, UpdateNasRequest, CreateUserRequest, UpdateUserRequest}
use radius_go.Domain.Voucher.{
  CreateVoucherPackageRequest, UpdateVoucherPackageRequest, GenerateVoucherRequest,
}
use radius_go.Repository.{Database}
use radius_go.Handlers.{Libraries, Link, Handled}
use radius_go.Handlers.Nases.{handle_create_nas, handle_update_nas, handle_delete_nas}
use radius_go.Handlers.Packages.{
  Numbers, handle_create_voucher_package, handle_update_voucher_package,
  handle_delete_voucher_package, handle_list_voucher_packages, handle_generate_vouchers,
  handle_list_vouchers, handle_voucher_balance,
}
use radius_go.Handlers.Profiles.{
  handle_list_pppoe_profiles, handle_create_pppoe_profile, handle_get_pppoe_profile,
  handle_update_pppoe_profile, handle_delete_pppoe_profile,
}
use radius_go.Handlers.Subscribers.{
  handle_create_subscriber, handle_update_subscriber, handle_delete_subscriber,
}

-- A request by its route, with the parameter of the path, the body, and the identifiers that the
-- handler draws.
pub data Call : Type 0 where
  create_nas : (new_id : Str) → Option CreateNasRequest → Call
  update_nas : (id : Str) → Option UpdateNasRequest → Call
  delete_nas : (id : Str) → Call
  create_subscriber : (new_id : Str) → Option CreateUserRequest → Call
  update_subscriber : (id : Str) → Option UpdateUserRequest → Call
  delete_subscriber : (id : Str) → Call
  list_voucher_packages : Call
  create_voucher_package : (new_id : Str) → Option CreateVoucherPackageRequest → Call
  update_voucher_package : (id : Str) → Option UpdateVoucherPackageRequest → Call
  delete_voucher_package : (id : Str) → Call
  list_pppoe_profiles : Call
  create_pppoe_profile : (new_id : Str) → Option CreatePppoeProfileRequest → Call
  get_pppoe_profile : (id : Str) → Call
  update_pppoe_profile : (id : Str) → Option UpdatePppoeProfileRequest → Call
  delete_pppoe_profile : (id : Str) → Call
  list_vouchers : Call
  generate_vouchers : (ℕ → Numbers) → Option GenerateVoucherRequest → Call
  voucher_balance : (code : Str) → Call

unfoldable pub serve : Libraries → Link → Call → Database → Handled
unfolding handle_create_nas handle_update_nas handle_delete_nas handle_create_subscriber
    handle_update_subscriber handle_delete_subscriber handle_create_voucher_package
    handle_update_voucher_package handle_delete_voucher_package handle_list_voucher_packages
    handle_generate_vouchers handle_list_vouchers handle_voucher_balance handle_list_pppoe_profiles
    handle_create_pppoe_profile handle_get_pppoe_profile handle_update_pppoe_profile
    handle_delete_pppoe_profile
serve lib link (create_nas id body) = handle_create_nas lib link id body
serve lib link (update_nas id body) = handle_update_nas lib link id body
serve lib link (delete_nas id) = handle_delete_nas lib link id
serve lib link (create_subscriber id body) = handle_create_subscriber lib link id body
serve lib link (update_subscriber id body) = handle_update_subscriber lib link id body
serve lib link (delete_subscriber id) = handle_delete_subscriber lib link id
serve lib link list_voucher_packages = handle_list_voucher_packages lib link
serve lib link (create_voucher_package id body) = handle_create_voucher_package lib link id body
serve lib link (update_voucher_package id body) = handle_update_voucher_package lib link id body
serve lib link (delete_voucher_package id) = handle_delete_voucher_package lib link id
serve lib link list_pppoe_profiles = handle_list_pppoe_profiles lib link
serve lib link (create_pppoe_profile id body) = handle_create_pppoe_profile lib link id body
serve lib link (get_pppoe_profile id) = handle_get_pppoe_profile lib link id
serve lib link (update_pppoe_profile id body) = handle_update_pppoe_profile lib link id body
serve lib link (delete_pppoe_profile id) = handle_delete_pppoe_profile lib link id
serve lib link list_vouchers = handle_list_vouchers lib link
serve lib link (generate_vouchers numbers body) = handle_generate_vouchers lib link numbers body
serve lib link (voucher_balance code) = handle_voucher_balance lib link code
