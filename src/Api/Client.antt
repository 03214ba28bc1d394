-- ===== src/Api/Client.antt =====
-- internal/radiusctl/client.go: the requests of the client, and what it makes of an answer. The host
-- and the transport are left out: a request arrives as it was made.
use radius_go.Base.{
  ℕ, Bool, true, false, Option, none, some, ◌++◌, if◌then◌else◌, leb, length, take,
}
use radius_go.Base.Text.{Str, codes}
use radius_go.Handlers.{Response, ok, created, fail}
use radius_go.Api.{
  Headers, Method, get, post, put, delete, Route, status, list_nas, create_nas, update_nas,
  delete_nas, list_subscribers, create_subscriber, update_subscriber, delete_subscriber,
  list_sessions, disconnect_user, coa_change, session_cleanup, session_reconcile,
  list_voucher_packages, create_voucher_package, update_voucher_package, delete_voucher_package,
  list_pppoe_profiles, create_pppoe_profile, get_pppoe_profile, update_pppoe_profile,
  delete_pppoe_profile, list_vouchers, generate_vouchers, voucher_balance,
}

-- `req.Header.Set("Authorization", "Bearer "+c.secret)`
abbrev pub client_headers : Str → Headers
client_headers secret = record {
  authorization = codes "Bearer " ++ secret;
  x_internal_secret = codes "";
}

-- The HTTP method and the path of each method of the client, by the handler that it is meant for.
-- The client has no method for one PPPoE profile.
unfoldable pub request_of : Route → Str → Option (Method × Str)
request_of status id = some (get, codes "/api/v1/radius/status")
request_of list_nas id = some (get, codes "/api/v1/radius/nases")
request_of create_nas id = some (post, codes "/api/v1/radius/nases")
request_of update_nas id = some (put, codes "/api/v1/radius/nases/" ++ id)
request_of delete_nas id = some (delete, codes "/api/v1/radius/nases/" ++ id)
request_of list_subscribers id = some (get, codes "/api/v1/radius/subscribers")
request_of create_subscriber id = some (post, codes "/api/v1/radius/subscribers")
request_of update_subscriber id = some (put, codes "/api/v1/radius/subscribers/" ++ id)
request_of delete_subscriber id = some (delete, codes "/api/v1/radius/subscribers/" ++ id)
request_of list_sessions id = some (get, codes "/api/v1/radius/sessions")
request_of disconnect_user id = some (post, codes "/api/v1/radius/sessions/disconnect")
request_of coa_change id = some (post, codes "/api/v1/radius/subscribers/coa-change")
request_of session_cleanup id = some (post, codes "/api/v1/radius/sessions/cleanup")
request_of session_reconcile id = some (post, codes "/api/v1/radius/sessions/reconcile")
request_of list_voucher_packages id = some (get, codes "/api/v1/voucher-packages")
request_of create_voucher_package id = some (post, codes "/api/v1/voucher-packages")
request_of update_voucher_package id = some (put, codes "/api/v1/voucher-packages/" ++ id)
request_of delete_voucher_package id = some (delete, codes "/api/v1/voucher-packages/" ++ id)
request_of list_pppoe_profiles id = some (get, codes "/api/v1/pppoe-profiles")
request_of create_pppoe_profile id = some (post, codes "/api/v1/pppoe-profiles")
request_of get_pppoe_profile id = none
request_of update_pppoe_profile id = some (put, codes "/api/v1/pppoe-profiles/" ++ id)
request_of delete_pppoe_profile id = some (delete, codes "/api/v1/pppoe-profiles/" ++ id)
request_of list_vouchers id = some (get, codes "/api/v1/vouchers")
request_of generate_vouchers id = some (post, codes "/api/v1/vouchers/generate")
request_of voucher_balance id = some (get, codes "/api/v1/vouchers/" ++ id ++ codes "/balance")

-- Envelope and APIError.
pub record Envelope : Type 0 where
  pub success : Bool
  pub data_json : Str
  pub err : Option (Str × Str)

-- apiError: the HTTP status, the code and the message.
pub record ApiError : Type 0 where
  pub http : ℕ
  pub code : Str
  pub message : Str

unfoldable pub truncated : Str → ℕ → Str
truncated b n = if leb (length b) n then b else take n b ++ codes "..."

-- The end of `do`: the answer with its body, which is decoded or not; `none` is no error.
unfoldable pub unwrap : ℕ → Str → Option Envelope → Option ApiError
unfolding truncated
unwrap http raw none = some (record {
  http = http;
  code = codes "";
  message = codes "non-JSON response: " ++ truncated raw 200;
})
unwrap http raw (some env) = if env.success then none else elim env.err [
  | none ↦ some (record { http = http; code = codes ""; message = codes "request failed" })
  | some (code, message) ↦ some (record { http = http; code = code; message = message })
]

-- runtime.OK, runtime.Created and runtime.Fail, with the JSON of the data.
unfoldable pub envelope_of : Response → Str → ℕ × Envelope
envelope_of (ok payload) json = (200, record { success = true; data_json = json; err = none })
envelope_of (created payload) json = (201, record { success = true; data_json = json; err = none })
envelope_of (fail http code message) json =
    (http, record { success = false; data_json = codes ""; err = some (code, message) })
