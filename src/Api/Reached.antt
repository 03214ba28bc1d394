-- ===== src/Api/Reached.antt =====
-- The client of internal/radiusctl and the routes of internal/radius/http_router.go fit together.
use radius_go.Base.{
  ℕ, ◌≡◌, refl, ap, subst, Bool, true, false, Option, none, some, [], ◌∷◌, ◌++◌, ◌==◌, ◌||◌, ◌&&◌,
  leb, arith,
}
use radius_go.Base.Text.{Str, codes, is_empty, str_eq, str_eq_iff}
use radius_go.Api.{
  cut_space, equal_fold, extract_token, Method, Route, Table, routes, split_path, match_path,
  matches, Router, Reaction, handled, dispatch,
}
use radius_go.Api.Client.{client_headers, request_of}

-- Letters, digits and the other characters that an URL takes as they are.
abbrev unreserved : ℕ → Bool
unreserved c =
    (leb b'a' c && leb c b'z')
    || (leb b'A' c && leb c b'Z')
    || (leb b'0' c && leb c b'9')
    || (c == b'-')
    || (c == b'.')
    || (c == b'_')
    || (c == b'~')

-- A text that stands for itself in the path of an URL, as one segment.
unfoldable pub is_plain : Str → Bool
is_plain [] = true
is_plain (c ∷ s) = unreserved c && is_plain s

split_path-segment : (s : Str) → is_plain s ≡ true → split_path s ≡ s ∷ []
unfolding is_plain split_path
split_path-segment [] h = refl
split_path-segment (c ∷ s) h = ground (arith, split_path-segment s)

-- The token of the client is the secret that it was given.
extract_token-client : (secret : Str) → extract_token (client_headers secret) ≡ secret
unfolding extract_token cut_space equal_fold
extract_token-client secret = refl

-- The parameter that a call leaves in its path.
abbrev pub param_of : Route → Str → Str
param_of Route.update_nas id = id
param_of Route.delete_nas id = id
param_of Route.update_subscriber id = id
param_of Route.delete_subscriber id = id
param_of Route.update_voucher_package id = id
param_of Route.delete_voucher_package id = id
param_of Route.update_pppoe_profile id = id
param_of Route.delete_pppoe_profile id = id
param_of Route.voucher_balance id = id
param_of _ id = []

split_path-balance :
    (s : Str) → is_plain s ≡ true → split_path (s ++ codes "/balance") ≡ s ∷ codes "balance" ∷ []
unfolding is_plain split_path
split_path-balance [] h = refl
split_path-balance (c ∷ s) h = ground (arith, split_path-balance s)

-- The paths with a parameter, split.
module _ (id : Str) (h : is_plain id ≡ true) where
  split_path-nases :
      split_path (codes "/api/v1/radius/nases/" ++ id)
      ≡ [] ∷ codes "api" ∷ codes "v1" ∷ codes "radius" ∷ codes "nases" ∷ id ∷ []
  unfolding split_path
  split_path-nases = rw (split_path-segment id h) refl

  split_path-subscribers :
      split_path (codes "/api/v1/radius/subscribers/" ++ id)
      ≡ [] ∷ codes "api" ∷ codes "v1" ∷ codes "radius" ∷ codes "subscribers" ∷ id ∷ []
  unfolding split_path
  split_path-subscribers = rw (split_path-segment id h) refl

  split_path-packages :
      split_path (codes "/api/v1/voucher-packages/" ++ id)
      ≡ [] ∷ codes "api" ∷ codes "v1" ∷ codes "voucher-packages" ∷ id ∷ []
  unfolding split_path
  split_path-packages = rw (split_path-segment id h) refl

  split_path-profiles :
      split_path (codes "/api/v1/pppoe-profiles/" ++ id)
      ≡ [] ∷ codes "api" ∷ codes "v1" ∷ codes "pppoe-profiles" ∷ id ∷ []
  unfolding split_path
  split_path-profiles = rw (split_path-segment id h) refl

  split_path-vouchers :
      split_path (codes "/api/v1/vouchers/" ++ id ++ codes "/balance")
      ≡ [] ∷ codes "api" ∷ codes "v1" ∷ codes "vouchers" ∷ id ∷ codes "balance" ∷ []
  unfolding split_path
  split_path-vouchers = rw (split_path-balance id h) refl

-- The route of what a call sends, if it sends anything.
abbrev Lands : Route → Str → Option (Method × Str) → Type 0
Lands r id none = Unit {0}
Lands r id (some (m, path)) = matches routes m (split_path path) ≡ (r, param_of r id) ∷ []

request_of-Lands :
    (r : Route) (id : Str) → is_plain id ≡ true → is_empty id ≡ false → Lands r id (request_of r id)
unfolding request_of matches match_path split_path str_eq
request_of-Lands Route.get_pppoe_profile id h n = tt
request_of-Lands Route.status id h n = refl
request_of-Lands Route.list_nas id h n = refl
request_of-Lands Route.create_nas id h n = refl
request_of-Lands Route.list_subscribers id h n = refl
request_of-Lands Route.create_subscriber id h n = refl
request_of-Lands Route.list_sessions id h n = refl
request_of-Lands Route.disconnect_user id h n = refl
request_of-Lands Route.coa_change id h n = refl
request_of-Lands Route.session_cleanup id h n = refl
request_of-Lands Route.session_reconcile id h n = refl
request_of-Lands Route.list_voucher_packages id h n = refl
request_of-Lands Route.create_voucher_package id h n = refl
request_of-Lands Route.list_pppoe_profiles id h n = refl
request_of-Lands Route.create_pppoe_profile id h n = refl
request_of-Lands Route.list_vouchers id h n = refl
request_of-Lands Route.generate_vouchers id h n = refl
request_of-Lands Route.update_nas [] h n = absurd (cc (n))
request_of-Lands Route.update_nas (c ∷ s) h n =
    ap (matches routes Method.put) (split_path-nases (c ∷ s) h)
request_of-Lands Route.delete_nas [] h n = absurd (cc (n))
request_of-Lands Route.delete_nas (c ∷ s) h n =
    ap (matches routes Method.delete) (split_path-nases (c ∷ s) h)
request_of-Lands Route.update_subscriber [] h n = absurd (cc (n))
request_of-Lands Route.update_subscriber (c ∷ s) h n =
    ap (matches routes Method.put) (split_path-subscribers (c ∷ s) h)
request_of-Lands Route.delete_subscriber [] h n = absurd (cc (n))
request_of-Lands Route.delete_subscriber (c ∷ s) h n =
    ap (matches routes Method.delete) (split_path-subscribers (c ∷ s) h)
request_of-Lands Route.update_voucher_package [] h n = absurd (cc (n))
request_of-Lands Route.update_voucher_package (c ∷ s) h n =
    ap (matches routes Method.put) (split_path-packages (c ∷ s) h)
request_of-Lands Route.delete_voucher_package [] h n = absurd (cc (n))
request_of-Lands Route.delete_voucher_package (c ∷ s) h n =
    ap (matches routes Method.delete) (split_path-packages (c ∷ s) h)
request_of-Lands Route.update_pppoe_profile [] h n = absurd (cc (n))
request_of-Lands Route.update_pppoe_profile (c ∷ s) h n =
    ap (matches routes Method.put) (split_path-profiles (c ∷ s) h)
request_of-Lands Route.delete_pppoe_profile [] h n = absurd (cc (n))
request_of-Lands Route.delete_pppoe_profile (c ∷ s) h n =
    ap (matches routes Method.delete) (split_path-profiles (c ∷ s) h)
request_of-Lands Route.voucher_balance [] h n = absurd (cc (n))
request_of-Lands Route.voucher_balance (c ∷ s) h n =
    ap (matches routes Method.get) (split_path-vouchers (c ∷ s) h)

-- A path that has the segments of one route of its method is found by that route. Nothing is said of
-- a path of several routes, between which echo has an order.
abbrev pub FindsOnly : Router → Type 0
FindsOnly router =
    (table : Table) (m : Method) (path : Str) (r : Route) (id : Str)
    → matches table m (split_path path) ≡ (r, id) ∷ []
    → router table m path ≡ some (r, id)

-- Every call of the client with the secret of the server reaches the handler that it is meant for,
-- with the identifier that it was given as the parameter; where the identifier is not empty and
-- made of letters, digits, dashes, dots, underscores and tildes, as a UUID is, and the router finds
-- the one route that a path has the segments of.
pub client_reaches :
    (router : Router) (secret : Str) (r : Route) (id : Str) (m : Method) (path : Str)
    → FindsOnly router
    → is_plain id ≡ true
    → is_empty id ≡ false
    → request_of r id ≡ some (m, path)
    → dispatch router secret (client_headers secret) m path ≡ handled r (param_of r id)
unfolding dispatch
client_reaches router secret r id m path law h n e =
    let lands : Lands r id (some (m, path)) = subst (Lands r id) e (request_of-Lands r id h n) in
    let found = law routes m path r (param_of r id) lands in
    let token : str_eq (extract_token (client_headers secret)) secret ≡ true =
      (str_eq_iff _ secret).1 (extract_token-client secret) in
    rw (found, token, dispatch) refl

abbrev pub is_handled : Reaction → Bool
is_handled (handled r id) = true
is_handled _ = false
