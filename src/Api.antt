-- ===== src/Api.antt =====
-- The way of a request: internal/radius/http_router.go (the routes), internal/internalsecret (the
-- token), internal/runtime/http.go (the envelope) and internal/radiusctl/client.go (the client).
pub mod Client
pub mod Json
pub mod Reached
use radius_go.Base.{
  ℕ, ◌+◌, Bool, true, false, ◌&&◌, ◌||◌, not, Option, none, some, List, [], ◌∷◌, ◌==◌, leb,
  if◌then◌else◌,
}
use radius_go.Base.Text.{Str, codes, is_empty, str_eq}

-- The two headers; a header that is missing is the empty string.
pub record Headers : Type 0 where
  pub authorization : Str
  pub x_internal_secret : Str

-- `strings.Cut(s, " ")`
unfoldable pub cut_space : Str → Option (Str × Str)
cut_space [] = none
cut_space (c ∷ s) =
    let rest = cut_space s in
    if c == b' '
    then some ([], s)
    else elim rest [ none ↦ none | some (before, after) ↦ some (c ∷ before, after) ]

abbrev pub lower : ℕ → ℕ
lower c = if leb b'A' c && leb c b'Z' then c + 32 else c

-- `strings.EqualFold(s, "Bearer")`: no letter outside ASCII folds to one of these.
unfoldable pub equal_fold : Str → Str → Bool
equal_fold [] [] = true
equal_fold [] (d ∷ t) = false
equal_fold (c ∷ s) [] = false
equal_fold (c ∷ s) (d ∷ t) = (lower c == lower d) && equal_fold s t

unfoldable pub extract_token : Headers → Str
extract_token h = elim (cut_space h.authorization) [
  | none ↦ h.x_internal_secret
  | some (scheme, token) ↦ if equal_fold scheme (codes "Bearer") then token else h.x_internal_secret
]

pub data Method : Type 0 where
  get post put delete : Method

abbrev pub same_method : Method → Method → Bool
same_method get get = true
same_method post post = true
same_method put put = true
same_method delete delete = true
same_method _ _ = false

-- The handlers that are registered.
pub data Route : Type 0 where
  status list_nas create_nas update_nas delete_nas : Route
  list_subscribers create_subscriber update_subscriber delete_subscriber : Route
  list_sessions disconnect_user coa_change session_cleanup session_reconcile : Route
  list_voucher_packages create_voucher_package update_voucher_package : Route
  delete_voucher_package : Route
  list_pppoe_profiles create_pppoe_profile get_pppoe_profile update_pppoe_profile : Route
  delete_pppoe_profile : Route
  list_vouchers generate_vouchers voucher_balance : Route

-- A segment of a registered path: a text, or a parameter (`:id`, `:code`).
pub data Segment : Type 0 where
  lit : Str → Segment
  param : Segment

-- The segments of a path between its slashes.
abbrev pub onto_first : ℕ → List Str → List Str
onto_first c [] = (c ∷ []) ∷ []
onto_first c (p ∷ ps) = (c ∷ p) ∷ ps

unfoldable pub split_path : Str → List Str
split_path [] = [] ∷ []
split_path (c ∷ s) = let rest = split_path s in if c == b'/' then [] ∷ rest else onto_first c rest

-- The parameter of a path that has the segments; a parameter is not empty.
unfoldable pub match_path : List Segment → List Str → Str → Option Str
match_path [] [] found = some found
match_path [] (p ∷ ps) found = none
match_path (s ∷ ss) [] found = none
match_path (lit t ∷ ss) (p ∷ ps) found = if str_eq t p then match_path ss ps found else none
match_path (param ∷ ss) (p ∷ ps) found = if is_empty p then none else match_path ss ps p

abbrev pub Table : Type 0
Table = List (Method × List Segment × Route)

abbrev pub radius_path : List Segment → List Segment
radius_path more = lit [] ∷ lit (codes "api") ∷ lit (codes "v1") ∷ lit (codes "radius") ∷ more

abbrev pub api_path : List Segment → List Segment
api_path more = lit [] ∷ lit (codes "api") ∷ lit (codes "v1") ∷ more

-- RegisterHTTPHandlers: every route is behind the middleware that asks for the secret.
abbrev pub routes : Table
routes =
    (get, radius_path (lit (codes "status") ∷ []), status)
    ∷ (get, radius_path (lit (codes "nases") ∷ []), list_nas)
    ∷ (post, radius_path (lit (codes "nases") ∷ []), create_nas)
    ∷ (put, radius_path (lit (codes "nases") ∷ param ∷ []), update_nas)
    ∷ (delete, radius_path (lit (codes "nases") ∷ param ∷ []), delete_nas)
    ∷ (get, radius_path (lit (codes "subscribers") ∷ []), list_subscribers)
    ∷ (post, radius_path (lit (codes "subscribers") ∷ []), create_subscriber)
    ∷ (put, radius_path (lit (codes "subscribers") ∷ param ∷ []), update_subscriber)
    ∷ (delete, radius_path (lit (codes "subscribers") ∷ param ∷ []), delete_subscriber)
    ∷ (get, radius_path (lit (codes "sessions") ∷ []), list_sessions)
    ∷ (post, radius_path (lit (codes "sessions") ∷ lit (codes "disconnect") ∷ []), disconnect_user)
    ∷ (post, radius_path (lit (codes "subscribers") ∷ lit (codes "coa-change") ∷ []), coa_change)
    ∷ (post, radius_path (lit (codes "sessions") ∷ lit (codes "cleanup") ∷ []), session_cleanup)
    ∷ (post, radius_path (lit (codes "sessions") ∷ lit (codes "reconcile") ∷ []), session_reconcile)
    ∷ (get, api_path (lit (codes "voucher-packages") ∷ []), list_voucher_packages)
    ∷ (post, api_path (lit (codes "voucher-packages") ∷ []), create_voucher_package)
    ∷ (put, api_path (lit (codes "voucher-packages") ∷ param ∷ []), update_voucher_package)
    ∷ (delete, api_path (lit (codes "voucher-packages") ∷ param ∷ []), delete_voucher_package)
    ∷ (get, api_path (lit (codes "pppoe-profiles") ∷ []), list_pppoe_profiles)
    ∷ (post, api_path (lit (codes "pppoe-profiles") ∷ []), create_pppoe_profile)
    ∷ (get, api_path (lit (codes "pppoe-profiles") ∷ param ∷ []), get_pppoe_profile)
    ∷ (put, api_path (lit (codes "pppoe-profiles") ∷ param ∷ []), update_pppoe_profile)
    ∷ (delete, api_path (lit (codes "pppoe-profiles") ∷ param ∷ []), delete_pppoe_profile)
    ∷ (get, api_path (lit (codes "vouchers") ∷ []), list_vouchers)
    ∷ (post, api_path (lit (codes "vouchers") ∷ lit (codes "generate") ∷ []), generate_vouchers)
    ∷ (get, api_path (lit (codes "vouchers") ∷ param ∷ lit (codes "balance") ∷ []), voucher_balance)
    ∷ []

-- The routes of a method that a path has the segments of, with the parameter.
unfoldable pub matches : Table → Method → List Str → List (Route × Str)
unfolding match_path
matches [] m path = []
matches ((n, segments, r) ∷ more) m path =
    let rest = matches more m path in
    if same_method n m
    then elim (match_path segments path []) [ none ↦ rest | some found ↦ (r, found) ∷ rest ]
    else rest

-- echo: the handler of a method and a path among those that were registered, and the parameter.
abbrev pub Router : Type 0
Router = Table → Method → Str → Option (Route × Str)

-- A management request: refused by the middleware, unknown, or handed to a handler with the
-- parameter of its path.
pub data Reaction : Type 0 where
  unauthorized unrouted : Reaction
  handled : Route → Str → Reaction

unfoldable pub dispatch : Router → Str → Headers → Method → Str → Reaction
unfolding extract_token
dispatch router secret h m path = elim (router routes m path) [
  | none ↦ unrouted
  | some (r, found) ↦ if str_eq (extract_token h) secret then handled r found else unauthorized
]
