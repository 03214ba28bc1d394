-- ===== src/Config.antt =====
-- internal/config/config.go. The process environment is a function: a variable that is not set reads
-- as the empty string. Reading a .env file (godotenv) is not modelled.
use radius_go.Base.{Bool, false, Option, none, some, [], ◌∷◌, if◌then◌else◌, ◌||◌}
use radius_go.Base.Int.{ℤ, pos}
use radius_go.Base.Text.{Str, codes, is_empty, str_eq}
use radius_go.Strconv.{format_int, atoi}

pub record Config : Type 0 where
  pub db_dsn : Str
  pub http_addr : Str
  pub internal_secret : Str
  pub radius_auth_addr : Str
  pub radius_acct_addr : Str
  pub radius_coa_addr : Str
  pub enable_coa : Bool
  pub log_format : Str
  pub stale_session_timeout : ℤ
  pub db_refresh_interval : ℤ
  pub session_cleanup_period : ℤ
  pub service_name : Str

abbrev Environment : Type 0
Environment = Str → Str

unfoldable pub get_env : Environment → Str → Str → Str
get_env env key fallback = if is_empty (env key) then fallback else env key

unfoldable pub get_env_int : Environment → Str → ℤ → ℤ
get_env_int env key fallback =
    if is_empty (env key) then fallback else elim (atoi (env key)) [ none ↦ fallback | some n ↦ n ]

-- strconv.ParseBool, whose value is false beside an error.
parse_bool : Str → Bool
parse_bool s =
    str_eq s (codes "1")
    || str_eq s (codes "t")
    || str_eq s (codes "T")
    || str_eq s (codes "true")
    || str_eq s (codes "TRUE")
    || str_eq s (codes "True")

abbrev port_addr : ℤ → Str
port_addr port = b':' ∷ format_int port

unfoldable pub load : Environment → Option Str → Config
unfolding get_env get_env_int parse_bool
load env name = record {
  db_dsn = get_env env (codes "DB_DSN") [];
  http_addr = port_addr (get_env_int env (codes "HTTP_PORT") (pos 8083));
  internal_secret = get_env env (codes "INTERNAL_SECRET") [];
  radius_auth_addr = port_addr (get_env_int env (codes "RADIUS_AUTH_PORT") (pos 1812));
  radius_acct_addr = port_addr (get_env_int env (codes "RADIUS_ACCT_PORT") (pos 1813));
  radius_coa_addr = port_addr (get_env_int env (codes "RADIUS_COA_PORT") (pos 3799));
  enable_coa =
      if is_empty (env (codes "ENABLE_COA")) then false else parse_bool (env (codes "ENABLE_COA"));
  log_format = get_env env (codes "LOG_FORMAT") (codes "console");
  stale_session_timeout = get_env_int env (codes "STALE_SESSION_TIMEOUT") (pos 86400);
  db_refresh_interval = get_env_int env (codes "DB_REFRESH_INTERVAL") (pos 60);
  session_cleanup_period = get_env_int env (codes "SESSION_CLEANUP_PERIOD") (pos 300);
  service_name = elim name [ none ↦ [] | some n ↦ n ];
}

-- `none` is success.
unfoldable pub validate : Config → Option Str
validate c =
    if is_empty c.db_dsn
    then some (codes "DB_DSN is required")
    else if is_empty c.internal_secret
    then some (codes "INTERNAL_SECRET is required")
    else none
