-- ===== src/Accounting.antt =====
-- internal/radius/accounting.go. The handler takes the lock several times; `AcctInterleaving` is what
-- other goroutines do to the service before it takes it again. Readings of the clock and the new UUID
-- are arguments.
pub mod Totals
pub mod Sessions
pub mod Retransmit
pub mod Usage
pub mod Metering
pub mod Limits
use radius_go.Base.{
  ℕ, ◌+◌, ◌-◌, ◌*◌, ◌%◌, ◌^◌, Bool, true, false, ◌&&◌, ◌||◌, not, Option, none, some, List, [], ◌∷◌,
  ◌++◌, ◌==◌, ltb, if◌then◌else◌, or_else,
}
use radius_go.Base.Int.{ℤ, pos, ltb_ℤ, leb_ℤ, add64, sub64}
use radius_go.Base.Text.{Str, codes, is_empty, str_eq}
use radius_go.Base.Dict.{Dict, lookup, insert}
use radius_go.Domain.User.{RadiusUser, service_type_framed}
use radius_go.Domain.Session.{RadiusSession, session_state_active, session_state_stop}
use radius_go.Domain.Voucher.{time_limit_usage}
use radius_go.Packet.{Packet, RadiusLibrary}
use radius_go.Packet.Code
use radius_go.Service.{
  Service, Task, Outcome, upsert_session, add_usage_delta, disconnect_and_disable,
  inc_acct_requests,
}
use radius_go.Strconv.{format_nat}
use radius_go.Auth.Decision.{disable_in_memory}

-- What the library reads from the request; `none` for an attribute that is missing or malformed.
pub record AcctRequest : Type 0 where
  pub secret : Str
  pub remote_addr : Str
  pub status_type : Option ℕ
  pub username : Str
  pub session_id : Str
  pub nas_identifier : Str
  pub calling_station : Str
  pub called_station : Str
  pub framed_ip : Option (ℕ × ℕ × ℕ × ℕ)
  pub input_octets : Option ℕ
  pub output_octets : Option ℕ
  pub session_time : Option ℕ
  pub input_gigawords : Option ℕ
  pub output_gigawords : Option ℕ

pub record AcctClock : Type 0 where
  pub update : ℤ
  pub stop : ℤ

pub record AcctInterleaving : Type 0 where
  pub before_store : Service → Service
  pub before_lookup : Service → Service
  pub before_disable : Service → Service

-- `rfc2866.AcctStatusType_Value_…`
abbrev pub status_start : ℕ
status_start = 1

abbrev pub status_stop : ℕ
status_stop = 2

abbrev pub status_interim_update : ℕ
status_interim_update = 3

-- `ip.String()` of the four bytes of Framed-IP-Address.
ip_string : ℕ × ℕ × ℕ × ℕ → Str
ip_string (a, b, c, d) =
    format_nat a ++ (b'.' ∷ format_nat b) ++ (b'.' ∷ format_nat c) ++ (b'.' ∷ format_nat d)

abbrev pub max_int64 : ℕ
max_int64 = 2 ^ 63 - 1

-- A 32-bit counter with its gigawords, in 64 bits.
unfoldable pub total_octets : Option ℕ → Option ℕ → ℤ
total_octets octets gigawords =
    let low = or_else octets 0 in
    elim gigawords [
      | none ↦ pos low
      | some high ↦
          let total = (high * 4294967296 + low) % 2 ^ 64 in
          pos (if ltb max_int64 total then max_int64 else total)
    ]

-- The session that Accounting-Start opens.
unfoldable pub new_session : AcctRequest → Str → ℤ → Option RadiusUser → RadiusSession
unfolding ip_string
new_session r id now user = record {
  id = id;
  session_id = r.session_id;
  username = r.username;
  nas_id = r.nas_identifier;
  nas_ip = r.remote_addr;
  nas_identifier = r.nas_identifier;
  framed_ip = elim r.framed_ip [ none ↦ [] | some ip ↦ ip_string ip ];
  calling_station = r.calling_station;
  called_station = r.called_station;
  service_type = elim user [ none ↦ service_type_framed | some u ↦ u.service_type ];
  input_octets = pos 0;
  output_octets = pos 0;
  session_time = pos 0;
  session_status = session_state_active;
  mikrotik_group = [];
  rate_limit = [];
  bandwidth_max_up = 0;
  bandwidth_max_down = 0;
  max_total_octets = 0;
  start_time = now;
  last_update = now;
  stop_time = none;
  created_at = pos 0;
  updated_at = pos 0;
}

unfoldable pub handle_acct_start :
    AcctInterleaving → AcctRequest → Str → ℤ → Service → Service × List Task
handle_acct_start inter r id now s =
    let sess = new_session r id now (lookup r.username s.subscribers) in
    let s' = inter.before_store s in
    (record s' { sessions = insert id sess s'.sessions }, upsert_session sess ∷ [])

-- `for id, sess := range s.sessions`, up to the first session of that name and user.
unfoldable pub find_session : Str → Str → Dict RadiusSession → Option (Str × RadiusSession)
find_session username session_id [] = none
find_session username session_id ((id, sess) ∷ m) =
    if not (str_eq sess.session_id session_id) || not (str_eq sess.username username)
    then find_session username session_id m
    else some (id, sess)

-- The growth of a cumulative counter; one that went back started again.
unfoldable pub delta : ℤ → ℤ → ℤ
delta now before = let d = sub64 now before in if ltb_ℤ d (pos 0) then now else d

abbrev pub updated_session : AcctRequest → AcctClock → Bool → RadiusSession → RadiusSession
updated_session r clock stop sess =
    let sess' : RadiusSession = record sess {
      last_update = clock.update;
      input_octets = total_octets r.input_octets r.input_gigawords;
      output_octets = total_octets r.output_octets r.output_gigawords;
      session_time = pos (or_else r.session_time 0);
    } in
    if stop
    then record sess' { session_status = session_state_stop; stop_time = some clock.stop }
    else sess'

-- The growth that a request reports over the stored session: seconds, and octets both ways.
abbrev pub delta_sec : AcctRequest → RadiusSession → ℤ
delta_sec r sess = delta (pos (or_else r.session_time 0)) sess.session_time

abbrev pub delta_oct : AcctRequest → RadiusSession → ℤ
delta_oct r sess =
    delta
      (add64 (total_octets r.input_octets r.input_gigawords)
        (total_octets r.output_octets r.output_gigawords))
      (add64 sess.input_octets sess.output_octets)

abbrev pub charged : ℤ → ℤ → RadiusUser → RadiusUser
charged secs octets u = record u {
  usage_seconds_used = add64 u.usage_seconds_used secs;
  data_bytes_used = add64 u.data_bytes_used octets;
}

-- Whether the usage of a voucher reached one of its limits.
unfoldable pub limit_reached : RadiusUser → Bool
limit_reached u =
    (str_eq u.voucher_time_limit_type time_limit_usage
      && ltb_ℤ (pos 0) u.voucher_time_limit_seconds
      && leb_ℤ u.voucher_time_limit_seconds u.usage_seconds_used)
    || (ltb_ℤ (pos 0) u.voucher_data_cap_bytes && leb_ℤ u.voucher_data_cap_bytes u.data_bytes_used)

-- The usage of a voucher, charged to the user in memory: the service, whether a limit was reached,
-- and the goroutine that stores the growth.
unfoldable pub charge : Str → ℤ → ℤ → Service → Service × Bool × List Task
charge username secs octets s = elim (lookup username s.subscribers) [
  | none ↦ (s, false, [])
  | some u ↦
      if u.is_voucher
      then (
        record s { subscribers = insert username (charged secs octets u) s.subscribers },
        limit_reached (charged secs octets u),
        if not (is_empty u.id) && (ltb_ℤ (pos 0) secs || ltb_ℤ (pos 0) octets)
            then add_usage_delta u.id secs octets ∷ []
            else [],
      )
      else (s, false, [])
]

-- The result says whether a limit of the voucher was reached.
unfoldable pub apply_acct_update :
    AcctRequest → AcctClock → Bool → Service → Service × Bool × List Task
apply_acct_update r clock stop s = elim (find_session r.username r.session_id s.sessions) [
  | none ↦ (s, false, [])
  | some (id, sess) ↦
      let sess' = updated_session r clock stop sess in
      let (s', hit, tasks) =
        charge r.username (delta_sec r sess) (delta_oct r sess)
          (record s { sessions = insert id sess' s.sessions }) in
      (s', hit, upsert_session sess' ∷ tasks)
]

unfoldable pub disconnect_and_disable_voucher :
    AcctInterleaving → Str → Service → Service × List Task
disconnect_and_disable_voucher inter username s =
    let s' = inter.before_lookup s in
    elim (lookup username s'.subscribers) [
      | none ↦ (s', [])
      | some user ↦ (
        disable_in_memory username (inter.before_disable s'),
        disconnect_and_disable username user.id ∷ [],
      )
    ]

-- handleAcctStop and handleAcctInterim.
unfoldable pub handle_acct_update :
    AcctInterleaving → AcctRequest → AcctClock → Bool → Service → Service × List Task
handle_acct_update inter r clock stop s =
    let (s', hit, tasks) = apply_acct_update r clock stop s in
    if hit
    then (let (q, more) = disconnect_and_disable_voucher inter r.username s' in (q, tasks ++ more))
    else (s', tasks)

unfoldable pub acct_step :
    AcctInterleaving → AcctRequest → Str → AcctClock → ℕ → Service → Service × List Task
acct_step inter r id clock status s =
    if status == status_start
    then handle_acct_start inter r id clock.update s
    else if status == status_stop
    then handle_acct_update inter r clock true s
    else if status == status_interim_update
    then handle_acct_update inter r clock false s
    else (s, [])

-- A request without a status type gets no answer; every other gets an Accounting-Response.
unfoldable pub handle_accounting :
    RadiusLibrary → AcctInterleaving → AcctRequest → Str → AcctClock → Service → Outcome
handle_accounting lib inter r id clock s =
    let s' = inc_acct_requests s in
    elim r.status_type [
      | none ↦ record { service = s'; reply = none; tasks = [] }
      | some status ↦
          let (q, tasks) = acct_step inter r id clock status s' in
          record {
            service = q;
            reply = some (lib.new_packet Code.accounting_response r.secret);
            tasks = tasks;
          }
    ]
