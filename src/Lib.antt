-- ===== src/Lib.antt =====
-- radius-go: a RADIUS server for hotspots and PPPoE, with vouchers.
--
-- The program answers authentication requests (internal/radius/auth.go) and accounting requests
-- (internal/radius/accounting.go), sends disconnects and changes of profile to network access servers
-- (internal/radius/coa.go), and keeps three maps in memory that it reads again from PostgreSQL
-- (internal/radius/service.go). An accounting update charges a voucher; at a limit the voucher is
-- disabled in memory, which the next authentication sees, and disconnected. A refresh merges the
-- database under what is in memory.
--
-- Which file models which part:
--   Base        tests, lists, 64-bit integers, byte strings and maps that all parts share
--   Domain      the structs of internal/domain/domain.go, field by field
--   Net         net.ParseIP, To4, SplitHostPort and JoinHostPort
--   Strconv     strconv.Atoi and the decimal format
--   Config      Load and Validate of internal/config/config.go
--   Packet      packets; vendor attributes (vsa.go, mikrotik_vsa.go, pfsense_vsa.go), the attributes of
--               pppoe_attributes.go, and addMessageAuthenticator of auth.go
--   Service     the state; Service/Refresh is refreshFromDB, Service/Table cleanup, reconcile,
--               snapshot, accessors and RADIUSSecret
--   Auth        Auth/Effective and Auth/Reply build the Access-Accept, Auth/Decision is handleAuth
--   Accounting  the handlers of accounting.go
--   Coa         handleCoA, DisconnectUser and ChangeUserProfile
--   Validate    the checks of internal/radius/validate.go
--   PppoeProfiles  pppoe_profile_service.go over what its statements answer
--   Vouchers    voucher_service.go: packages, generation and the balance
--   Repository  the tables of migrations/*.sql and every statement of internal/radius/repository.go and
--               voucher_service.go on them; Repository/Consistent lists what they promise
--   System      the server and its database together: handlers, the goroutines that they started and
--               refreshes from older reads, in any order
--   Handlers    the HTTP handlers of handlers.go (servers), subscriber_handlers.go, pppoe_handlers.go and
--               voucher_handlers.go, over the tables; Handlers/Serve is the handler of a route.
--               Handlers/Live has those that work on the memory
--   Api         the routes of http_router.go, the token of internal/internalsecret, the envelope of
--               internal/runtime/http.go; Api/Client is internal/radiusctl/client.go, and Api/Json
--               the JSON of the change of a subscriber (internal/radiusctl/types.go)
--   Examples    the theorems listed below, applied to concrete data
-- Other files below these hold the proofs that their names and first lines tell.
--
-- How it is modelled. A handler is a function from the state to the state, the packet that it writes
-- and the goroutines that it starts (Service.Task); these run at some later time. Where a handler gives
-- up the lock and takes it again, a function argument (Interleaving, AcctInterleaving, Network) is what
-- other goroutines do in between. Readings of the clock, fresh UUIDs, and what the database and the
-- network answer are arguments. A map is the list of its entries in the order that `range` takes, which
-- is arbitrary; IsMap says that no key stands twice. int and int64 have 64 bits and wrap where the code
-- adds; times do not wrap. layeh.com/radius is Packet.RadiusLibrary, with its documented behaviour in
-- Packet.AttributeLaws; Packet/Reference is a library that has it. bcrypt and the rounding of a duration
-- to seconds are fields of Auth.Reply.Env.
--
-- A table is the list of its rows, and a statement gives the database after it or an error. The
-- record Postgres of Repository is what the server decides: which texts and UUIDs it reads, how it
-- sorts, and what a time or a price is rounded to. An INTEGER has 32 bits and a BIGINT 64; a sum
-- that its column does not hold is an error. A handler sends its statements one after the other,
-- and Handlers.Link says what other clients commit before each and what becomes of it: answered,
-- not sent, or done without an answer. Parsers of UUIDs and mail addresses, and bcrypt, are fields
-- of Handlers.Libraries; the router of echo is an argument of Api.dispatch.
--
-- The one loop on fuel is the getters' scan over sub-attributes (Packet/Vsa): its fuel is the length of
-- the value, and each round drops at least three bytes. All other loops are structural.
--
-- Not modelled: the details of an error; the JSON of other bodies; opening sockets and tickers;
-- logging; the commands and the output of internal/radiusctl, and its transport; and process set-up
-- (cmd, internal/app, internal/httpapi, internal/database, and the rest of internal/runtime).
pub mod Base
pub mod Domain
pub mod Net
pub mod Strconv
pub mod Packet
pub mod Config
pub mod Service
pub mod Auth
pub mod Accounting
pub mod Coa
pub mod Validate
pub mod PppoeProfiles
pub mod Vouchers
pub mod Repository
pub mod System
pub mod Handlers
pub mod Api
pub mod Examples
