-- ===== src/Lib.antt =====
-- V2bX, a node server: it follows a panel that names the users of a node, limits their connections,
-- devices and speed, counts their traffic, and reports it. This library models its own logic and
-- proves what the parts promise.
--
-- The parts, and how they interact. A node's controller (node/) fetches the node and its users from
-- the panel (api/panel/), hands them to a core (core/) and to the node's limiter (limiter/), and
-- runs periodic tasks (common/task/) that repeat this, collect the traffic that the cores count
-- (common/counter/), and report who is online. The cores ask the limiter at each connection.
--
--   Base, Base/Tests, Base/Lists, Int, Keys, Maps: shared helpers; Go's int and int64 with the wrap of
--     64 bits, map keys as an interface with its laws, and maps as association lists.
--   Text: what the code uses of Go's strconv and strings, on bytes.
--   Panel: the records of api/panel/user.go, conf/limit.go and panel.Client, UserTag of
--     common/format/user.go and NormalizeIP of common/netutil/ip.go.
--   Protocol, Protocol/Ech, Protocol/Tls: the protocols' records of api/panel/node.go, and the
--     decoding of their TLS and ECH settings.
--   Api: api/panel. Api has New, assembleURL and checkResponse; Api/Nodes is GetNodeInfo, with Select
--     for the switch on the type and Parse for the rest of the body; Api/Users is GetUserList,
--     Api/Alive GetUserAlive with decodeAliveMap, and Api/Report the three reports.
--   Conn: limiter/conn.go. ConnLimiter is the record of the same name; AddConnCount, DelConnCount and
--     ClearOnlineIP are add_conn_count, del_conn_count and clear_online_ip.
--   Limiter, Limiter/Check, Limiter/Online: limiter/limiter.go, dynamic.go, rule.go and clear.go.
--     CheckLimit is check_limit, made of user_limit, track_device and speed_bucket.
--   Json5, Json5/Reader: common/json5/json5.go. prep is prep_loop, with the text cut at the index.
--   Counter: common/counter/traffic.go and conn.go, with the storages in a store.
--   Task: common/task/task.go, with its mutex and the timers that the runtime holds.
--   Node, and below it Key, Compare, Traffic, Speed, Monitor, Sync: node/controller.go, node/task.go,
--     node/user.go and node/online.go. nodeInfoMonitor is node_info_monitor.
--   Node/Cert, Node/Tasks, Node/Lifecycle: requestCert of node/cert.go, startTasks and
--     ensureOnlineIPSyncTask of node/task.go, Start and Close of node/controller.go and node/node.go.
--   Node/Reports: reportUserTrafficTask and syncOnlineUsersTask of node/user.go, and node/online.go.
--   Selector: core/core.go and core/selector.go, over the interface of core/interface.go, which is the
--     record Core of Node.
--   Hy2, Hy2/Logger: core/hy2/hook.go, user.go and logger.go, over Counter and Limiter.
--   Xray, and below it Dispatch, Links, Accounts, Users: core/xray/app/dispatcher, and ss.go, vmess.go,
--     trojan.go, vless_encryption.go, user.go and online.go of core/xray.
--   Sing, Sing/Users, Sing/Naive: core/sing/hook.go, user.go and naive.go, over Counter and Limiter.
--   Conf, Conf/Watch: conf/conf.go, conf/node.go, conf/watch.go, and NewCore of core/core.go.
--   Tests: concrete states, runs and the theorems at them. The other modules hold the proofs, and are
--     named for what they prove.
--
-- How the code is read. A call is one step on the state: each exported method runs alone. A call reads
-- the clock once, and its time is an argument. A run-time panic, a failed type assertion and a wait for
-- a mutex that is never freed are `none`. Range visits a map in the order of its list, which Go leaves
-- open; the theorems speak of lookups. Strings are lists of bytes. Times and durations are in
-- nanoseconds. Counts of connections and devices do not wrap, as they are bounded by memory; traffic,
-- speed limits and durations do. The loops of prep and of its comma take the length of the text as
-- their fuel, as each step uses a byte. The digits of a number n that is printed take
-- n + 1, as each one divides by ten. decodeAliveMap takes fuel beyond the length of the text, as it
-- goes on with a text that was cut out of it.
--
-- What is an argument: regexp's compile and match, the buckets of juju/ratelimit, the wrapped
-- connections and their errors, the panel, as a function of the requests that it was sent, the methods
-- of a core, the managers of the xray and sing-box libraries, JSON decoding, base64, SHA-256, files,
-- and the calls that make a certificate.
--
-- What is not modelled: of core/xray the inbounds, the outbounds, the DNS file, the fake DNS sniffers
-- and xray.go; of core/sing the options of an inbound (node.go) and sing.go; of core/hy2 all but the
-- three files above, as these fill records of the libraries and start them. The ACME client
-- (node/lego.go), the command line (cmd), and the helpers that read the operating system.
pub mod Base
pub mod Int
pub mod Keys
pub mod Maps
pub mod Panel
pub mod Conn
pub mod Limiter
pub mod Json5
pub mod Counter
pub mod Text
pub mod Protocol
pub mod Task
pub mod Node
pub mod Selector
pub mod Api
pub mod Xray
pub mod Sing
pub mod Conf
pub mod Hy2
pub mod Tests
