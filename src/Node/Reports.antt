-- ===== src/Node/Reports.antt =====
-- node/user.go and node/online.go: the two tasks that report to the panel. The server may report its
-- online users itself, which is an argument; so are the readings of the operating system, and the
-- percentages that are made of them.
pub mod Traffic
use yav2bx.Base.{
  ℕ, ◌≡◌, refl, Bool, true, false, not, ◌&&◌, ◌||◌, List, [], ◌∷◌, Option, none, some, ltb,
  if◌then◌else◌,
}
use yav2bx.Int.{ℤ, pos, ◌+ℤ◌, lt_ℤ, wrap64}
use yav2bx.Keys.{Str, str_eq}
use yav2bx.Maps.{Map, lookup, insert}
use yav2bx.Panel.{Client, UserInfo, OnlineUser, UserTraffic}
use yav2bx.Limiter.{set_alive_list}
use yav2bx.Limiter.Online.{get_online_device, get_online_ip_map}
use yav2bx.Node.{Options, Core, Controller}
use yav2bx.Node.Traffic.{add_traffic, dynamic_speed_limit_enabled}
use yav2bx.Node.Speed.{with_limiter}
use yav2bx.Node.Monitor.{is_empty}
use yav2bx.Node.Sync.{
  dedupe_online_users_by_ip, filter_online, build_online_ip_payload, dedupe_online_ip_map_by_ip,
  build_online_ip_map_payload,
}
use yav2bx.Api.{Float, NodeStatus, Panel, Request}
use yav2bx.Api.Report.{report_node_online_users, report_user_traffic, report_node_status}
use yav2bx.Api.Alive.{get_user_alive}

-- OnlineUserReporter, as readings of the server's state; `none` is an error.
pub record OnlineUserReporter (S : Type 0) : Type 0 where
  pub get_online_users : Str → List UserInfo → S → Option (List OnlineUser)
  pub get_online_ip_map : Str → List UserInfo → S → Option (Map ℤ (List Str))

-- What serverstatus.GetSystemStatus reads.
pub record SystemStatus : Type 0 where
  pub cpu : Float
  pub uptime : ℕ
  pub mem_total : ℕ
  pub mem_used : ℕ
  pub swap_total : ℕ
  pub swap_used : ℕ
  pub disk_total : ℕ
  pub disk_used : ℕ

-- The NodeStatus of a reading, or of nil; a float's zero has the bits 0.
unfoldable pub node_status : (ℕ → ℕ → Float) → Option SystemStatus → NodeStatus
node_status percent none = record {
  cpu = 0;
  mem = 0;
  disk = 0;
  uptime = 0;
  mem_total = 0;
  mem_used = 0;
  swap_total = 0;
  swap_used = 0;
  disk_total = 0;
  disk_used = 0;
}
node_status percent (some st) = record {
  cpu = st.cpu;
  mem = if ltb 0 st.mem_total then percent st.mem_used st.mem_total else 0;
  disk = if ltb 0 st.disk_total then percent st.disk_used st.disk_total else 0;
  uptime = st.uptime;
  mem_total = st.mem_total;
  mem_used = st.mem_used;
  swap_total = st.swap_total;
  swap_used = st.swap_used;
  disk_total = st.disk_total;
  disk_used = st.disk_used;
}

-- The requests of reportUserTrafficTask for the online users, unless they could not be read, and for
-- the traffic, if there is any. Their errors are logged.
unfoldable pub send_online :
    Panel
    → Client
    → Options
    → List UserTraffic
    → Option (List OnlineUser)
    → List Request
    → List Request
send_online panel client o traffic none sent = sent
send_online panel client o traffic (some online) sent =
    let result = filter_online client o traffic (dedupe_online_users_by_ip online) in
    (report_node_online_users panel client (build_online_ip_payload result) sent).0

unfoldable pub send_traffic : Panel → Client → List UserTraffic → List Request → List Request
send_traffic panel client traffic sent =
    if is_empty traffic then sent else (report_user_traffic panel client traffic sent).0

module _ {S : Type 0} where
  -- The loop that asks the server for each user's traffic and resets it there.
  unfoldable pub collect_traffic :
      Core S → Bool → Str → List UserInfo → S × Map Str ℤ → (S × Map Str ℤ) × List UserTraffic
  collect_traffic core dynamic tag [] s = (s, [])
  collect_traffic core dynamic tag (u ∷ us) s =
      let r = core.get_user_traffic tag u.uuid true s.0 in
      let up = r.1.0 in
      let down = r.1.1 in
      let used = lt_ℤ (pos 0) up || lt_ℤ (pos 0) down in
      let traffic = if used && dynamic then add_traffic u.uuid (wrap64 (up +ℤ down)) s.1 else s.1 in
      let rest = collect_traffic core dynamic tag us (r.0, traffic) in
      (
        rest.0,
        if used
            then record { uid = u.id; upload = up; download = down; key = [] } ∷ rest.1
            else rest.1,
      )

module _ {S Regexp Bucket : Type 0} where
  -- getOnlineUsers, which takes the limiter's devices of the window; `none` is an error.
  unfoldable pub get_online_users :
      Option (OnlineUserReporter S)
      → Controller S Regexp Bucket
      → Controller S Regexp Bucket × Option (List OnlineUser)
  get_online_users (some r) c = (c, r.get_online_users c.tag c.user_list c.server)
  get_online_users none c = elim (lookup c.tag c.limiters) [
    | none ↦ (c, some [])
    | some l ↦
        let r = get_online_device l in
        (record c { limiters = insert c.tag r.0 c.limiters }, some r.1)
  ]

  -- reportUserTrafficTask, which never gives an error: the controller, and the requests.
  unfoldable pub report_user_traffic_task :
      Panel
      → Core S
      → Option (OnlineUserReporter S)
      → (ℕ → ℕ → Float)
      → Client
      → Options
      → Option SystemStatus
      → ℕ
      → Controller S Regexp Bucket × List Request
      → Controller S Regexp Bucket × List Request
  report_user_traffic_task panel core reporter percent client o status now (c, sent) =
      let r =
        collect_traffic core (dynamic_speed_limit_enabled o.limit_config) c.tag c.user_list
          (c.server, c.traffic) in
      let online = get_online_users reporter (record c { server = r.0.0; traffic = r.0.1 }) in
      let told = send_traffic panel client r.1 (send_online panel client o r.1 online.1 sent) in
      (online.0, (report_node_status panel client (node_status percent status) now told).0)

  -- getOnlineIPMap, for a controller with a limiter.
  unfoldable pub get_online_ips :
      Option (OnlineUserReporter S) → Controller S Regexp Bucket → Option (Map ℤ (List Str))
  get_online_ips (some r) c = r.get_online_ip_map c.tag c.user_list c.server
  get_online_ips none c = elim (lookup c.tag c.limiters) [
    | none ↦ some []
    | some l ↦ some (get_online_ip_map l)
  ]

  -- syncOnlineUsersTask, which never gives an error.
  unfoldable pub sync_online_users_task :
      (Str → Map ℤ ℤ)
      → Panel
      → Option (OnlineUserReporter S)
      → Controller S Regexp Bucket × Client × List Request
      → Controller S Regexp Bucket × Client × List Request
  sync_online_users_task decode panel reporter (c, client, sent) = elim (lookup c.tag c.limiters) [
    | none ↦ (c, client, sent)
    | some l ↦ elim (get_online_ips reporter c) [
      | none ↦ (c, client, sent)
      | some ips ↦
          let payload = build_online_ip_map_payload (dedupe_online_ip_map_by_ip ips) in
          let told = (report_node_online_users panel client payload sent).0 in
          let r = get_user_alive decode panel (client, told) in
          (with_limiter (set_alive_list r.1) c, r.0.0, r.0.1)
    ]
  ]
