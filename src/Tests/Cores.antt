-- ===== src/Tests/Cores.antt =====
-- Tests of core/xray and core/sing.
use yav2bx.Base.{Bool, ◌≡◌, refl, true, false, [], ◌∷◌, ◌++◌, none, some, if◌then◌else◌, Ensures}
use yav2bx.Int.{ℤ, pos, wrap64}
use yav2bx.Keys.{Str, str_eq, str_beq}
use yav2bx.Maps.{Map, lookup, insert, erase}
use yav2bx.Panel.{user_tag, normalize_ip, cut_prefix}
use yav2bx.Text.{bytes}
use yav2bx.Conn.Invariant.{IsValid}
use yav2bx.Limiter.{Limiter, get_limiter, determine_speed_limit, get_alive}
use yav2bx.Limiter.Check.{
  check_limit, check_user, track_device, user_limit, speed_bucket, byte_limit,
}
use yav2bx.Conn.{
  Online, add_conn_count, add_count, add_online, first_entry, add_ip, over_ip_limit, range_limit,
  touch,
}
use yav2bx.Xray.{inbound_online_name, uplink_name}
use yav2bx.Xray.Dispatch.{
  Wrapper, UserStats, Inbound, Link, Stats, Routing, get_link, record_online_stats, routed_dispatch,
}
use yav2bx.Xray.Closing.{SameAs, routed_dispatch-get_link}
use yav2bx.Xray.Links.Reader.{CachedReader, peek, read, run_calls, left, run_calls-left}
use yav2bx.Xray.Users.{StatsState, get_user_traffic}
use yav2bx.Xray.Counts.{counts_of, get_user_traffic-Counts}
use yav2bx.Node.{Core, Controller}
use yav2bx.Node.Reports.{
  node_status, send_traffic, send_online, get_online_users, report_user_traffic_task,
}
use yav2bx.Node.Reports.Traffic.{used_traffic, report_user_traffic_task_lem}
use yav2bx.Api.Report.{report_node_status}
use yav2bx.Limiter.Users.{has_uuid}
use yav2bx.Tests.Nodes.{info, client, options}
use yav2bx.Tests.Panel.{broken}
use yav2bx.Sing.{Metadata, routed}
use yav2bx.Sing.Collect.{Allowed, routed-Allowed}
use yav2bx.Tests.Connections.{alice, home, busy}
use yav2bx.Tests.Limits.{node, alice_user, alice_at, limiter, limiter-IsValid, as_limit}

abbrev registry : Map Str (Limiter Str ℤ)
registry = (node, limiter) ∷ []

abbrev no_stats : UserStats
no_stats = record { uplink = false; downlink = false; online = false }

abbrev inbound : Inbound
inbound = record { tag = node; user = some (alice_at, no_stats); source = home; source_tcp = true }

abbrev stats : Stats
stats = record { present = true; has_counter = λ s. true; has_online_map = λ s. true }

abbrev matching : Str → Str → Bool
matching pattern s = str_beq pattern s

abbrev routing : Routing
routing = record {
  forced = [];
  picked = none;
  handlers = [];
  default_handler = some home;
  in_tag = node;
}

registry-found : lookup node registry ≡ some limiter
unfolding lookup str_beq
registry-found = refl

-- The limiter and the link that getLink leaves.
abbrev pub one_connection : Limiter Str ℤ
one_connection = record limiter {
  conn_limiter = record busy {
    count = (alice_at, pos 1) ∷ [];
    ip = (alice_at, (home, Online.counted (pos 2)) ∷ []) ∷ [];
  };
  speed_limiter = (alice_at, record { limit = pos 6_250_000; bucket = pos 6_250_000 }) ∷ [];
}

abbrev opened : Map Str (Limiter Str ℤ)
opened = (node, one_connection) ∷ []

abbrev link : Link ℤ
link = record {
  inbound_writer = Wrapper.limited (pos 6_250_000) ∷ [];
  outbound_writer = Wrapper.limited (pos 6_250_000) ∷ [];
  limiter = some node;
  recorded = (inbound_online_name node, home) ∷ [];
}

gets_link : get_link registry stats inbound true 0 as_limit ≡ some (opened, some link)
unfolding get_link str_beq get_limiter lookup check_limit add_conn_count add_count add_online insert
    check_user track_device user_limit normalize_ip speed_bucket record_online_stats byte_limit
    wrap64 determine_speed_limit first_entry add_ip over_ip_limit range_limit touch get_alive erase
    cut_prefix
gets_link = refl

named : str_beq alice_at [] ≡ false
unfolding str_beq
named = refl

plain : normalize_ip home ≡ home
unfolding normalize_ip
plain = refl

routed_dispatch-get_link_example :
    Ensures
      (λ r. Ensures (λ l'. SameAs limiter.conn_limiter l'.conn_limiter) (lookup node r.0))
      (routed_dispatch matching routing inbound true link.limiter (bytes "example.org") [] opened)
routed_dispatch-get_link_example =
    routed_dispatch-get_link registry stats inbound (alice_at, no_stats) limiter 0 as_limit opened
      link matching routing (bytes "example.org") [] refl named registry-found plain limiter-IsValid
      refl (λ q. cc) gets_link

abbrev reader : CachedReader
reader = record { cached = []; source = bytes "he" ∷ bytes "llo" ∷ [] }

run_calls-left_example :
    (run_calls (peek ∷ read ∷ []) reader).1 ++ left (run_calls (peek ∷ read ∷ []) reader).0
    ≡ left reader
run_calls-left_example = run_calls-left (peek ∷ read ∷ []) reader

abbrev counted : StatsState
counted = record { counters = (uplink_name (user_tag node alice), pos 5) ∷ []; online = [] }

-- A core that counts as xray does, under a controller with Alice.
abbrev counter_core : Core StatsState
counter_core = record {
  start = λ s. (s, false);
  close = λ s. (s, false);
  add_node = λ tag n o s. (s, false);
  del_node = λ tag s. (s, false);
  add_users = λ tag users n s. (s, some (pos 1));
  get_user_traffic = get_user_traffic;
  del_users = λ users tag n s. (s, false);
  protocols = [];
  type = [];
}

abbrev serving : Controller StatsState Str ℤ
serving = record {
  server = counted;
  tag = node;
  limiters = registry;
  traffic = [];
  user_list = alice_user ∷ [];
  info = info;
}

report_user_traffic_task_lem_example :
    let r =
      report_user_traffic_task broken counter_core none
        (λ used total. 0)
        client
        options
        none
        0
        (serving, []) in
    let traffic = used_traffic (λ uuid. counts_of node uuid counted) (alice_user ∷ []) in
    let online = (get_online_users none (record serving { server = r.0.server })).1 in
    let told =
      send_traffic broken client traffic (send_online broken client options traffic online []) in
    (r.1 ≡ (report_node_status broken client (node_status (λ used total. 0) none) 0 told).0)
    × ((uuid : Str)
        → counts_of node uuid r.0.server ≡ (
            if has_uuid uuid (alice_user ∷ [])
            then (pos 0, pos 0)
            else counts_of node uuid counted))
report_user_traffic_task_lem_example =
    report_user_traffic_task_lem broken counter_core counts_of none (λ used total. 0) client options
      none 0 serving [] get_user_traffic-Counts (refl, tt)

abbrev stream : Metadata
stream = record {
  inbound = node;
  user = alice;
  source = home;
  destination = bytes "example.org";
  network = bytes "tcp";
}

routed-Allowed_example :
    Ensures
      (λ r.
        Allowed matching stream r
        × Ensures (λ l'. IsValid l'.conn_limiter) (lookup stream.inbound r.0.0))
      (routed matching true stream 0 as_limit (registry, []))
routed-Allowed_example =
    routed-Allowed matching true stream 0 as_limit registry [] limiter registry-found
      limiter-IsValid
