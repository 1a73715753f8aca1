-- ===== src/Tests/Nodes.antt =====
-- Tests of node/controller.go, node/task.go, node/user.go and core/selector.go.
use yav2bx.Base.{
  ℕ, suc, ◌≡◌, refl, true, false, not, ◌&&◌, List, [], ◌∷◌, Option, none, some, if◌then◌else◌,
  Ensures,
}
use yav2bx.Int.{ℤ, pos}
use yav2bx.Keys.{Str, str_eq, str_beq}
use yav2bx.Maps.{lookup, Distinct}
use yav2bx.Panel.{
  Reply, Client, UserInfo, OnlineUser, LimitConfig, DynamicSpeedLimitConfig, user_tag,
}
use yav2bx.Limiter.{user_limit_of}
use yav2bx.Limiter.Users.{last_user}
use yav2bx.Node.{NodeInfo, Options, Core, Controller}
use yav2bx.Node.Traffic.{is_over}
use yav2bx.Node.Speed.{speed_checker, add_minutes, limited_until, speed_checker_lem}
use yav2bx.Node.Monitor.{is_empty, reload_node}
use yav2bx.Node.Monitor.Reload.{Has, after, reload_node-Has}
use yav2bx.Limiter.Check.{compile_all}
use yav2bx.Node.Sync.{build_online_ip_payload}
use yav2bx.Node.Sync.Dedupe.{is_online}
use yav2bx.Selector.{Selector, choose_core, add_node}
use yav2bx.Selector.Routes.{add_node_nodes}
use yav2bx.Tests.Connections.{alice, bob, home}
use yav2bx.Tests.Limits.{node, limiter, alice_user}
use yav2bx.Limiter.Reports.{list_at}
use yav2bx.Node.Sync.Listed.{count_ip}
use yav2bx.Node.Sync.Payload.{build_online_ip_payload_lem}

abbrev pub bob_user : UserInfo
bob_user = record { id = pos 8; uuid = bob; speed_limit = pos 0; device_limit = pos 0 }

-- A core that takes every call and counts them.
abbrev pub counting : Core ℕ
counting = record {
  start = λ n. (suc n, false);
  close = λ n. (suc n, false);
  add_node = λ tag info o n. (suc n, false);
  del_node = λ tag n. (suc n, false);
  add_users = λ tag users info n. (suc n, some (pos 1));
  get_user_traffic = λ tag uuid reset n. (suc n, (pos 0, pos 0));
  del_users = λ users tag info n. (suc n, false);
  protocols = home ∷ [];
  type = home;
}

abbrev pub info : NodeInfo
info = record {
  id = pos 1;
  type = home;
  security = pos 0;
  push_interval = pos 0;
  pull_interval = pos 0;
  rules = record { regexp = []; protocol = [] };
  protocol = [];
  raw_dns = record { dns_map = []; dns_json = [] };
  config = [];
  settings = none;
  common = none;
  basic = none;
}

abbrev dynamic : DynamicSpeedLimitConfig
dynamic = record { periodic = pos 60; traffic = pos 100; speed_limit = pos 5; expire_time = pos 10 }

abbrev pub config : LimitConfig
config = record {
  enable_realtime = true;
  speed_limit = pos 0;
  ip_limit = pos 1;
  conn_limit = pos 3;
  enable_ip_recorder = false;
  ip_recorder_config = none;
  enable_dynamic_speed_limit = true;
  dynamic_speed_limit_config = some dynamic;
}

-- Alice has used 120 bytes.
abbrev controller : Controller ℕ Str ℤ
controller = record {
  server = 0;
  tag = node;
  limiters = (node, limiter) ∷ [];
  traffic = (alice, pos 120) ∷ [];
  user_list = alice_user ∷ [];
  info = info;
}

limiter-found : lookup controller.tag controller.limiters ≡ some limiter
unfolding lookup str_beq
limiter-found = refl

traffic-Distinct : Distinct controller.traffic
unfolding lookup
traffic-Distinct = (refl, tt)

speed_checker_lem_example :
    let c' = speed_checker config 0 controller in
    (lookup alice c'.traffic ≡ (
      if is_over dynamic.traffic (lookup alice controller.traffic)
      then none
      else lookup alice controller.traffic))
    × Ensures
        (λ l'.
          lookup (user_tag controller.tag alice) l'.user_limit_info
          ≡ elim (lookup (user_tag controller.tag alice) limiter.user_limit_info) [
            | none ↦ none
            | some u ↦ some (
                if is_over dynamic.traffic (lookup alice controller.traffic)
                then limited_until dynamic.speed_limit (add_minutes 0 dynamic.expire_time) u
                else u)
          ])
        (lookup controller.tag c'.limiters)
speed_checker_lem_example =
    speed_checker_lem config dynamic 0 controller limiter alice refl refl refl traffic-Distinct
      limiter-found

abbrev pub client : Client
client = record {
  client = record { retry_count = 3; timeout = pos 0; base_url = []; query_params = [] };
  panel_type = [];
  api_host = [];
  token = [];
  node_type = [];
  node_id = pos 0;
  node_etag = [];
  user_etag = [];
  response_body_hash = [];
  user_list = [];
  alive_map = [];
}

abbrev online : List OnlineUser
online = record { uid = pos 7; ip = home } ∷ record { uid = pos 7; ip = home } ∷ []

build_online_ip_payload_lem_example :
    count_ip home (list_at (pos 7) (build_online_ip_payload online))
    ≡ (if not (str_beq home []) && is_online (pos 7) home online then 1 else 0)
build_online_ip_payload_lem_example = build_online_ip_payload_lem (pos 7) home online

abbrev pub options : Options
options = record {
  name = [];
  core = [];
  core_name = [];
  device_online_min_traffic = pos 0;
  limit_config = config;
}

abbrev pub compile : Str → Option Str
compile s = some s

pub no_rules : Ensures (λ _. Unit) (compile_all compile info.rules.regexp)
unfolding compile_all
no_rules = tt

-- The node is reloaded with Bob in Alice's place.
reload_node-Has_example :
    Ensures
      (λ m.
        Has
          (λ uuid.
            if is_empty options.name
            then elim (last_user uuid (bob_user ∷ [])) [
              | some u ↦ some (user_limit_of u)
              | none ↦ none
            ]
            else lookup (user_tag controller.tag uuid) limiter.user_limit_info)
          (bob_user ∷ [])
          (after m))
      (reload_node counting options client compile true info
        (Reply.answer (bob_user ∷ []))
        Reply.unchanged
        controller)
reload_node-Has_example =
    reload_node-Has counting options client compile true info (bob_user ∷ []) Reply.unchanged
      controller limiter limiter-found refl (λ tag s. refl) no_rules

abbrev selector : Selector ℕ
selector = record { cores = (alice, (counting, 0)) ∷ []; nodes = [] }

cores-Distinct : Distinct selector.cores
unfolding lookup
cores-Distinct = (refl, tt)

abbrev unmarshal : Options → Option Options
unmarshal o = some o

add_node_nodes_example :
    let r = add_node unmarshal node info options selector in
    lookup node r.0.nodes ≡ (
      if not r.2 && str_beq node node
      then choose_core options info selector.cores
      else lookup node selector.nodes)
add_node_nodes_example = add_node_nodes unmarshal node info options selector node
