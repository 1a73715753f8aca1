-- ===== src/Api/Nodes/Parse.antt =====
-- api/panel/node.go, GetNodeInfo: what is made of the body of an answer. The NodeInfo that the code
-- builds has one of its pointers to the protocols' records set.
use yav2bx.Base.{ℕ, suc, List, [], ◌∷◌, ◌++◌, Option, none, some, if◌then◌else◌, ◌>>=◌}
use yav2bx.Int.{ℤ, pos, wrap64, scale}
use yav2bx.Keys.{Str, str_eq, str_beq}
use yav2bx.Maps.{insert}
use yav2bx.Panel.{Client, Reply, Rules, trim_prefix}
use yav2bx.Text.{bytes, print_int, atoi, has_prefix, split_at, concat_all}
use yav2bx.Protocol.{
  Interval, absent, int, signed, float, BaseConfig, Match, texts, values, Route, CommonNode,
  Settings, RawDns,
}
use yav2bx.Node.{NodeInfo}
use yav2bx.Api.Nodes.Select.{NodeJson, default_settings, ppanel_settings, common_of, with_common}

abbrev pub second : ℕ
second = 1_000_000_000

-- intervalToTime: an error of Atoi is ignored, and the reflection panics on what is no integer.
unfoldable pub interval_to_time : Interval → Option ℤ
interval_to_time absent = none
interval_to_time (int i) = some (wrap64 (scale i second))
interval_to_time (Interval.text s) = some (wrap64 (scale (atoi s).0 second))
interval_to_time (float i) = some (wrap64 (scale i second))
interval_to_time (signed i) = some (wrap64 (scale i second))
interval_to_time Interval.other = none

-- The strings that a route matches: the type assertions panic on anything else.
unfoldable pub all_strings : List (Option Str) → Option (List Str)
all_strings [] = some []
all_strings (v ∷ vs) = v >>= λ s. (all_strings vs >>= λ ss. some (s ∷ ss))

unfoldable pub matches_of : Match → Option (List Str)
matches_of (Match.text s) = some (split_at b',' [] s)
matches_of (texts ss) = some ss
matches_of (values vs) = all_strings vs
matches_of Match.other = none

-- The loop of a route that blocks.
unfoldable pub add_rules : Rules → List Str → Rules
add_rules rules [] = rules
add_rules rules (v ∷ vs) =
    add_rules
      (if has_prefix v (bytes "protocol:")
        then record rules { protocol = rules.protocol ++ trim_prefix v (bytes "protocol:") ∷ [] }
        else record rules { regexp = rules.regexp ++ trim_prefix v (bytes "regexp:") ∷ [] })
      vs

-- A route to a name server, or to the configuration of them all; no match at all is a panic.
unfoldable pub add_dns : RawDns → ℕ → Str → List Str → Option RawDns
add_dns dns i value [] = none
add_dns dns i value (m ∷ ms) =
    if str_beq m (bytes "main")
    then some (record dns { dns_json = concat_all ms })
    else some (record dns { dns_map = insert (print_int (pos i)) (value, m ∷ ms) dns.dns_map })

unfoldable pub add_route : Rules × RawDns → ℕ → Route → Option (Rules × RawDns)
add_route (rules, dns) i route = matches_of route.match_on >>= λ ms.
    if str_beq route.action (bytes "block")
    then some (add_rules rules ms, dns)
    else if str_beq route.action (bytes "dns")
    then (add_dns dns i route.action_value ms >>= λ dns'. some (rules, dns'))
    else some (rules, dns)

-- The loop over the routes, from the i-th on.
unfoldable pub add_routes : Rules × RawDns → ℕ → List Route → Option (Rules × RawDns)
add_routes parsed i [] = some parsed
add_routes parsed i (r ∷ rs) = add_route parsed i r >>= λ next. add_routes next (suc i) rs

-- The NodeInfo that the code starts from.
abbrev pub new_node : Client → Option CommonNode → NodeInfo
new_node c common = record {
  id = c.node_id;
  type = c.node_type;
  protocol = [];
  security = pos 0;
  push_interval = pos 0;
  pull_interval = pos 0;
  raw_dns = record { dns_map = []; dns_json = [] };
  rules = record { regexp = []; protocol = [] };
  config = [];
  settings = none;
  common = common;
  basic = none;
}

-- Both intervals of a node; a missing record of them is a panic.
abbrev pub intervals : Option BaseConfig → Option (ℤ × ℤ)
intervals none = none
intervals (some b) = interval_to_time b.push_interval >>= λ push.
    (interval_to_time b.pull_interval >>= λ pull. some (push, pull))

-- The part for other panels than ppanel, behind the switch on the type.
unfoldable pub finish_default : Client → Settings × ℤ → Option (Reply NodeInfo)
finish_default c (settings, security) =
    let start = new_node c none in
    let cm = common_of settings in
    let cleared = record cm { routes = []; base_config = none } in
    add_routes (start.rules, start.raw_dns) 0 cm.routes >>= λ routed.
    (intervals cm.base_config >>= λ times. some (
      Reply.answer (record start {
        security = security;
        rules = routed.0;
        raw_dns = routed.1;
        push_interval = times.0;
        pull_interval = times.1;
        settings = some (with_common cleared settings);
        common = some cleared;
      })))

unfoldable pub parse_default : NodeJson → Client → Str → Option (Reply NodeInfo)
parse_default json c body = default_settings json c.node_type body >>= λ found. elim found [
  | Reply.failed ↦ some Reply.failed
  | Reply.unchanged ↦ some Reply.unchanged
  | Reply.answer x ↦ finish_default c x
]

-- The record of an empty `Common`.
abbrev pub empty_common : CommonNode
empty_common = record {
  host = [];
  server_port = pos 0;
  server_name = [];
  routes = [];
  base_config = none;
}

-- The part for ppanel.
unfoldable pub parse_ppanel : NodeJson → Client → Str → Option (Reply NodeInfo)
parse_ppanel json c body = elim (json.node (new_node c (some empty_common)) body) [
  | none ↦ some Reply.failed
  | some node ↦ intervals node.basic >>= λ times. some (elim (ppanel_settings json node) [
    | Reply.failed ↦ Reply.failed
    | Reply.unchanged ↦ Reply.unchanged
    | Reply.answer x ↦ Reply.answer (record node {
      push_interval = times.0;
      pull_interval = times.1;
      type = node.protocol;
      settings = some x.0;
      security = x.1;
    })
  ])
]
