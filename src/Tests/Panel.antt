-- ===== src/Tests/Panel.antt =====
-- Tests of api/panel and conf/watch.go.
use yav2bx.Base.{
  ap, ◌>>=◌, ◌+◌, ◌≡◌, ◌≢◌, refl, true, false, [], ◌∷◌, List, Option, none, some, arith,
  if◌then◌else◌, Ensures,
}
use yav2bx.Int.{pos}
use yav2bx.Keys.{Str, str_eq, str_beq}
use yav2bx.Maps.{Map, lookup}
use yav2bx.Panel.{Reply, Rules, UserInfo}
use yav2bx.Protocol.{Match, Route, RawDns}
use yav2bx.Text.{bytes}
use yav2bx.Api.{Payload, Response, Answer, Panel}
use yav2bx.Api.Attempts.{first_accepted}
use yav2bx.Api.Report.{report_node_online_users}
use yav2bx.Api.Report.Order.{online_attempts, report_node_online_users-first_accepted}
use yav2bx.Api.Alive.{AliveJson, IsNested, decode_alive_map, decode_alive_map_ends}
use yav2bx.Api.Users.{get_user_list}
use yav2bx.Api.Cache.{Serves, Fetched, get_user_list-Coherent}
use yav2bx.Api.Nodes.{get_node_info}
use yav2bx.Api.Nodes.Select.{NodeJson}
use yav2bx.Api.Nodes.Parse.{matches_of, add_routes}
use yav2bx.Api.Nodes.Routes.{IsReadable, blocked, extend, add_routes-extend}
use yav2bx.Api.Nodes.Repeat.{get_node_info_repeat}
use yav2bx.Conf.Watch.{Event, Spaced, ten_seconds, five_seconds, watch, watch-Spaced}
use yav2bx.Tests.Connections.{alice, home, work}
use yav2bx.Tests.Limits.{alice_user}
use yav2bx.Tests.Nodes.{client}

-- A panel that is broken.
abbrev refusal : Response
refusal = record { has_raw = true; status_code = 500; body = home; etag = work }

abbrev pub broken : Panel
broken sent r = Answer.answered refusal

report_node_online_users-first_accepted_example :
    report_node_online_users broken client ((pos 7, home ∷ []) ∷ []) []
    ≡ first_accepted broken (online_attempts client ((pos 7, home ∷ []) ∷ [])) []
report_node_online_users-first_accepted_example =
    report_node_online_users-first_accepted broken client ((pos 7, home ∷ []) ∷ []) []

-- Texts that are objects: each has the text behind its first byte under `alive`.
abbrev nested : Str → Option (Map Str Str)
nested [] = none
nested (b ∷ s) = some ((bytes "alive", s) ∷ [])

abbrev alive_json : AliveJson
alive_json = record {
  wrapped = λ s. none;
  direct_int = λ s. none;
  direct_str = λ s. none;
  direct_any = λ s. none;
  payload = nested;
}

alive_json-IsNested : IsNested alive_json
unfolding lookup
alive_json-IsNested [] fields key raw q h = cc
alive_json-IsNested (b ∷ s) fields key raw q h =
    ground (arith, ap (λ o. o >>= λ m. lookup key m) q, h)

decode_alive_map_ends_example : decode_alive_map alive_json 3 (bytes "ab") ≢ none
decode_alive_map_ends_example =
    decode_alive_map_ends alive_json 3 (bytes "ab") alive_json-IsNested (omega arith)

-- A panel with one list of users, and Alice's uuid for its ETag.
abbrev decode : Str → Option (List UserInfo)
decode s = some (alice_user ∷ [])

abbrev etag : List UserInfo → Str
etag [] = []
etag (u ∷ us) = u.uuid

abbrev known_by : Payload → Str
known_by p = elim p [ Payload.get_unless known ↦ known | _ ↦ [] ]

abbrev serving : Panel
serving sent r = Answer.answered (record {
  has_raw = true;
  status_code = if str_beq (known_by r.body) alice then 304 else 200;
  body = home;
  etag = alice;
})

serving-Serves : Serves decode etag serving (alice_user ∷ [])
serving-Serves sent path known =
    (λ q. (_, refl, refl, rw q refl), λ q. (_, refl, refl, rw q refl, refl, refl))

get_user_list-Coherent_example :
    Fetched decode etag (alice_user ∷ []) client (get_user_list decode serving (client, []))
get_user_list-Coherent_example =
    get_user_list-Coherent decode etag serving (alice_user ∷ []) client [] (λ q. cc) (λ q. cc)
      serving-Serves (λ q. absurd (q refl))

-- A route that blocks a protocol and a domain.
abbrev blocking : Route
blocking = record {
  id = pos 1;
  match_on = Match.texts (bytes "protocol:bt" ∷ bytes "regexp:ads" ∷ []);
  action = bytes "block";
  action_value = [];
}

abbrev no_rules : Rules
no_rules = record { regexp = []; protocol = [] }

abbrev no_dns : RawDns
no_dns = record { dns_map = []; dns_json = [] }

blocking-IsReadable : IsReadable blocking
unfolding matches_of
blocking-IsReadable = (λ q. cc, λ q. cc)

add_routes-extend_example :
    Ensures
      (λ parsed. parsed.0 ≡ extend no_rules (blocked (blocking ∷ [])))
      (add_routes (no_rules, no_dns) 0 (blocking ∷ []))
add_routes-extend_example =
    add_routes-extend (blocking ∷ []) no_rules no_dns 0 (blocking-IsReadable, tt)

abbrev node_json : NodeJson
node_json = record {
  vallss = λ s. none;
  shadowsocks = λ s. none;
  trojan = λ s. none;
  tuic = λ s. none;
  anytls = λ s. none;
  naive = λ s. none;
  hysteria = λ s. none;
  hysteria2 = λ s. none;
  node = λ n s. none;
}

abbrev digest : Str → Str
digest s = s

digest-new : str_beq client.response_body_hash (digest refusal.body) ≡ false
unfolding str_beq
digest-new = refl

get_node_info_repeat_example :
    Ensures
      (λ first.
        (first.1 ≡ Reply.failed)
        × Ensures
            (λ second. second.1 ≡ Reply.unchanged)
            (get_node_info node_json digest broken first.0))
      (get_node_info node_json digest broken (client, []))
get_node_info_repeat_example =
    get_node_info_repeat node_json digest broken client [] refusal refusal refl refl digest-new refl
      refl

-- Two events within ten seconds, and one later.
abbrev events : List Event
events =
    record { time = 11_000_000_000; chmod = false }
    ∷ record { time = 12_000_000_000; chmod = false }
    ∷ record { time = 30_000_000_000; chmod = false }
    ∷ []

watch-Spaced_example : Spaced (0 + ten_seconds + five_seconds) (watch (some 0) events)
watch-Spaced_example = watch-Spaced 0 events
