-- ===== src/Api/Report.antt =====
-- api/panel/user.go and api/panel/node.go: what the client reports to its panel. A flag is the error.
pub mod Order
pub mod Online
use yav2bx.Base.{
  ℕ, ◌*◌, Bool, true, false, not, ◌&&◌, ◌||◌, List, [], ◌∷◌, Option, none, some, nat_beq, length,
  if◌then◌else◌,
}
use yav2bx.Int.{ℤ, pos, lt_ℤ}
use yav2bx.Keys.{Str, str_eq, str_beq, int_eq}
use yav2bx.Maps.{Map, lookup, insert}
use yav2bx.Panel.{UserInfo, UserTraffic, Client}
use yav2bx.Text.{bytes, print_int}
use yav2bx.Api.{
  NodeStatus, PushStatus, Payload, traffic_list, traffic_map, ips, alive_ips, report, push_status,
  status, Request, Answer, answered, failed, Panel, send, request, is_ppanel,
}

-- The loop over the paths that ends at the first one that takes the body; lastErr starts as nil.
unfoldable pub try_paths : Panel → Payload → List Str → Bool → List Request → List Request × Bool
try_paths panel body [] last_err sent = (sent, last_err)
try_paths panel body (path ∷ paths) last_err sent =
    let tried = request panel (record { path = path; body = body }) sent in
    let rest = try_paths panel body paths true tried.0 in if tried.1 then rest else (tried.0, false)

-- The loop that copies the traffic without its key.
unfoldable pub copy_traffic : List UserTraffic → List UserTraffic
copy_traffic [] = []
copy_traffic (t ∷ ts) = record t { key = [] } ∷ copy_traffic ts

-- The loop that collects the traffic under the users' ids, or under their keys.
unfoldable pub collect_data : Map Str (ℤ × ℤ) → List UserTraffic → Map Str (ℤ × ℤ)
collect_data m [] = m
collect_data m (t ∷ ts) =
    let key = if str_beq t.key [] then print_int t.uid else t.key in
    collect_data (insert key (t.upload, t.download) m) ts

abbrev pub push_paths : List Str
push_paths =
    bytes "/api/v1/server/UniProxy/push"
    ∷ bytes "/api/v2/server/push"
    ∷ bytes "/api/v1/server/push"
    ∷ []

-- ReportUserTraffic
unfoldable pub report_user_traffic :
    Panel → Client → List UserTraffic → List Request → List Request × Bool
report_user_traffic panel c traffic sent =
    if is_ppanel c
    then request panel
        (record { path = bytes "/v1/server/push"; body = traffic_list (copy_traffic traffic) }) sent
    else try_paths panel (traffic_map (collect_data [] traffic)) push_paths false sent

-- The loops of ReportNodeOnlineUsers: idPayload with onlinePayload, uidToUUID and mixedPayload.
unfoldable pub id_payload : Map ℤ (List Str) → Map Str (List Str)
id_payload [] = []
id_payload ((uid, []) ∷ payload) = id_payload payload
id_payload ((uid, ip ∷ more) ∷ payload) = insert (print_int uid) (ip ∷ more) (id_payload payload)

unfoldable pub online_payload : Map ℤ (List Str) → Map Str ℕ
online_payload [] = []
online_payload ((uid, []) ∷ payload) = online_payload payload
online_payload ((uid, ip ∷ more) ∷ payload) =
    insert (print_int uid) (length (ip ∷ more)) (online_payload payload)

unfoldable pub uid_to_uuid : Map ℤ Str → List UserInfo → Map ℤ Str
uid_to_uuid m [] = m
uid_to_uuid m (u ∷ us) =
    uid_to_uuid (if lt_ℤ (pos 0) u.id && not (str_beq u.uuid []) then insert u.id u.uuid m else m)
      us

unfoldable pub mixed_payload :
    Map ℤ Str → Map Str (List Str) → Map ℤ (List Str) → Map Str (List Str)
mixed_payload uuids m [] = m
mixed_payload uuids m ((uid, addresses) ∷ payload) =
    mixed_payload uuids (elim (lookup uid uuids) [ none ↦ m | some uuid ↦ insert uuid addresses m ])
      payload

-- The two or four bodies that are tried at one path; `goes_on` is what follows when none is taken.
unfoldable pub post_bodies :
    Panel
    → Str
    → Map Str (List Str)
    → Map Str (List Str)
    → (List Request → List Request × Bool)
    → List Request
    → List Request × Bool
post_bodies panel path by_id mixed goes_on sent =
    let r1 = request panel (record { path = path; body = ips by_id }) sent in
    let r2 = request panel (record { path = path; body = alive_ips by_id }) r1.0 in
    let r3 = request panel (record { path = path; body = ips mixed }) r2.0 in
    let r4 = request panel (record { path = path; body = alive_ips mixed }) r3.0 in
    if not r1.1
    then (r1.0, false)
    else if not r2.1
    then (r2.0, false)
    else if nat_beq (length mixed) (length by_id)
    then goes_on r2.0
    else if not r3.1
    then (r3.0, false)
    else if not r4.1
    then (r4.0, false)
    else goes_on r4.0

-- The loop over the paths; every failed path leaves lastErr set.
unfoldable pub online_paths_loop :
    Panel
    → Map Str (List Str)
    → Map Str (List Str)
    → List Str
    → Bool
    → List Request
    → List Request × Bool
online_paths_loop panel by_id mixed [] last_err sent = (sent, last_err)
online_paths_loop panel by_id mixed (path ∷ paths) last_err sent =
    post_bodies panel path by_id mixed (online_paths_loop panel by_id mixed paths true) sent

abbrev pub online_paths : List Str
online_paths =
    bytes "/api/v1/server/UniProxy/alive"
    ∷ bytes "/api/v2/server/alive"
    ∷ bytes "/api/v1/server/online"
    ∷ bytes "/api/v2/server/online"
    ∷ []

-- ReportNodeOnlineUsers; a nil pointer is an empty map.
unfoldable pub report_node_online_users :
    Panel → Client → Map ℤ (List Str) → List Request → List Request × Bool
report_node_online_users panel c payload sent =
    let by_id = id_payload payload in
    let mixed = mixed_payload (uid_to_uuid [] c.user_list) by_id payload in
    let first =
      request panel
        (record {
          path = bytes "/api/v2/server/report";
          body = report by_id (online_payload payload);
        })
        sent in
    if is_ppanel c
    then post_bodies panel (bytes "/v1/server/online") by_id mixed (λ s. (s, true)) sent
    else if not first.1
    then (first.0, false)
    else online_paths_loop panel by_id mixed online_paths false first.0

abbrev pub status_paths : List Str
status_paths = bytes "/api/v1/server/UniProxy/status" ∷ bytes "/api/v2/server/status" ∷ []

-- Whether a request has an error of its own, whatever its status.
abbrev pub is_error : Answer → Bool
is_error (answered r) = false
is_error (failed r) = true

-- ReportNodeStatus; the time is in milliseconds.
unfoldable pub report_node_status :
    Panel → Client → NodeStatus → ℕ → List Request → List Request × Bool
report_node_status panel c st now sent =
    let pushed =
      send panel
        (record {
          path = bytes "/v1/server/status";
          body =
              push_status (record { cpu = st.cpu; mem = st.mem; disk = st.disk; updated_at = now });
        })
        sent in
    if is_ppanel c
    then (pushed.0, is_error pushed.1)
    else try_paths panel (status st) status_paths false sent
