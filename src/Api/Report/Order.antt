-- ===== src/Api/Report/Order.antt =====
-- api/panel: the reports try their requests in the order of the code, up to the first that the panel
-- accepts.
use yav2bx.Base.{
  ◌≡◌, refl, Bool, true, false, List, [], ◌∷◌, ◌++◌, map, length, nat_beq, if◌then◌else◌, arith,
  Bool-cases, inl, inr,
}
use yav2bx.Int.{ℤ}
use yav2bx.Keys.{Str}
use yav2bx.Maps.{Map}
use yav2bx.Panel.{Client, UserTraffic}
use yav2bx.Text.{bytes}
use yav2bx.Api.{
  Payload, ips, alive_ips, report, traffic_list, traffic_map, Request, Panel, request, is_ppanel,
}
use yav2bx.Api.Attempts.{first_accepted, first_accepted-append}
use yav2bx.Api.Report.{
  try_paths, post_bodies, online_paths_loop, online_paths, report_node_online_users, id_payload,
  online_payload, uid_to_uuid, mixed_payload, report_user_traffic, copy_traffic, collect_data,
  push_paths,
}

-- The same body at each path.
abbrev pub at_paths : Payload → List Str → List Request
at_paths body = map (λ path. record { path = path; body = body })

try_paths-first_accepted :
    (panel : Panel) (body : Payload) (paths : List Str) (sent : List Request)
    → try_paths panel body paths true sent ≡ first_accepted panel (at_paths body paths) sent
unfolding try_paths first_accepted
try_paths-first_accepted panel body [] sent = refl
try_paths-first_accepted panel body (p ∷ ps) sent = ground (
  arith,
  try_paths-first_accepted panel body ps (request panel (record { path = p; body = body }) sent).0,
)

-- A loop over at least one path has its last error from a path.
try_paths_start :
    (panel : Panel) (body : Payload) (p : Str) (ps : List Str) (sent : List Request)
    → try_paths panel body (p ∷ ps) false sent ≡ first_accepted panel (at_paths body (p ∷ ps)) sent
unfolding try_paths
try_paths_start panel body p ps sent = try_paths-first_accepted panel body (p ∷ ps) sent

-- The requests of one path.
abbrev pub bodies_at : Map Str (List Str) → Map Str (List Str) → Str → List Request
bodies_at by_id mixed path =
    record { path = path; body = ips by_id }
    ∷ record { path = path; body = alive_ips by_id }
    ∷ (if nat_beq (length mixed) (length by_id)
        then []
        else record { path = path; body = ips mixed }
          ∷ record { path = path; body = alive_ips mixed }
          ∷ [])

abbrev pub bodies_at_all : Map Str (List Str) → Map Str (List Str) → List Str → List Request
bodies_at_all by_id mixed [] = []
bodies_at_all by_id mixed (path ∷ paths) =
    bodies_at by_id mixed path ++ bodies_at_all by_id mixed paths

post_bodies-first_accepted :
    (panel : Panel) (path : Str) (by_id mixed : Map Str (List Str))
    (goes_on : List Request → List Request × Bool) (sent : List Request)
    → post_bodies panel path by_id mixed goes_on sent ≡ (
        let done = first_accepted panel (bodies_at by_id mixed path) sent in
        if done.1 then goes_on done.0 else (done.0, false))
unfolding post_bodies first_accepted
post_bodies-first_accepted panel path by_id mixed goes_on sent =
    elim (Bool-cases (nat_beq (length mixed) (length by_id))) [
      | inl q ↦ rw q (ground arith)
      | inr q ↦ rw q (ground arith)
    ]

online_paths_loop-first_accepted :
    (panel : Panel) (by_id mixed : Map Str (List Str)) (paths : List Str) (sent : List Request)
    → online_paths_loop panel by_id mixed paths true sent
      ≡ first_accepted panel (bodies_at_all by_id mixed paths) sent
unfolding online_paths_loop first_accepted
online_paths_loop-first_accepted panel by_id mixed [] sent = refl
online_paths_loop-first_accepted panel by_id mixed (p ∷ ps) sent =
    rw
      (
        post_bodies-first_accepted panel p by_id mixed,
        first_accepted-append panel (bodies_at by_id mixed p) (bodies_at_all by_id mixed ps) sent,
      )
      (ground (
        arith,
        online_paths_loop-first_accepted panel by_id mixed ps
            (first_accepted panel (bodies_at by_id mixed p) sent).0,
      ))

online_paths_loop_start :
    (panel : Panel) (by_id mixed : Map Str (List Str)) (p : Str) (ps : List Str)
    (sent : List Request)
    → online_paths_loop panel by_id mixed (p ∷ ps) false sent
      ≡ first_accepted panel (bodies_at_all by_id mixed (p ∷ ps)) sent
unfolding online_paths_loop
online_paths_loop_start panel by_id mixed p ps sent =
    online_paths_loop-first_accepted panel by_id mixed (p ∷ ps) sent

-- The requests of a report of traffic, and of one of online users.
abbrev pub traffic_attempts : Client → List UserTraffic → List Request
traffic_attempts c traffic =
    if is_ppanel c
    then record { path = bytes "/v1/server/push"; body = traffic_list (copy_traffic traffic) } ∷ []
    else at_paths (traffic_map (collect_data [] traffic)) push_paths

abbrev pub online_attempts : Client → Map ℤ (List Str) → List Request
online_attempts c payload =
    let by_id = id_payload payload in
    let mixed = mixed_payload (uid_to_uuid [] c.user_list) by_id payload in
    if is_ppanel c
    then bodies_at by_id mixed (bytes "/v1/server/online")
    else record {
      path = bytes "/api/v2/server/report";
      body = report by_id (online_payload payload);
    }
      ∷ bodies_at_all by_id mixed online_paths

-- ReportUserTraffic makes the requests of its list in order, up to the first that the panel accepts,
-- and gives an error exactly when the panel accepts none: one list of traffic for ppanel, and for
-- another panel the same map at each of three paths.
report_user_traffic-first_accepted :
    (panel : Panel) (c : Client) (traffic : List UserTraffic) (sent : List Request)
    → report_user_traffic panel c traffic sent
      ≡ first_accepted panel (traffic_attempts c traffic) sent
unfolding report_user_traffic first_accepted
report_user_traffic-first_accepted panel c traffic sent = elim (Bool-cases (is_ppanel c)) [
  | inl q ↦ rw q (ground arith)
  | inr q ↦ rw q (try_paths_start panel _ _ _ sent)
]

-- ReportNodeOnlineUsers makes the requests of its list in order, up to the first that the panel
-- accepts, and gives an error exactly when the panel accepts none. For another panel than ppanel the
-- list starts with the report of version 2; at each path it has the addresses by id, plain and
-- wrapped, and then those by id and uuid, unless these are as many.
pub report_node_online_users-first_accepted :
    (panel : Panel) (c : Client) (payload : Map ℤ (List Str)) (sent : List Request)
    → report_node_online_users panel c payload sent
      ≡ first_accepted panel (online_attempts c payload) sent
unfolding report_node_online_users first_accepted
report_node_online_users-first_accepted panel c payload sent = elim (Bool-cases (is_ppanel c)) [
  | inl q ↦ rw (q, post_bodies-first_accepted panel) (ground arith)
  | inr q ↦ rw (q, online_paths_loop_start panel) (ground arith)
]
