-- ===== src/Node/Sync.antt =====
-- node/user.go and node/online.go: what a node reports of its online users. `sort` orders by
-- insertion; sort.Slice is called on lists without equal entries, so their order is the only one.
pub mod Dedupe
pub mod Payload
pub mod Listed
use yav2bx.Base.{
  ℕ, suc, ◌+◌, ◌≡◌, refl, Bool, true, false, not, ◌&&◌, ◌||◌, List, [], ◌∷◌, ◌++◌, map, Option,
  none, some, arith, ltb, nat_beq, if◌then◌else◌,
}
use yav2bx.Int.{ℤ, pos, ◌+ℤ◌, lt_ℤ, eq_ℤ, wrap64, scale}
use yav2bx.Keys.{Str, str_eq, str_beq, int_eq, pair_eq}
use yav2bx.Maps.{Map, lookup, insert}
use yav2bx.Panel.{Client, UserInfo, OnlineUser, UserTraffic, LimitConfig, normalize_ip}
use yav2bx.Limiter.{Limiter, set_alive_list}
use yav2bx.Limiter.Online.{get_online_device, get_online_ip_map, append_ip}
use yav2bx.Node.{Options, Core, Controller}
use yav2bx.Node.Traffic.{add_traffic, dynamic_speed_limit_enabled}
use yav2bx.Node.Speed.{ppanel, with_limiter}

-- The order of Go's strings, by bytes.
unfoldable pub str_lt : Str → Str → Bool
str_lt s [] = false
str_lt [] (y ∷ ys) = true
str_lt (x ∷ xs) (y ∷ ys) = ltb x y || (nat_beq x y && str_lt xs ys)

module _ {ℓ} {A : Type ℓ} (less : A → A → Bool) where
  unfoldable pub insert_sorted : A → List A → List A
  insert_sorted x [] = x ∷ []
  insert_sorted x (y ∷ ys) =
      let rest = insert_sorted x ys in if less y x then y ∷ rest else x ∷ y ∷ ys

  unfoldable pub sort : List A → List A
  sort [] = []
  sort (x ∷ xs) = insert_sorted x (sort xs)

abbrev pub online_less : OnlineUser → OnlineUser → Bool
online_less a b = if not (eq_ℤ a.uid b.uid) then lt_ℤ a.uid b.uid else str_lt a.ip b.ip

-- The map `seen`, from onlineKey.
abbrev pub Seen : Type 0
Seen = Map {0, 0} (ℤ × Str) Unit

abbrev pub has_seen : ℤ × Str → Seen → Bool
has_seen key seen = elim (lookup key seen) [ none ↦ false | some _ ↦ true ]

-- The loop of dedupeOnlineUsersByIP.
unfoldable pub dedupe_online_users : Seen → List OnlineUser → List OnlineUser
dedupe_online_users seen [] = []
dedupe_online_users seen (u ∷ us) =
    let ip = normalize_ip u.ip in
    let fresh = not (str_beq ip []) && not (has_seen (u.uid, ip) seen) in
    let rest = dedupe_online_users (if fresh then insert (u.uid, ip) tt seen else seen) us in
    if fresh then record { uid = u.uid; ip = ip } ∷ rest else rest

-- dedupeOnlineUsersByIP
unfoldable pub dedupe_online_users_by_ip : List OnlineUser → List OnlineUser
dedupe_online_users_by_ip users = sort online_less (dedupe_online_users [] users)

-- The loops of dedupeOnlineIPMapByIP: over the addresses of a user, and over the users.
unfoldable pub dedupe_ips : ℤ → List Str → Seen × Map ℤ (List Str) → Seen × Map ℤ (List Str)
dedupe_ips uid [] r = r
dedupe_ips uid (raw ∷ ips) r =
    let ip = normalize_ip raw in
    let fresh = not (str_beq ip []) && not (has_seen (uid, ip) r.0) in
    dedupe_ips uid ips (if fresh then (insert (uid, ip) tt r.0, append_ip uid ip r.1) else r)

unfoldable pub dedupe_uids :
    Map ℤ (List Str) → List ℤ → Seen × Map ℤ (List Str) → Seen × Map ℤ (List Str)
dedupe_uids by_uid [] r = r
dedupe_uids by_uid (uid ∷ uids) r =
    dedupe_uids by_uid uids
      (dedupe_ips uid (elim (lookup uid by_uid) [ none ↦ [] | some ips ↦ ips ]) r)

-- dedupeOnlineIPMapByIP
unfoldable pub dedupe_online_ip_map_by_ip : Map ℤ (List Str) → Map ℤ (List Str)
dedupe_online_ip_map_by_ip by_uid =
    map (λ e. (e.0, sort str_lt e.1))
      (dedupe_uids by_uid (sort lt_ℤ (map (λ e. e.0) by_uid)) ([], [])).1

-- The loop of buildOnlineIPMapPayload.
unfoldable pub drop_empty : Map ℤ (List Str) → Map ℤ (List Str)
drop_empty [] = []
drop_empty ((uid, []) ∷ m) = drop_empty m
drop_empty ((uid, ip ∷ ips) ∷ m) = (uid, ip ∷ ips) ∷ drop_empty m

-- buildOnlineIPMapPayload
unfoldable pub build_online_ip_map_payload : Map ℤ (List Str) → Map ℤ (List Str)
build_online_ip_map_payload by_uid = drop_empty (dedupe_online_ip_map_by_ip by_uid)

-- The loop of buildOnlineIPPayload.
unfoldable pub group_ips : Map ℤ (List Str) → List OnlineUser → Map ℤ (List Str)
group_ips m [] = m
group_ips m (u ∷ us) = group_ips (if str_beq u.ip [] then m else append_ip u.uid u.ip m) us

-- buildOnlineIPPayload
unfoldable pub build_online_ip_payload : List OnlineUser → Map ℤ (List Str)
build_online_ip_payload users = build_online_ip_map_payload (group_ips [] users)

-- The loop that marks the users with too little traffic, and the one that drops them.
unfoldable pub too_little : ℤ → List UserTraffic → List ℤ
too_little floor [] = []
too_little floor (t ∷ ts) =
    let rest = too_little floor ts in
    if lt_ℤ (wrap64 (t.upload +ℤ t.download)) floor then t.uid ∷ rest else rest

abbrev pub has_uid : ℤ → List ℤ → Bool
has_uid uid [] = false
has_uid uid (x ∷ xs) = eq_ℤ x uid || has_uid uid xs

unfoldable pub drop_uids : List ℤ → List OnlineUser → List OnlineUser
drop_uids uids [] = []
drop_uids uids (o ∷ os) =
    let rest = drop_uids uids os in if has_uid o.uid uids then rest else o ∷ rest

-- The filter of reportUserTrafficTask.
unfoldable pub filter_online :
    Client → Options → List UserTraffic → List OnlineUser → List OnlineUser
filter_online client o traffic online =
    if str_beq client.panel_type ppanel && lt_ℤ (pos 0) o.device_online_min_traffic
    then drop_uids (too_little (wrap64 (scale o.device_online_min_traffic 1000)) traffic) online
    else online
