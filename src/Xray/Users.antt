-- ===== src/Xray/Users.antt =====
-- core/xray/user.go and online.go: the users of a node, their traffic and who is online. The manager of
-- an inbound's users is an argument, with its state; the statistics are the counters and the online
-- maps, by their names. `none` is a panic, and in a result of the manager an error.
use yav2bx.Base.{
  ℕ, Bool, true, false, not, ◌&&◌, ◌||◌, List, [], ◌∷◌, ◌++◌, map, length, Option, none, some,
  if◌then◌else◌, ◌>>=◌,
}
use yav2bx.Int.{ℤ, pos}
use yav2bx.Keys.{Str, str_eq, str_beq, int_eq}
use yav2bx.Maps.{Map, lookup, insert, erase}
use yav2bx.Panel.{UserInfo, OnlineUser, user_tag, normalize_ip}
use yav2bx.Text.{bytes}
use yav2bx.Protocol.{Settings}
use yav2bx.Node.{NodeInfo}
use yav2bx.Node.Sync.{sort, online_less}
use yav2bx.Limiter.Online.{append_ip}
use yav2bx.Xray.{online_name, uplink_name, downlink_name}
use yav2bx.Xray.Accounts.{
  User, build_vmess_user, build_vless_user, build_trojan_user, build_ss_users,
  resolve_vless_outbound_encryption,
}

pub record StatsState : Type 0 where
  pub counters : Map Str ℤ
  pub online : Map Str (List Str)

-- GetUserManager's result for a tag, on the state of the inbounds: AddUser behind ToMemoryUser, and
-- RemoveUser. `none` is an error.
pub record UserManager (S : Type 0) : Type 0 where
  pub is_there : Str → S → Bool
  pub add : Str → User → S → Option S
  pub remove : Str → Str → S → Option S

-- GetUserTraffic: the values of the user's two counters, which it sets to 0 if it resets.
abbrev pub value_of : Str → StatsState → ℤ
value_of name stats = elim (lookup name stats.counters) [ none ↦ pos 0 | some n ↦ n ]

abbrev pub clear_counter : Str → Map Str ℤ → Map Str ℤ
clear_counter name counters = elim (lookup name counters) [
  | none ↦ counters
  | some _ ↦ insert name (pos 0) counters
]

unfoldable pub get_user_traffic : Str → Str → Bool → StatsState → StatsState × (ℤ × ℤ)
get_user_traffic tag uuid reset stats =
    let up = uplink_name (user_tag tag uuid) in
    let down = downlink_name (user_tag tag uuid) in
    let cleared = clear_counter down (clear_counter up stats.counters) in
    (
      if reset then record stats { counters = cleared } else stats,
      (value_of up stats, value_of down stats),
    )

-- The statistics without those of a user.
unfoldable pub unregister : Str → StatsState → StatsState
unregister email stats = record {
  counters = erase (downlink_name email) (erase (uplink_name email) stats.counters);
  online = erase (online_name email) stats.online;
}

-- The accounts that AddUsers builds; a node without the record of its type panics, and the inner
-- `none` is an unsupported type.
unfoldable pub build_users :
    (Str → Str) → (Str → Option ℕ) → Str → List UserInfo → NodeInfo → Option (Option (List User))
build_users encode decoded_length tag users node =
    let is = λ (s : Str). str_beq node.type s in
    if is (bytes "vmess")
    then some (some (map (build_vmess_user tag) users))
    else if is (bytes "vless")
    then elim node.settings [
      | some (Settings.vallss v) ↦ some (
          some (
            map
              (build_vless_user tag v.flow
                (resolve_vless_outbound_encryption decoded_length (some v)))
              users))
      | _ ↦ none
    ]
    else if is (bytes "trojan")
    then some (some (map (build_trojan_user tag) users))
    else if is (bytes "shadowsocks")
    then elim node.settings [
      | some (Settings.shadowsocks k) ↦
          build_ss_users encode tag k.cipher k.server_key users >>= λ us. some (some us)
      | _ ↦ none
    ]
    else some none

module _ {S : Type 0} where
  -- The loop of DelUsers, which ends at the first error; the flag is the error.
  unfoldable pub remove_all :
      UserManager S → Str → List UserInfo → S × StatsState → (S × StatsState) × Bool
  remove_all man tag [] s = (s, false)
  remove_all man tag (u ∷ us) (s, stats) = elim (man.remove tag (user_tag tag u.uuid) s) [
    | none ↦ ((s, stats), true)
    | some s' ↦ remove_all man tag us (s', unregister (user_tag tag u.uuid) stats)
  ]

  unfoldable pub del_users :
      UserManager S → List UserInfo → Str → S × StatsState → (S × StatsState) × Bool
  del_users man users tag (s, stats) =
      if man.is_there tag s then remove_all man tag users (s, stats) else ((s, stats), true)

  -- The loop of AddUsers; `none` is the error.
  unfoldable pub add_all : UserManager S → Str → List User → S → S × Bool
  add_all man tag [] s = (s, false)
  add_all man tag (u ∷ us) s = elim (man.add tag u s) [
    | none ↦ (s, true)
    | some s' ↦ add_all man tag us s'
  ]

  -- AddUsers: the number of users, or `none` for an error.
  unfoldable pub add_users :
      UserManager S
      → (Str → Str)
      → (Str → Option ℕ)
      → Str
      → List UserInfo
      → NodeInfo
      → S
      → Option (S × Option ℕ)
  add_users man encode decoded_length tag users node s =
      build_users encode decoded_length tag users node >>= λ built. some (elim built [
        | none ↦ (s, none)
        | some us ↦
            let r = add_all man tag us s in
            if not (man.is_there tag s)
            then (s, none)
            else (r.0, (if r.1 then none else some (length us)))
      ])

-- The loop over the addresses of a user in GetOnlineUsers.
abbrev pub has_seen_ip : Str → List Str → Bool
has_seen_ip ip [] = false
has_seen_ip ip (x ∷ xs) = str_beq x ip || has_seen_ip ip xs

unfoldable pub online_ips : ℤ → List Str → List Str → List OnlineUser
online_ips uid seen [] = []
online_ips uid seen (raw ∷ ips) =
    let ip = normalize_ip raw in
    let fresh = not (str_beq ip []) && not (has_seen_ip ip seen) in
    let rest = online_ips uid (if fresh then ip ∷ seen else seen) ips in
    if fresh then record { uid = uid; ip = ip } ∷ rest else rest

unfoldable pub online_of_users : StatsState → Str → List UserInfo → List OnlineUser
online_of_users stats tag [] = []
online_of_users stats tag (u ∷ us) =
    elim (lookup (online_name (user_tag tag u.uuid)) stats.online) [
      | none ↦ online_of_users stats tag us
      | some ips ↦ online_ips u.id [] ips ++ online_of_users stats tag us
    ]

-- GetOnlineUsers, with a statistics manager, and GetOnlineIPMap.
unfoldable pub get_online_users : StatsState → Str → List UserInfo → List OnlineUser
get_online_users stats tag users = sort online_less (online_of_users stats tag users)

unfoldable pub group_by_uid : Map ℤ (List Str) → List OnlineUser → Map ℤ (List Str)
group_by_uid m [] = m
group_by_uid m (u ∷ us) = group_by_uid (append_ip u.uid u.ip m) us

unfoldable pub get_online_ip_map : StatsState → Str → List UserInfo → Map ℤ (List Str)
get_online_ip_map stats tag users = group_by_uid [] (get_online_users stats tag users)
