-- ===== src/Hy2.antt =====
-- core/hy2/hook.go and core/hy2/user.go: the users and the traffic of the hysteria2 core. The library
-- of hysteria calls Authenticate and LogTraffic. AddUsers and DelUsers change the map in a goroutine
-- for each user, under a mutex; here they run in the order of the list. `none` is a nil pointer.
pub mod Collect
pub mod Logger
use yav2bx.Base.{ℕ, Bool, true, false, List, [], ◌∷◌, Option, none, some, if◌then◌else◌, length}
use yav2bx.Int.{ℤ, pos, wrap64}
use yav2bx.Keys.{Str, str_eq}
use yav2bx.Maps.{Map, lookup, insert, erase}
use yav2bx.Panel.{UserInfo, user_tag}
use yav2bx.Limiter.{Limiter, get_limiter}
use yav2bx.Counter.{
  TrafficCounter, new_traffic_counter, get_up_count, get_down_count, reset, rx, tx,
}

pub record HookServer : Type 0 where
  pub tag : Str
  pub counter : Map Str TrafficCounter

-- The authenticator's users: the ids by uuid.
abbrev pub Users : Type 0
Users = Map Str ℤ

-- Authenticate
unfoldable pub authenticate : Users → Str → Bool × Str
authenticate users auth = elim (lookup auth users) [ none ↦ (false, []) | some _ ↦ (true, auth) ]

-- The loops of AddUsers and DelUsers; AddUsers also gives the number of its users.
unfoldable pub store_users : List UserInfo → Users → Users
store_users [] users = users
store_users (u ∷ us) users = store_users us (insert u.uuid u.id users)

unfoldable pub remove_users : List UserInfo → Users → Users
remove_users [] users = users
remove_users (u ∷ us) users = remove_users us (erase u.uuid users)

abbrev pub add_users : List UserInfo → Users → Users × ℕ
add_users us users = (store_users us users, length us)

-- Go's conversion of a uint64 to an int
abbrev pub as_int : ℕ → ℤ
as_int n = wrap64 (pos n)

-- The counter of the hook's tag, which LogTraffic makes if it is missing.
abbrev pub counter_of : HookServer → TrafficCounter
counter_of h = elim (lookup h.tag h.counter) [ none ↦ new_traffic_counter | some c ↦ c ]

-- The end of LogTraffic
unfoldable pub count_traffic : HookServer → Str → ℕ → ℕ → HookServer
count_traffic h id sent received = record h {
  counter = insert h.tag (tx (rx (counter_of h) id (as_int received)) id (as_int sent)) h.counter;
}

module _ {Regexp Bucket : Type 0} where
  -- LogTraffic: the registry of the limiters, the hook, and whether the connection may go on.
  unfoldable pub log_traffic :
      Map Str (Limiter Regexp Bucket)
      → HookServer
      → Str
      → ℕ
      → ℕ
      → Map Str (Limiter Regexp Bucket) × HookServer × Bool
  log_traffic registry h id sent received = elim (get_limiter h.tag registry) [
    | none ↦ (registry, h, false)
    | some l ↦ elim (lookup (user_tag h.tag id) l.user_limit_info) [
      | none ↦ (registry, count_traffic h id sent received, true)
      | some u ↦
          let cleared = record l {
            user_limit_info =
                insert (user_tag h.tag id) (record u { over_limit = false }) l.user_limit_info;
          } in
          if u.over_limit
          then (insert h.tag cleared registry, h, false)
          else (registry, count_traffic h id sent received, true)
    ]
  ]

-- GetUserTraffic, on the hooks of the nodes: the hooks, and the two counts.
unfoldable pub get_user_traffic :
    Map Str HookServer → Str → Str → Bool → Option (Map Str HookServer × (ℤ × ℤ))
get_user_traffic nodes tag uuid resets = elim (lookup tag nodes) [
  | none ↦ none
  | some h ↦ elim (lookup tag h.counter) [
    | none ↦ some (nodes, (pos 0, pos 0))
    | some c ↦
        let kept : HookServer =
          if resets then record h { counter = insert tag (reset c uuid) h.counter } else h in
        some (insert tag kept nodes, (get_up_count c uuid, get_down_count c uuid))
  ]
]
