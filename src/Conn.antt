-- ===== src/Conn.antt =====
-- limiter/conn.go: the limits on a user's connections and addresses.
-- `counted n` is the `int` that the realtime mode stores for an address: 2 for each TCP connection,
-- and 1 if it was first seen on another protocol. `seen t` is the `time.Time` of the other mode, in
-- nanoseconds. `none` is the panic of a failed type assertion. One call reads the clock once.
pub mod Invariant
pub mod Release
pub mod Sweep
pub mod Decision
pub mod RoundTrip
pub mod Entries
pub mod Lockout
use yav2bx.Base.{
  ℕ, ◌+◌, ◌*◌, Bool, true, false, not, ◌&&◌, ◌||◌, [], ◌∷◌, Option, none, some, ltb, if◌then◌else◌,
  ◌>>=◌,
}
use yav2bx.Int.{ℤ, pos, ◌+ℤ◌, ◌-ℤ◌, lt_ℤ, le_ℤ, eq_ℤ}
use yav2bx.Keys.{Str, str_eq}
use yav2bx.Maps.{Map, lookup, insert, erase, refine}

-- nonRealtimeOnlineTTL, 5 minutes
abbrev pub non_realtime_online_ttl : ℕ
non_realtime_online_ttl = 5 * 60 * 1_000_000_000

pub data Online : Type 0 where
  counted : ℤ → Online
  seen : ℕ → Online

pub record ConnLimiter : Type 0 where
  pub realtime : Bool
  pub ip_limit : ℤ
  pub conn_limit : ℤ
  pub count : Map Str ℤ
  pub ip : Map Str (Map Str Online)

unfoldable pub new_conn_limiter : ℤ → ℤ → Bool → ConnLimiter
new_conn_limiter conn ip realtime = record {
  realtime = realtime;
  ip_limit = ip;
  conn_limit = conn;
  count = [];
  ip = [];
}

-- the type assertion `v.(int)`
abbrev pub as_count : Online → Option ℤ
as_count (counted n) = some n
as_count (seen t) = none

-- The block on `connLimit`: whether it rejects, and the counts behind it.
unfoldable pub add_count : ConnLimiter → Str → Bool → Bool × Map Str ℤ
add_count c user is_tcp =
    if eq_ℤ c.conn_limit (pos 0) then (false, c.count) else elim (lookup user c.count) [
      | some v ↦
          if le_ℤ c.conn_limit v
          then (true, c.count)
          else if is_tcp
          then (false, insert user (v +ℤ pos 1) c.count)
          else (false, c.count)
      | none ↦ if is_tcp then (false, insert user (pos 1) c.count) else (false, c.count)
    ]

-- What a new address starts with.
unfoldable pub first_entry : ConnLimiter → Bool → ℕ → Online
first_entry c is_tcp now =
    if c.realtime then (if is_tcp then counted (pos 2) else counted (pos 1)) else seen now

-- A further connection of an address that is online.
unfoldable pub touch :
    ConnLimiter → Map Str Online → Str → Bool → ℕ → Online → Option (Map Str Online)
touch c ips ip is_tcp now online =
    if c.realtime
    then (if is_tcp
        then (as_count online >>= λ n. some (insert ip (counted (n +ℤ pos 2)) ips))
        else some ips)
    else some (insert ip (seen now) ips)

-- The `Range` that counts addresses from `cn` until it meets the limit.
unfoldable pub range_limit : ℤ → ℤ → Map Str Online → Bool
range_limit limit cn [] = false
range_limit limit cn (_ ∷ ips) =
    if le_ℤ limit (cn +ℤ pos 1) then true else range_limit limit (cn +ℤ pos 1) ips

unfoldable pub over_ip_limit : ConnLimiter → Map Str Online → Bool
over_ip_limit c ips = lt_ℤ (pos 0) c.ip_limit && range_limit c.ip_limit (pos 0) ips

-- The user's addresses behind the call, and whether it rejects.
unfoldable pub add_ip :
    ConnLimiter → Map Str Online → Str → Bool → ℕ → Option (Map Str Online × Bool)
add_ip c ips ip is_tcp now = elim (lookup ip ips) [
  | some online ↦ touch c ips ip is_tcp now online >>= λ ips'. some (ips', false)
  | none ↦
      if over_ip_limit c ips
      then some (ips, true)
      else some (insert ip (first_entry c is_tcp now) ips, false)
]

-- The second half of AddConnCount: the `LoadOrStore` of the user's addresses.
unfoldable pub add_online : ConnLimiter → Str → Str → Bool → ℕ → Option (ConnLimiter × Bool)
add_online c user ip is_tcp now = elim (lookup user c.ip) [
  | none ↦ some (record c { ip = insert user ((ip, first_entry c is_tcp now) ∷ []) c.ip }, false)
  | some ips ↦
      add_ip c ips ip is_tcp now >>= λ r. some (record c { ip = insert user r.0 c.ip }, r.1)
]

-- AddConnCount: the new state, and whether the connection is rejected.
unfoldable pub add_conn_count : ConnLimiter → Str → Str → Bool → ℕ → Option (ConnLimiter × Bool)
add_conn_count c user ip is_tcp now =
    if (add_count c user is_tcp).0
    then some (c, true)
    else add_online (record c { count = (add_count c user is_tcp).1 }) user ip is_tcp now

unfoldable pub del_count : ConnLimiter → Str → Map Str ℤ
del_count c user = if eq_ℤ c.conn_limit (pos 0) then c.count else elim (lookup user c.count) [
  | none ↦ c.count
  | some v ↦ if eq_ℤ v (pos 1) then erase user c.count else insert user (v -ℤ pos 1) c.count
]

-- isSyncMapEmpty
unfoldable pub is_sync_map_empty {ℓ} : {V : Type ℓ} → Map Str V → Bool
is_sync_map_empty [] = true
is_sync_map_empty (_ ∷ m) = false

unfoldable pub del_ip : Map Str (Map Str Online) → Str → Str → Option (Map Str (Map Str Online))
del_ip m user ip = elim (lookup user m) [
  | none ↦ some m
  | some ips ↦ elim (lookup ip ips) [
    | none ↦ some m
    | some online ↦ as_count online >>= λ n.
        let ips' = if eq_ℤ n (pos 2) then erase ip ips else insert ip (counted (n -ℤ pos 2)) ips in
        some (if is_sync_map_empty ips' then erase user m else insert user ips' m)
  ]
]

-- DelConnCount
unfoldable pub del_conn_count : ConnLimiter → Str → Str → Option ConnLimiter
del_conn_count c user ip =
    if not c.realtime
    then some c
    else let c' = record c { count = del_count c user } in
      if eq_ℤ c.ip_limit (pos 0)
      then some c'
      else (del_ip c.ip user ip >>= λ m. some (record c' { ip = m }))

-- What ClearOnlineIP does with one address.
unfoldable pub keep_online : ℕ → Online → Option Online
keep_online now (counted n) = if eq_ℤ n (pos 1) then none else some (counted n)
keep_online now (seen t) = if ltb (t + non_realtime_online_ttl) now then none else some (seen t)

-- `notDel`: some address is kept.
unfoldable pub not_del : ℕ → Map Str Online → Bool
not_del now [] = false
not_del now ((_, o) ∷ ips) = elim (keep_online now o) [ none ↦ not_del now ips | some _ ↦ true ]

unfoldable pub keep_user : ℕ → Map Str Online → Option (Map Str Online)
keep_user now ips =
    let ips' = refine (keep_online now) ips in
    if not (not_del now ips) || is_sync_map_empty ips' then none else some ips'

-- ClearOnlineIP
unfoldable pub clear_online_ip : ℕ → ConnLimiter → ConnLimiter
clear_online_ip now c = record c { ip = refine (keep_user now) c.ip }
