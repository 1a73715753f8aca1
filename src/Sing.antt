-- ===== src/Sing.antt =====
-- core/sing/hook.go and core/sing/user.go: the tracker of the sing core's connections. A connection is
-- what the library says of it; the registry of the limiters and the counters by inbound are the state.
pub mod Users
pub mod Naive
pub mod Collect
use yav2bx.Base.{
  ℕ, Bool, true, false, not, ◌&&◌, ◌||◌, List, [], ◌∷◌, Option, none, some, if◌then◌else◌, ◌>>=◌,
}
use yav2bx.Int.{ℤ, pos}
use yav2bx.Keys.{Str, str_eq, str_beq}
use yav2bx.Maps.{Map, lookup, insert}
use yav2bx.Panel.{user_tag}
use yav2bx.Limiter.{Limiter, get_limiter}
use yav2bx.Limiter.Check.{check_limit, check_domain_rule, check_protocol_rule}
use yav2bx.Counter.{
  TrafficCounter, new_traffic_counter, get_up_count, get_down_count, reset, ConnCounter,
  new_conn_counter,
}

-- HookServer: the counters of the inbounds.
abbrev pub HookServer : Type 0
HookServer = Map Str TrafficCounter

-- adapter.InboundContext: the inbound, its user, the source address, and the destination's address and
-- network.
pub record Metadata : Type 0 where
  pub inbound : Str
  pub user : Str
  pub source : Str
  pub destination : Str
  pub network : Str

-- The connection that is given back: unwrapped, as there is no limiter; closed; or counted, behind the
-- bucket if there is one.
pub data Tracked (Bucket : Type 0) : Type 0 where
  bare : Tracked Bucket
  closed : Tracked Bucket
  counted : ConnCounter → Option Bucket → Tracked Bucket

-- The counter of the inbound, which the hook makes if it is missing, and a storage for the user.
abbrev pub counter_of : HookServer → Str → TrafficCounter
counter_of h inbound = elim (lookup inbound h) [ none ↦ new_traffic_counter | some t ↦ t ]

unfoldable pub count_user : HookServer → Str → Str → HookServer × ConnCounter
count_user h inbound user =
    let r = new_conn_counter (counter_of h inbound) user in (insert inbound r.0 h, r.1)

-- GetUserTraffic; a tag without a counter has none.
unfoldable pub get_user_traffic : HookServer → Str → Str → Bool → HookServer × (ℤ × ℤ)
get_user_traffic h tag uuid resets = elim (lookup tag h) [
  | none ↦ (h, (pos 0, pos 0))
  | some c ↦ (
    if resets then insert tag (reset c uuid) h else h,
    (get_up_count c uuid, get_down_count c uuid),
  )
]

module _ {Regexp Bucket : Type 0} where
  -- The part behind CheckLimit: the rules, and the count.
  abbrev pub tracked_behind :
      (Regexp → Str → Bool)
      → Bool
      → Metadata
      → HookServer
      → Map Str (Limiter Regexp Bucket)
      → Limiter Regexp Bucket × Option Bucket × Bool
      → (Map Str (Limiter Regexp Bucket) × HookServer) × Tracked Bucket
  tracked_behind matches is_stream m h reg (l, bucket, reject) =
      let kept = insert m.inbound l reg in
      let r = count_user h m.inbound m.user in
      if reject
      then ((kept, h), closed)
      else if check_domain_rule matches l m.destination
      then ((kept, h), closed)
      else if not (str_beq m.network []) && check_protocol_rule l m.network
      then ((kept, h), closed)
      else ((kept, r.0), counted r.1 (if is_stream then bucket else none))

  -- RoutedConnection, for a stream, and RoutedPacketConnection, which uses no bucket.
  unfoldable pub routed :
      (Regexp → Str → Bool)
      → Bool
      → Metadata
      → ℕ
      → (ℤ → Bucket)
      → Map Str (Limiter Regexp Bucket) × HookServer
      → Option ((Map Str (Limiter Regexp Bucket) × HookServer) × Tracked Bucket)
  routed matches is_stream m now new_bucket (reg, h) = elim (get_limiter m.inbound reg) [
    | none ↦ some ((reg, h), bare)
    | some l ↦
        check_limit l (user_tag m.inbound m.user) m.source is_stream is_stream now new_bucket
        >>= λ v. some (tracked_behind matches is_stream m h reg v)
  ]

  unfoldable pub routed_connection :
      (Regexp → Str → Bool)
      → Metadata
      → ℕ
      → (ℤ → Bucket)
      → Map Str (Limiter Regexp Bucket) × HookServer
      → Option ((Map Str (Limiter Regexp Bucket) × HookServer) × Tracked Bucket)
  routed_connection matches m now new_bucket s = routed matches true m now new_bucket s

  unfoldable pub routed_packet_connection :
      (Regexp → Str → Bool)
      → Metadata
      → ℕ
      → (ℤ → Bucket)
      → Map Str (Limiter Regexp Bucket) × HookServer
      → Option ((Map Str (Limiter Regexp Bucket) × HookServer) × Tracked Bucket)
  routed_packet_connection matches m now new_bucket s = routed matches false m now new_bucket s
