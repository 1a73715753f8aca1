-- ===== src/Xray/Dispatch.antt =====
-- core/xray/app/dispatcher/default.go: the limits on a connection, and its routing. The limiters are
-- the registry by tag; a limiter is not replaced while a connection lasts. What the session's context
-- holds is an argument: the inbound, and the routing of the xray library.
use yav2bx.Base.{
  ℕ, Bool, true, false, not, ◌&&◌, ◌||◌, List, [], ◌∷◌, ◌++◌, Option, none, some, if◌then◌else◌,
  ◌>>=◌,
}
use yav2bx.Int.{ℤ}
use yav2bx.Keys.{Str, str_eq, str_beq}
use yav2bx.Maps.{Map, lookup, insert}
use yav2bx.Text.{bytes}
use yav2bx.Conn.{del_conn_count}
use yav2bx.Limiter.{Limiter, get_limiter}
use yav2bx.Limiter.Check.{check_limit, check_domain_rule, check_protocol_rule}
use yav2bx.Xray.{online_name, inbound_online_name, uplink_name, downlink_name}

-- What the policy of a user's level counts.
pub record UserStats : Type 0 where
  pub uplink : Bool
  pub downlink : Bool
  pub online : Bool

-- session.Inbound: its tag, its user's email and the policy of the user's level, the text of
-- sourceIPString, and whether the source is TCP.
pub record Inbound : Type 0 where
  pub tag : Str
  pub user : Option (Str × UserStats)
  pub source : Str
  pub source_tcp : Bool

-- What wraps a writer or reader, the outermost first: the bucket, or a counter by its name.
pub data Wrapper (Bucket : Type 0) : Type 0 where
  limited : Bucket → Wrapper Bucket
  counted : Str → Wrapper Bucket

-- The link of a connection: the wrappers of its writers, the tag of its limiter, and the addresses
-- that are recorded online, by the names of the maps.
pub record Link (Bucket : Type 0) : Type 0 where
  pub inbound_writer : List (Wrapper Bucket)
  pub outbound_writer : List (Wrapper Bucket)
  pub limiter : Option Str
  pub recorded : List (Str × Str)

-- Whether the statistics manager is there, and gives a counter or an online map for a name.
pub record Stats : Type 0 where
  pub present : Bool
  pub has_counter : Str → Bool
  pub has_online_map : Str → Bool

-- recordOnlineStats, for a session and a user that are there.
unfoldable pub record_online_stats : Stats → Inbound → Str → Bool → List (Str × Str)
record_online_stats stats i email enable_user_online =
    let own = online_name email in
    let shared = inbound_online_name i.tag in
    if not stats.present || str_beq i.source []
    then []
    else (if enable_user_online && stats.has_online_map own then (own, i.source) ∷ [] else [])
      ++ (if not (str_beq i.tag []) && stats.has_online_map shared
          then (shared, i.source) ∷ []
          else [])

abbrev pub limit_with : {Bucket : Type 0} → Option Bucket → List (Wrapper Bucket)
limit_with none = []
limit_with (some b) = limited b ∷ []

-- Where a connection goes: nowhere, as its ends are closed, or to the handler with the tag, with the
-- text of the detour.
pub data Route : Type 0 where
  closed : Route
  dispatched : Str → Str → Route

-- The routing of the xray library: the forced outbound, the router's pick, the handlers that there
-- are, the default one, and the inbound's tag.
pub record Routing : Type 0 where
  pub forced : Str
  pub picked : Option Str
  pub handlers : List Str
  pub default_handler : Option Str
  pub in_tag : Str

abbrev pub has_handler : Str → List Str → Bool
has_handler tag [] = false
has_handler tag (h ∷ hs) = str_beq h tag || has_handler tag hs

abbrev pub detour : Str → Str → Str → Str
detour in_tag arrow tag =
    if str_beq tag [] then [] else if str_beq in_tag [] then tag else in_tag ++ (arrow ++ tag)

-- The handler of the inbound's tag, else the default one.
abbrev pub fall_back : Routing → Route
fall_back r =
    if has_handler r.in_tag r.handlers
    then dispatched r.in_tag (detour r.in_tag (bytes " >> ") r.in_tag)
    else elim r.default_handler [
      | none ↦ closed
      | some tag ↦ dispatched tag (detour r.in_tag (bytes " >> ") tag)
    ]

-- The end of routedDispatch: the forced outbound, the picked one, or the fall-back.
unfoldable pub pick_route : Routing → Route
pick_route r =
    if not (str_beq r.forced [])
    then (if has_handler r.forced r.handlers
        then dispatched r.forced (detour r.in_tag (bytes " ==> ") r.forced)
        else closed)
    else elim r.picked [
      | none ↦ fall_back r
      | some tag ↦
          if has_handler tag r.handlers
          then dispatched tag (detour r.in_tag (bytes " -> ") tag)
          else fall_back r
    ]

module _ {Regexp Bucket : Type 0} where
  -- The limiter's verdict on a connection, with the registry behind it.
  abbrev pub with_verdict :
      Map Str (Limiter Regexp Bucket)
      → Stats
      → Inbound
      → Str × UserStats
      → Limiter Regexp Bucket × Option Bucket × Bool
      → Map Str (Limiter Regexp Bucket) × Option (Link Bucket)
  with_verdict reg stats i (email, p) (l, bucket, reject) =
      let kept = insert i.tag l reg in
      let link : Link Bucket = record {
        inbound_writer =
            if p.uplink && stats.has_counter (uplink_name email)
            then counted (uplink_name email) ∷ limit_with bucket
            else limit_with bucket;
        outbound_writer =
            if p.downlink && stats.has_counter (downlink_name email)
            then counted (downlink_name email) ∷ limit_with bucket
            else limit_with bucket;
        limiter = some i.tag;
        recorded = record_online_stats stats i email p.online;
      } in
      (kept, if reject then none else some link)

  -- getLink, for a session with an inbound: the registry, and the link, or `none` if it is refused and
  -- both ends are closed. A panic of the limiter is the outer `none`.
  unfoldable pub get_link :
      Map Str (Limiter Regexp Bucket)
      → Stats
      → Inbound
      → Bool
      → ℕ
      → (ℤ → Bucket)
      → Option (Map Str (Limiter Regexp Bucket) × Option (Link Bucket))
  get_link reg stats i is_tcp now new_bucket =
      let free : Link Bucket = record {
        inbound_writer = [];
        outbound_writer = [];
        limiter = none;
        recorded = [];
      } in
      elim i.user [
        | none ↦ some (reg, some free)
        | some u ↦ if str_beq u.0 [] then some (reg, some free) else elim (get_limiter i.tag reg) [
          | none ↦ some (reg, none)
          | some l ↦ check_limit l u.0 i.source is_tcp i.source_tcp now new_bucket >>= λ v.
              some (with_verdict reg stats i u v)
        ]
      ]

  -- Whether the rules of a limiter refuse the destination, or the protocol if there is one.
  abbrev pub refused_by_rule :
      (Regexp → Str → Bool) → Option (Limiter Regexp Bucket) → Str → Str → Bool
  refused_by_rule matches none destination protocol = false
  refused_by_rule matches (some l) destination protocol =
      check_domain_rule matches l destination
      || (not (str_beq protocol []) && check_protocol_rule l protocol)

  -- The deferred DelConnCount of a TCP connection that has a limiter.
  unfoldable pub release :
      Inbound
      → Bool
      → Option Str
      → Map Str (Limiter Regexp Bucket)
      → Option (Map Str (Limiter Regexp Bucket))
  release i is_tcp none reg = some reg
  release i is_tcp (some tag) reg = elim i.user [
    | none ↦ some reg
    | some u ↦ if not is_tcp then some reg else elim (lookup tag reg) [
      | none ↦ some reg
      | some l ↦ del_conn_count l.conn_limiter u.0 i.source >>= λ c.
          some (insert tag (record l { conn_limiter = c }) reg)
    ]
  ]

  -- routedDispatch, for a session with an inbound: the route, and the registry when it has returned.
  unfoldable pub routed_dispatch :
      (Regexp → Str → Bool)
      → Routing
      → Inbound
      → Bool
      → Option Str
      → Str
      → Str
      → Map Str (Limiter Regexp Bucket)
      → Option (Map Str (Limiter Regexp Bucket) × Route)
  routed_dispatch matches routing i is_tcp limiter destination protocol reg =
      let own : Str = elim limiter [ none ↦ i.tag | some tag ↦ tag ] in
      let has_user : Bool = elim i.user [ none ↦ false | some u ↦ true ] in
      let route =
        if has_user && refused_by_rule matches (get_limiter own reg) destination protocol
        then closed
        else pick_route routing in
      release i is_tcp limiter reg >>= λ freed. some (freed, route)
