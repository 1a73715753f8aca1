-- ===== src/Limiter.antt =====
-- limiter/limiter.go, dynamic.go, rule.go and clear.go: the limiter of one node, and the registry of
-- the limiters by tag. `Regexp` and `Bucket` are the types of the packages regexp and juju/ratelimit;
-- a bucket that a call builds is that call's argument. Times are in nanoseconds.
pub mod Check
pub mod Speed
pub mod Known
pub mod Device
pub mod Users
pub mod Reports
pub mod Snapshot
pub mod Online
use yav2bx.Base.{
  ℕ, ◌/◌, Bool, true, false, not, ◌&&◌, List, [], ◌∷◌, ◌++◌, map, Option, none, some, if◌then◌else◌,
  ◌>>=◌,
}
use yav2bx.Int.{ℤ, pos, lt_ℤ, le_ℤ, eq_ℤ, wrap64, scale, quot}
use yav2bx.Keys.{Str, str_eq, str_beq, int_eq}
use yav2bx.Maps.{Map, lookup, insert, erase, refine}
use yav2bx.Panel.{UserInfo, OnlineUser, Rules, LimitConfig, user_tag, normalize_ip}
use yav2bx.Conn.{ConnLimiter, new_conn_limiter, add_conn_count, clear_online_ip}

pub record UserLimitInfo : Type 0 where
  pub uid : ℤ
  pub speed_limit : ℤ
  pub device_limit : ℤ
  pub dynamic_speed_limit : ℤ
  pub expire_time : ℤ
  pub over_limit : Bool

pub record SpeedBucket (Bucket : Type 0) : Type 0 where
  pub limit : ℤ
  pub bucket : Bucket

pub record Limiter (Regexp Bucket : Type 0) : Type 0 where
  pub domain_rules : List Regexp
  pub protocol_rules : List Str
  pub speed_limit : ℤ
  pub user_online_ip : Map Str (Map Str ℤ)
  pub old_user_online : Map Str ℤ
  pub uuid_to_uid : Map Str ℤ
  pub user_limit_info : Map Str UserLimitInfo
  pub conn_limiter : ConnLimiter
  pub speed_limiter : Map Str (SpeedBucket Bucket)
  pub alive_list : Map ℤ ℤ

-- time.Unix, in seconds
abbrev pub unix : ℕ → ℤ
unix now = pos (now / 1_000_000_000)

-- determineSpeedLimit, with its branches
unfoldable pub determine_speed_limit : ℤ → ℤ → ℤ
determine_speed_limit limit1 limit2 =
    if not (not (eq_ℤ limit1 (pos 0)) && not (eq_ℤ limit2 (pos 0)))
    then (if lt_ℤ limit2 limit1 then limit1 else if lt_ℤ limit1 limit2 then limit2 else pos 0)
    else if lt_ℤ limit2 limit1
    then limit2
    else if lt_ℤ limit1 limit2
    then limit1
    else limit1

-- The loop of SetAliveList.
unfoldable pub copy_alive : Map ℤ ℤ → Map ℤ ℤ → Map ℤ ℤ
copy_alive m [] = m
copy_alive m ((uid, count) ∷ rest) = copy_alive (insert uid count m) rest

-- What AddLimiter and UpdateUser store for a user of the panel.
unfoldable pub user_limit_of : UserInfo → UserLimitInfo
user_limit_of u = record {
  uid = u.id;
  speed_limit = if not (eq_ℤ u.speed_limit (pos 0)) then u.speed_limit else pos 0;
  device_limit = if not (eq_ℤ u.device_limit (pos 0)) then u.device_limit else pos 0;
  dynamic_speed_limit = pos 0;
  expire_time = pos 0;
  over_limit = false;
}

-- The loops over the users that store their limits and their ids.
unfoldable pub store_limits : Str → Map Str UserLimitInfo → List UserInfo → Map Str UserLimitInfo
store_limits tag m [] = m
store_limits tag m (u ∷ us) = store_limits tag (insert (user_tag tag u.uuid) (user_limit_of u) m) us

unfoldable pub store_uids : Map Str ℤ → List UserInfo → Map Str ℤ
store_uids m [] = m
store_uids m (u ∷ us) = store_uids (insert u.uuid u.id m) us

module _ {Regexp Bucket : Type 0} where
  unfoldable pub set_alive_list : Map ℤ ℤ → Limiter Regexp Bucket → Limiter Regexp Bucket
  set_alive_list alive l = record l { alive_list = copy_alive [] alive }

  unfoldable pub delete_alive : ℤ → Limiter Regexp Bucket → Limiter Regexp Bucket
  delete_alive uid l = record l { alive_list = erase uid l.alive_list }

  unfoldable pub get_alive : Limiter Regexp Bucket → ℤ → ℤ
  get_alive l uid = elim (lookup uid l.alive_list) [ none ↦ pos 0 | some n ↦ n ]

  -- The limiter that AddLimiter builds.
  unfoldable pub new_limiter : Str → LimitConfig → List UserInfo → Map ℤ ℤ → Limiter Regexp Bucket
  new_limiter tag l users alive = record {
    domain_rules = [];
    protocol_rules = [];
    speed_limit = l.speed_limit;
    user_online_ip = [];
    old_user_online = [];
    uuid_to_uid = store_uids [] users;
    user_limit_info = store_limits tag [] users;
    conn_limiter = new_conn_limiter l.conn_limit l.ip_limit l.enable_realtime;
    speed_limiter = [];
    alive_list = copy_alive [] alive;
  }

  -- AddLimiter, GetLimiter and DeleteLimiter, on the registry.
  unfoldable pub add_limiter :
      Str
      → LimitConfig
      → List UserInfo
      → Map ℤ ℤ
      → Map Str (Limiter Regexp Bucket)
      → Map Str (Limiter Regexp Bucket) × Limiter Regexp Bucket
  add_limiter tag l users alive reg =
      let info = new_limiter tag l users alive in (insert tag info reg, info)

  -- `none` is the error "not found".
  unfoldable pub get_limiter :
      Str → Map Str (Limiter Regexp Bucket) → Option (Limiter Regexp Bucket)
  get_limiter tag reg = lookup tag reg

  unfoldable pub delete_limiter :
      Str → Map Str (Limiter Regexp Bucket) → Map Str (Limiter Regexp Bucket)
  delete_limiter tag reg = erase tag reg

  -- ClearOnlineIP of clear.go: the sweep of every limiter.
  unfoldable pub clear_all_online_ip :
      ℕ → Map Str (Limiter Regexp Bucket) → Map Str (Limiter Regexp Bucket)
  clear_all_online_ip now =
      refine (λ l. some (record l { conn_limiter = clear_online_ip now l.conn_limiter }))

  -- The two loops of UpdateUser.
  unfoldable pub delete_user : Str → UserInfo → Limiter Regexp Bucket → Limiter Regexp Bucket
  delete_user tag u l = delete_alive u.id (record l {
    user_limit_info = erase (user_tag tag u.uuid) l.user_limit_info;
    user_online_ip = erase (user_tag tag u.uuid) l.user_online_ip;
    speed_limiter = erase (user_tag tag u.uuid) l.speed_limiter;
    uuid_to_uid = erase u.uuid l.uuid_to_uid;
  })

  unfoldable pub delete_users : Str → List UserInfo → Limiter Regexp Bucket → Limiter Regexp Bucket
  delete_users tag [] l = l
  delete_users tag (u ∷ us) l = delete_users tag us (delete_user tag u l)

  unfoldable pub add_users : Str → List UserInfo → Limiter Regexp Bucket → Limiter Regexp Bucket
  add_users tag us l = record l {
    user_limit_info = store_limits tag l.user_limit_info us;
    uuid_to_uid = store_uids l.uuid_to_uid us;
  }

  unfoldable pub update_user :
      Str → List UserInfo → List UserInfo → Limiter Regexp Bucket → Limiter Regexp Bucket
  update_user tag added deleted l = add_users tag added (delete_users tag deleted l)

  -- UpdateDynamicSpeedLimit; `none` is the error "not found".
  unfoldable pub update_dynamic_speed_limit :
      Str → Str → ℤ → ℕ → Limiter Regexp Bucket → Option (Limiter Regexp Bucket)
  update_dynamic_speed_limit tag uuid limit expire l =
      elim (lookup (user_tag tag uuid) l.user_limit_info) [
        | none ↦ none
        | some info ↦ some (record l {
          user_limit_info =
              insert (user_tag tag uuid)
                (record info { dynamic_speed_limit = limit; expire_time = unix expire })
                l.user_limit_info;
          speed_limiter = erase (user_tag tag uuid) l.speed_limiter;
        })
      ]
