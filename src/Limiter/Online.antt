-- ===== src/Limiter/Online.antt =====
-- limiter/limiter.go: the reports of who is online.
use yav2bx.Base.{Bool, false, ◌&&◌, ◌||◌, List, [], ◌∷◌, ◌++◌, none, some, if◌then◌else◌}
use yav2bx.Int.{ℤ, pos, eq_ℤ}
use yav2bx.Keys.{Str, str_eq, str_beq, int_eq}
use yav2bx.Maps.{Map, lookup, insert}
use yav2bx.Panel.{OnlineUser, normalize_ip}
use yav2bx.Conn.{Online}
use yav2bx.Limiter.{UserLimitInfo, Limiter}

-- `seen`: the pair has been reported.
unfoldable pub reported : ℤ → Str → List OnlineUser → Bool
reported uid ip [] = false
reported uid ip (o ∷ os) = (eq_ℤ o.uid uid && str_beq o.ip ip) || reported uid ip os

-- The `append` of a pair that is not empty and not reported.
unfoldable pub report : ℤ → Str → List OnlineUser → List OnlineUser
report uid ip acc =
    if str_beq ip []
    then acc
    else if reported uid ip acc
    then acc
    else acc ++ (record { uid = uid; ip = ip } ∷ [])

-- The inner `Range`, over the addresses of a user.
unfoldable pub report_ips : ℤ → List OnlineUser → Map Str Online → List OnlineUser
report_ips uid acc [] = acc
report_ips uid acc ((ip, _) ∷ ips) = report_ips uid (report uid (normalize_ip ip) acc) ips

-- The outer `Range`, over the users with a record and a nonzero id.
unfoldable pub report_users :
    Map Str UserLimitInfo → List OnlineUser → Map Str (Map Str Online) → List OnlineUser
report_users info acc [] = acc
report_users info acc ((taguuid, ips) ∷ us) =
    report_users info
      (elim (lookup taguuid info) [
        | none ↦ acc
        | some u ↦ if eq_ℤ u.uid (pos 0) then acc else report_ips u.uid acc ips
      ])
      us

-- The addresses that move to the old online users.
unfoldable pub retire_ips : Map Str ℤ → Map Str ℤ → Map Str ℤ
retire_ips old [] = old
retire_ips old ((ip, uid) ∷ ips) =
    retire_ips (if str_beq (normalize_ip ip) [] then old else insert (normalize_ip ip) uid old) ips

unfoldable pub retire_users : Map Str ℤ → Map Str (Map Str ℤ) → Map Str ℤ
retire_users old [] = old
retire_users old ((taguuid, ips) ∷ us) = retire_users (retire_ips old ips) us

module _ {Regexp Bucket : Type 0} where
  unfoldable pub snapshot_online_users : Limiter Regexp Bucket → List OnlineUser
  snapshot_online_users l = report_users l.user_limit_info [] l.conn_limiter.ip

  -- GetOnlineDevice: the `Range` deletes each user of UserOnlineIP that it visits, which is all.
  unfoldable pub get_online_device : Limiter Regexp Bucket → Limiter Regexp Bucket × List OnlineUser
  get_online_device l = (
    record l {
      old_user_online = retire_users l.old_user_online l.user_online_ip;
      user_online_ip = [];
    },
    snapshot_online_users l,
  )

-- `data[uid] = append(data[uid], ip)`
unfoldable pub append_ip : ℤ → Str → Map ℤ (List Str) → Map ℤ (List Str)
append_ip uid ip m =
    insert uid (elim (lookup uid m) [ none ↦ ip ∷ [] | some ips ↦ ips ++ (ip ∷ []) ]) m

unfoldable pub group_online : Map ℤ (List Str) → List OnlineUser → Map ℤ (List Str)
group_online m [] = m
group_online m (o ∷ os) = group_online (append_ip o.uid o.ip m) os

module _ {Regexp Bucket : Type 0} where
  unfoldable pub get_online_ip_map : Limiter Regexp Bucket → Map ℤ (List Str)
  get_online_ip_map l = group_online [] (snapshot_online_users l)
