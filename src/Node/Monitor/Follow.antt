-- ===== src/Node/Monitor/Follow.antt =====
-- node/task.go, nodeInfoMonitor: whether the limiter follows the users of the panel.
use yav2bx.Base.{◌≡◌, Bool, true, false, List, Option, none, some, Ensures}
use yav2bx.Keys.{Str, str_eq}
use yav2bx.Maps.{lookup}
use yav2bx.Panel.{UserInfo, user_tag}
use yav2bx.Limiter.{Limiter}
use yav2bx.Limiter.Users.{has_uuid}
use yav2bx.Node.{Controller}
use yav2bx.Node.Monitor.{Monitored}

abbrev is_some {ℓ} : {A : Type ℓ} → Option A → Bool
is_some none = false
is_some (some a) = true

module _ {Regexp Bucket : Type 0} where
  -- The limiter has a record for exactly the users of the list.
  abbrev pub Serves : Str → List UserInfo → Limiter Regexp Bucket → Type 0
  Serves tag users l =
      (uuid : Str) → is_some (lookup (user_tag tag uuid) l.user_limit_info) ≡ has_uuid uuid users

module _ {S Regexp Bucket : Type 0} where
  -- What a run leaves: a synced run has the new list, and a limiter that serves it; a run that ended
  -- early has the old list and the old limiters.
  abbrev pub Followed :
      Controller S Regexp Bucket → List UserInfo → Monitored S Regexp Bucket → Type 0
  Followed c users (Monitored.ended c') =
      (c'.user_list ≡ c.user_list) × ((c'.limiters ≡ c.limiters) × (c'.tag ≡ c.tag))
  Followed c users (Monitored.reloaded c') = ⊥
  Followed c users (Monitored.synced c') =
      (c'.user_list ≡ users)
      × ((c'.tag ≡ c.tag) × Ensures (Serves c.tag users) (lookup c.tag c'.limiters))
