-- ===== src/Node/Speed.antt =====
-- node/task.go: SpeedChecker, and the intervals of the tasks. Durations are in nanoseconds.
use yav2bx.Base.{
  ℕ, ◌*◌, ◌≡◌, refl, Bool, true, false, not, ◌&&◌, ◌||◌, List, [], ◌∷◌, none, some, arith, inl, inr,
  ◌∙◌, Option-cases, Ensures, if◌then◌else◌,
}
use yav2bx.Int.{ℤ, pos, pos_part, ◌+ℤ◌, lt_ℤ, le_ℤ, wrap64, scale}
use yav2bx.Keys.{Str, str_eq, str_beq, str_beq_iff, ==_refl}
use yav2bx.Maps.{lookup, insert, lookup-insert, Distinct}
use yav2bx.Panel.{Client, UserInfo, LimitConfig, DynamicSpeedLimitConfig, user_tag}
use yav2bx.Limiter.{UserLimitInfo, Limiter, unix, update_dynamic_speed_limit}
use yav2bx.Limiter.Users.{user_tag-beq}
use yav2bx.Node.{Controller}
use yav2bx.Node.Traffic.{
  dynamic_speed_limit_enabled, consume_over, consume_dynamic_speed_limit_users, consume_over_lem,
  contains, is_over,
}

abbrev pub seconds : ℕ → ℕ
seconds n = n * 1_000_000_000

-- "ppanel"
abbrev pub ppanel : Str
ppanel = b'p' ∷ b'p' ∷ b'a' ∷ b'n' ∷ b'e' ∷ b'l' ∷ []

-- normalizedPushInterval
unfoldable pub normalized_push_interval : Client → ℤ → ℤ
normalized_push_interval client interval =
    let i = if le_ℤ interval (pos 0) then pos (seconds 60) else interval in
    if not (str_beq client.panel_type ppanel)
    then (let j = if lt_ℤ i (pos (seconds 20)) then pos (seconds 20) else i in
        if lt_ℤ (pos (seconds 240)) j then pos (seconds 240) else j)
    else i

-- `time.Duration(periodic) * time.Second`
abbrev pub in_seconds : ℤ → ℤ
in_seconds n = wrap64 (scale n 1_000_000_000)

-- dynamicSpeedLimitInterval
unfoldable pub dynamic_speed_limit_interval : LimitConfig → ℤ
dynamic_speed_limit_interval c = elim c.dynamic_speed_limit_config [
  | none ↦ pos (seconds 60)
  | some d ↦
      if dynamic_speed_limit_enabled c && lt_ℤ (pos 0) d.periodic
      then in_seconds d.periodic
      else pos (seconds 60)
]

-- The loop of onlineIPSyncEnabled.
unfoldable pub any_device_limit : List UserInfo → Bool
any_device_limit [] = false
any_device_limit (u ∷ us) = if lt_ℤ (pos 0) u.device_limit then true else any_device_limit us

-- onlineIPSyncEnabled
unfoldable pub online_ip_sync_enabled : Client → LimitConfig → List UserInfo → Bool
online_ip_sync_enabled client c users =
    if str_beq client.panel_type ppanel
    then false
    else if c.enable_ip_recorder
        && elim c.ip_recorder_config [ none ↦ false | some r ↦ r.enable_ip_sync ]
    then true
    else any_device_limit users

-- onlineIPSyncInterval
unfoldable pub online_ip_sync_interval : LimitConfig → ℤ
online_ip_sync_interval c = elim c.ip_recorder_config [
  | none ↦ pos (seconds 30)
  | some r ↦ if lt_ℤ (pos 0) r.periodic then in_seconds r.periodic else pos (seconds 30)
]

-- `time.Now().Add(time.Duration(minutes) * time.Minute)`
abbrev pub add_minutes : ℕ → ℤ → ℕ
add_minutes now minutes = pos_part (pos now +ℤ wrap64 (scale minutes 60_000_000_000))

-- How often a push happens: an interval is positive, and it is between twenty seconds and four
-- minutes unless the panel is a ppanel; a normalized interval stays as it is.
normalized_push_interval_bounds :
    (client : Client) (interval : ℤ)
    → let i = normalized_push_interval client interval in
      (lt_ℤ (pos 0) i ≡ true)
      × ((str_beq client.panel_type ppanel
            || (le_ℤ (pos (seconds 20)) i && le_ℤ i (pos (seconds 240))))
          ≡ true)
      × (normalized_push_interval client i ≡ i)
unfolding normalized_push_interval
normalized_push_interval_bounds client interval = ground arith

module _ {S Regexp Bucket : Type 0} where
  -- A call on the controller's limiter. A running controller has one.
  abbrev pub with_limiter :
      (Limiter Regexp Bucket → Limiter Regexp Bucket)
      → Controller S Regexp Bucket
      → Controller S Regexp Bucket
  with_limiter f c = elim (lookup c.tag c.limiters) [
    | none ↦ c
    | some l ↦ record c { limiters = insert c.tag (f l) c.limiters }
  ]

  pub with_limiter_lem :
      (f : Limiter Regexp Bucket → Limiter Regexp Bucket) (c : Controller S Regexp Bucket)
      (l : Limiter Regexp Bucket)
      → lookup c.tag c.limiters ≡ some l
      → with_limiter f c ≡ record c { limiters = insert c.tag (f l) c.limiters }
  with_limiter_lem f c l q = rw (q, with_limiter) refl

module _ {Regexp Bucket : Type 0} where
  -- The loop of SpeedChecker; an error is logged, and the loop goes on.
  unfoldable pub limit_users :
      Str → ℤ → ℕ → List Str → Limiter Regexp Bucket → Limiter Regexp Bucket
  limit_users tag limit expire [] l = l
  limit_users tag limit expire (uuid ∷ us) l =
      limit_users tag limit expire us
        (elim (update_dynamic_speed_limit tag uuid limit expire l) [ none ↦ l | some l' ↦ l' ])

module _ {S Regexp Bucket : Type 0} where
  -- SpeedChecker
  unfoldable pub speed_checker :
      LimitConfig → ℕ → Controller S Regexp Bucket → Controller S Regexp Bucket
  speed_checker config now c = elim config.dynamic_speed_limit_config [
    | none ↦ c
    | some d ↦
        if not (dynamic_speed_limit_enabled config)
        then c
        else (let r = consume_dynamic_speed_limit_users config c.traffic in
            with_limiter (limit_users c.tag d.speed_limit (add_minutes now d.expire_time) r.0)
              (record c { traffic = r.1 }))
  ]

-- The record of a user whose speed is limited until a time.
abbrev pub limited_until : ℤ → ℕ → UserLimitInfo → UserLimitInfo
limited_until limit expire u = record u { dynamic_speed_limit = limit; expire_time = unix expire }

module _ {Regexp Bucket : Type 0} where
  -- The loop sets the limit of exactly the known users of its list.
  limit_users_lem :
      (tag : Str) (limit : ℤ) (expire : ℕ) (us : List Str) (l : Limiter Regexp Bucket) (uuid : Str)
      → lookup (user_tag tag uuid) (limit_users tag limit expire us l).user_limit_info
        ≡ elim (lookup (user_tag tag uuid) l.user_limit_info) [
          | none ↦ none
          | some u ↦ some (if contains uuid us then limited_until limit expire u else u)
        ]
  unfolding limit_users update_dynamic_speed_limit
  limit_users_lem tag limit expire [] l uuid = ground arith
  limit_users_lem tag limit expire (w ∷ us) l uuid =
      elim (Option-cases (lookup (user_tag tag w) l.user_limit_info)) [
        | inl q ↦
            rw (q, limit_users)
              (limit_users_lem tag limit expire us l uuid ∙ ground (arith, q, str_beq_iff w uuid))
        | inr (info, q) ↦
            rw (q, limit_users, update_dynamic_speed_limit)
              (limit_users_lem tag limit expire us _ uuid
                ∙ ground (
                  arith,
                  q,
                  str_beq_iff w uuid,
                  user_tag-beq tag w uuid,
                  lookup-insert (user_tag tag w) (user_tag tag uuid)
                      (limited_until limit expire info) l.user_limit_info,
                ))
      ]

module _ {S Regexp Bucket : Type 0} where
  -- What the check does (enabled, with a positive threshold): exactly the users whose traffic is at
  -- the threshold or above it lose their traffic entry, and those of them that the limiter knows get
  -- the configured limit until the configured time; all other entries stay.
  pub speed_checker_lem :
      (config : LimitConfig) (d : DynamicSpeedLimitConfig) (now : ℕ)
      (c : Controller S Regexp Bucket) (l : Limiter Regexp Bucket) (uuid : Str)
      → config.enable_dynamic_speed_limit ≡ true
      → config.dynamic_speed_limit_config ≡ some d
      → lt_ℤ (pos 0) d.traffic ≡ true
      → Distinct c.traffic
      → lookup c.tag c.limiters ≡ some l
      → let c' = speed_checker config now c in
        (lookup uuid c'.traffic
          ≡ (if is_over d.traffic (lookup uuid c.traffic) then none else lookup uuid c.traffic))
        × Ensures
            (λ l'.
              lookup (user_tag c.tag uuid) l'.user_limit_info
              ≡ elim (lookup (user_tag c.tag uuid) l.user_limit_info) [
                | none ↦ none
                | some u ↦ some (
                    if is_over d.traffic (lookup uuid c.traffic)
                    then limited_until d.speed_limit (add_minutes now d.expire_time) u
                    else u)
              ])
            (lookup c.tag c'.limiters)
  unfolding speed_checker dynamic_speed_limit_enabled consume_dynamic_speed_limit_users
  speed_checker_lem config d now c l uuid on has positive apart q =
      let small : le_ℤ d.traffic (pos 0) ≡ false = ground (arith, positive) in
      let us = (consume_over d.traffic c.traffic).0 in
      let expire = add_minutes now d.expire_time in
      rw (has, on, small)
        (rw
          (with_limiter_lem (limit_users c.tag d.speed_limit expire us)
            (record c { traffic = (consume_over d.traffic c.traffic).1 }) l q)
          (ground (
            arith,
            consume_over_lem d.traffic c.traffic uuid apart,
            limit_users_lem c.tag d.speed_limit expire us l uuid,
            lookup-insert c.tag c.tag (limit_users c.tag d.speed_limit expire us l) c.limiters,
            ==_refl c.tag,
          )))
