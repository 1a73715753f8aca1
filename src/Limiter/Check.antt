-- ===== src/Limiter/Check.antt =====
-- limiter/limiter.go, CheckLimit, and limiter/rule.go. A call reads the clock once, and the buckets of
-- the ratelimit package that it may build are its last argument.
use yav2bx.Base.{
  ℕ, Bool, true, false, not, ◌&&◌, List, [], ◌∷◌, Option, none, some, if◌then◌else◌, ◌>>=◌,
}
use yav2bx.Int.{ℤ, pos, lt_ℤ, le_ℤ, eq_ℤ, wrap64, scale, quot}
use yav2bx.Keys.{Str, str_eq, str_beq, int_eq}
use yav2bx.Maps.{lookup, insert, erase}
use yav2bx.Panel.{Rules, normalize_ip}
use yav2bx.Conn.{add_conn_count}
use yav2bx.Limiter.{UserLimitInfo, SpeedBucket, Limiter, unix, determine_speed_limit, get_alive}

-- The test for a dynamic limit that has run out.
abbrev pub expired : UserLimitInfo → ℕ → Bool
expired u now = lt_ℤ u.expire_time (unix now) && not (eq_ℤ u.expire_time (pos 0))

-- The answer of CheckLimit: the limiter behind the call, the bucket, and whether it rejects.
abbrev pub Verdict : Type 0 → Type 0 → Type 0
Verdict Regexp Bucket = Limiter Regexp Bucket × Option Bucket × Bool

-- The test on the device limit.
abbrev pub over_devices : ℤ → ℤ → Bool
over_devices device_limit alive_ip = lt_ℤ (pos 0) device_limit && le_ℤ device_limit alive_ip

-- `int64(determineSpeedLimit(nodeLimit, userLimit)) * 1000000 / 8`, in bytes per second
unfoldable pub byte_limit : ℤ → ℤ → ℤ
byte_limit node user = quot (wrap64 (scale (determine_speed_limit node user) 1_000_000)) 8

-- The loops of CheckDomainRule and CheckProtocolRule.
unfoldable pub any_match {ℓ} : {Regexp : Type ℓ} → (Regexp → Str → Bool) → List Regexp → Str → Bool
any_match matches [] destination = false
any_match matches (r ∷ rs) destination =
    if matches r destination then true else any_match matches rs destination

unfoldable pub any_equal : List Str → Str → Bool
any_equal [] protocol = false
any_equal (r ∷ rs) protocol = if str_beq r protocol then true else any_equal rs protocol

-- The loop of UpdateRule; `compile` is regexp.MustCompile, and `none` its panic.
unfoldable pub compile_all {ℓ} :
    {Regexp : Type ℓ} → (Str → Option Regexp) → List Str → Option (List Regexp)
compile_all compile [] = some []
compile_all compile (s ∷ ss) = compile s >>= λ r. (compile_all compile ss >>= λ rs. some (r ∷ rs))

module _ {Regexp Bucket : Type 0} where
  -- The user's own speed limit, and what the call changes of its record.
  unfoldable pub user_limit :
      Limiter Regexp Bucket → UserLimitInfo → Str → ℕ → Limiter Regexp Bucket × ℤ
  user_limit l u taguuid now =
      if expired u now
      then (if not (eq_ℤ u.speed_limit (pos 0))
          then (
            record l {
              user_limit_info =
                  insert taguuid (record u { dynamic_speed_limit = pos 0; expire_time = pos 0 })
                    l.user_limit_info;
            },
            u.speed_limit,
          )
          else (record l { user_limit_info = erase taguuid l.user_limit_info }, pos 0))
      else (l, determine_speed_limit u.speed_limit u.dynamic_speed_limit)

  -- The block on the online users; the flag says that the call rejects.
  unfoldable pub track_device :
      Limiter Regexp Bucket → Str → Str → ℤ → ℤ → Limiter Regexp Bucket × Bool
  track_device l taguuid ip uid device_limit =
      let alive_ip = get_alive l uid in
      elim (lookup taguuid l.user_online_ip) [
        | some ip_map ↦ elim (lookup ip ip_map) [
          | some _ ↦ (l, false)
          | none ↦
              if over_devices device_limit alive_ip
              then (
                record l {
                  user_online_ip =
                      insert taguuid (erase ip (insert ip uid ip_map)) l.user_online_ip;
                },
                true,
              )
              else (
                record l {
                  user_online_ip = insert taguuid (insert ip uid ip_map) l.user_online_ip;
                },
                false,
              )
        ]
        | none ↦
            let stored = insert taguuid ((ip, uid) ∷ []) l.user_online_ip in
            elim (lookup ip l.old_user_online) [
              | some v ↦
                  if eq_ℤ v uid
                  then (
                    record l {
                      user_online_ip = stored;
                      old_user_online = erase ip l.old_user_online;
                    },
                    false,
                  )
                  else (record l { user_online_ip = stored }, false)
              | none ↦
                  if over_devices device_limit alive_ip
                  then (record l { user_online_ip = erase taguuid stored }, true)
                  else (record l { user_online_ip = stored }, false)
            ]
      ]

  -- The user's bucket for a limit.
  unfoldable pub speed_bucket :
      Limiter Regexp Bucket → Str → ℤ → (ℤ → Bucket) → Limiter Regexp Bucket × Option Bucket
  speed_bucket l taguuid limit new_bucket =
      let fresh : SpeedBucket Bucket = record { limit = limit; bucket = new_bucket limit } in
      let renewed : Limiter Regexp Bucket × Option Bucket = (
        record l { speed_limiter = insert taguuid fresh l.speed_limiter },
        some (new_bucket limit),
      ) in
      if lt_ℤ (pos 0) limit
      then elim (lookup taguuid l.speed_limiter) [
        | some cached ↦ if eq_ℤ cached.limit limit then (l, some cached.bucket) else renewed
        | none ↦ renewed
      ]
      else (record l { speed_limiter = erase taguuid l.speed_limiter }, none)

  -- CheckLimit behind the count of the connection.
  unfoldable pub check_user :
      Limiter Regexp Bucket → Str → Str → Bool → ℕ → (ℤ → Bucket) → Verdict Regexp Bucket
  check_user l taguuid ip no_ss_udp now new_bucket = elim (lookup taguuid l.user_limit_info) [
    | none ↦ (l, none, true)
    | some u ↦
        let limited = user_limit l u taguuid now in
        let tracked =
          if no_ss_udp
          then track_device limited.0 taguuid ip u.uid u.device_limit
          else (limited.0, false) in
        let served =
          speed_bucket tracked.0 taguuid (byte_limit l.speed_limit limited.1) new_bucket in
        if tracked.1 then (tracked.0, none, true) else (served.0, served.1, false)
  ]

  -- CheckLimit: the new state, the bucket, and whether the connection is rejected.
  unfoldable pub check_limit :
      Limiter Regexp Bucket
      → Str
      → Str
      → Bool
      → Bool
      → ℕ
      → (ℤ → Bucket)
      → Option (Verdict Regexp Bucket)
  check_limit l taguuid ip is_tcp no_ss_udp now new_bucket =
      add_conn_count l.conn_limiter taguuid (normalize_ip ip) is_tcp now >>= λ r.
      let counted = record l { conn_limiter = r.0 } in
      let checked = check_user counted taguuid (normalize_ip ip) no_ss_udp now new_bucket in
      some (if r.1 then (counted, none, true) else checked)

  -- CheckDomainRule and CheckProtocolRule; `matches` is Regexp.MatchString.
  unfoldable pub check_domain_rule : (Regexp → Str → Bool) → Limiter Regexp Bucket → Str → Bool
  check_domain_rule matches l destination = any_match matches l.domain_rules destination

  unfoldable pub check_protocol_rule : Limiter Regexp Bucket → Str → Bool
  check_protocol_rule l protocol = any_equal l.protocol_rules protocol

  -- UpdateRule; `compile` is regexp.MustCompile, and `none` its panic.
  unfoldable pub update_rule :
      (Str → Option Regexp) → Rules → Limiter Regexp Bucket → Option (Limiter Regexp Bucket)
  update_rule compile rule l = compile_all compile rule.regexp >>= λ rs.
      some (record l { domain_rules = rs; protocol_rules = rule.protocol })
