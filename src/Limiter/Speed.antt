-- ===== src/Limiter/Speed.antt =====
-- limiter/dynamic.go and the speed limits of CheckLimit in limiter/limiter.go.
use yav2bx.Base.{
  ◌≡◌, ◌≢◌, ◌↔◌, ◌⊎◌, sym, ap, inl, inr, ◌∙◌, some, arith, ◌>>=◌, Bool-cases, Option-cases,
}
use yav2bx.Int.{ℤ, pos, negsuc, ◌≤ℤ◌, ◌<ℤ◌, eq_ℤ, eq_ℤ_iff}
use yav2bx.Keys.{Str, str_eq}
use yav2bx.Maps.{lookup, lookup-insert_self, lookup-erase_self}
use yav2bx.Limiter.{Limiter, determine_speed_limit}
use yav2bx.Limiter.Check.{speed_bucket}

-- (limits that are not negative) determineSpeedLimit is the minimum of the limits that are set:
-- it is one of the two, it exceeds no limit that is not zero, and it is zero exactly if both are.
determine_speed_limit_min :
    (a b : ℤ)
    → pos 0 ≤ℤ a
    → pos 0 ≤ℤ b
    → ((determine_speed_limit a b ≡ a) ⊎ (determine_speed_limit a b ≡ b))
      × (a ≢ pos 0 → determine_speed_limit a b ≤ℤ a)
      × (b ≢ pos 0 → determine_speed_limit a b ≤ℤ b)
      × ((determine_speed_limit a b ≡ pos 0) ↔ ((a ≡ pos 0) × (b ≡ pos 0)))
unfolding determine_speed_limit
determine_speed_limit_min (pos a) (pos b) h k = ground arith
determine_speed_limit_min (negsuc a) b h k = absurd (omega arith)
determine_speed_limit_min (pos a) (negsuc b) h k = absurd (omega arith)

module _ {Regexp Bucket : Type 0} where
  -- The bucket that a call serves is the one that the cache holds behind it, at the call's limit: a
  -- cached bucket of the same limit is handed out again, any other is replaced by a new one; with no
  -- limit no bucket is served, and none is cached.
  speed_bucket_cached :
      (l : Limiter Regexp Bucket) (t : Str) (limit : ℤ) (new_bucket : ℤ → Bucket)
      → lookup t (speed_bucket l t limit new_bucket).0.speed_limiter ≡ (
          (speed_bucket l t limit new_bucket).1 >>= λ b.
          some (record { limit = limit; bucket = b }))
  unfolding speed_bucket
  speed_bucket_cached l t limit new_bucket = elim (Option-cases (lookup t l.speed_limiter)) [
    | inl q ↦ ground (
      arith,
      q,
      lookup-insert_self t (record { limit = limit; bucket = new_bucket limit }) l.speed_limiter,
      lookup-erase_self t l.speed_limiter,
    )
    | inr (cached, q) ↦ ground (
      arith,
      q,
      eq_ℤ_iff cached.limit limit,
      lookup-insert_self t (record { limit = limit; bucket = new_bucket limit }) l.speed_limiter,
      lookup-erase_self t l.speed_limiter,
    )
  ]

  speed_bucket_hit :
      (l : Limiter Regexp Bucket) (t : Str) (limit : ℤ) (b : Bucket) (later : ℤ → Bucket)
      → pos 0 <ℤ limit
      → lookup t l.speed_limiter ≡ some (record { limit = limit; bucket = b })
      → speed_bucket l t limit later ≡ (l, some b)
  unfolding speed_bucket
  speed_bucket_hit l t limit b later h q = rw q (ground (arith, eq_ℤ_iff limit limit))

  speed_bucket-some :
      (l : Limiter Regexp Bucket) (t : Str) (limit : ℤ) (new_bucket : ℤ → Bucket)
      → pos 0 <ℤ limit
      → (b : Bucket) × ((speed_bucket l t limit new_bucket).1 ≡ some b)
  unfolding speed_bucket
  speed_bucket-some l t limit new_bucket h = elim (Option-cases (lookup t l.speed_limiter)) [
    | inl q ↦ (new_bucket limit, ground (arith, q))
    | inr (cached, q) ↦ elim (Bool-cases (eq_ℤ cached.limit limit)) [
      | inl same ↦ (cached.bucket, ground (arith, q, same))
      | inr other ↦ (new_bucket limit, ground (arith, q, other))
    ]
  ]

  -- So the connections of a user share a bucket as long as the limit stays: the next call with the same
  -- limit serves the same bucket, whatever the package would build, and changes nothing.
  speed_bucket_shared :
      (l : Limiter Regexp Bucket) (t : Str) (limit : ℤ) (new_bucket later : ℤ → Bucket)
      → pos 0 <ℤ limit
      → speed_bucket (speed_bucket l t limit new_bucket).0 t limit later
        ≡ speed_bucket l t limit new_bucket
  speed_bucket_shared l t limit new_bucket later h =
      let (b, served) = speed_bucket-some l t limit new_bucket h in
      speed_bucket_hit (speed_bucket l t limit new_bucket).0 t limit b later h
        (rw served at (speed_bucket_cached l t limit new_bucket))
      ∙ ap (λ o. ((speed_bucket l t limit new_bucket).0, o)) (sym served)
