-- ===== src/Limiter/Known.antt =====
-- limiter/limiter.go, CheckLimit: users with no record are refused, and how a record is lost.
use yav2bx.Base.{
  ℕ, ◌≡◌, inl, inr, Bool, some, arith, Bool-cases, Option-cases, Ensures, Ensures-map,
}
use yav2bx.Int.{ℤ}
use yav2bx.Keys.{Str, str_eq}
use yav2bx.Maps.{lookup}
use yav2bx.Panel.{normalize_ip}
use yav2bx.Conn.{add_conn_count}
use yav2bx.Conn.Invariant.{IsValid, add_conn_count-IsValid}
use yav2bx.Limiter.{UserLimitInfo, Limiter}
use yav2bx.Limiter.Check.{
  byte_limit, user_limit, track_device, speed_bucket, check_user, check_limit,
}

module _ {Regexp Bucket : Type 0} where
  track_device-info :
      (l : Limiter Regexp Bucket) (t ip : Str) (uid d : ℤ)
      → ((track_device l t ip uid d).0.user_limit_info ≡ l.user_limit_info)
        × ((track_device l t ip uid d).0.conn_limiter ≡ l.conn_limiter)
  unfolding track_device
  track_device-info l t ip uid d = elim (Option-cases (lookup t l.user_online_ip)) [
    | inl q ↦ ground (arith, q)
    | inr (m, q) ↦ ground (arith, q)
  ]

  speed_bucket-info :
      (l : Limiter Regexp Bucket) (t : Str) (limit : ℤ) (new_bucket : ℤ → Bucket)
      → ((speed_bucket l t limit new_bucket).0.user_limit_info ≡ l.user_limit_info)
        × ((speed_bucket l t limit new_bucket).0.conn_limiter ≡ l.conn_limiter)
  unfolding speed_bucket
  speed_bucket-info l t limit new_bucket = ground arith

  user_limit-conn :
      (l : Limiter Regexp Bucket) (u : UserLimitInfo) (t : Str) (now : ℕ)
      → (user_limit l u t now).0.conn_limiter ≡ l.conn_limiter
  unfolding user_limit
  user_limit-conn l u t now = ground arith

  -- What follows the count of the connection leaves that count alone, and the user's record as the
  -- speed limits left it.
  check_user-info :
      (l : Limiter Regexp Bucket) (t ip : Str) (ns : Bool) (now : ℕ) (new_bucket : ℤ → Bucket)
      (u : UserLimitInfo)
      → lookup t l.user_limit_info ≡ some u
      → ((check_user l t ip ns now new_bucket).0.user_limit_info
          ≡ (user_limit l u t now).0.user_limit_info)
        × ((check_user l t ip ns now new_bucket).0.conn_limiter ≡ l.conn_limiter)
  unfolding check_user
  check_user-info l t ip ns now new_bucket u q =
      let l1 = (user_limit l u t now).0 in
      let rate = byte_limit l.speed_limit (user_limit l u t now).1 in
      let l2 = (track_device l1 t ip u.uid u.device_limit).0 in
      ground (
        arith,
        q,
        user_limit-conn l u t now,
        track_device-info l1 t ip u.uid u.device_limit,
        speed_bucket-info l2 t rate new_bucket,
        speed_bucket-info l1 t rate new_bucket,
      )

  pub check_user-conn :
      (l : Limiter Regexp Bucket) (t ip : Str) (ns : Bool) (now : ℕ) (new_bucket : ℤ → Bucket)
      → (check_user l t ip ns now new_bucket).0.conn_limiter ≡ l.conn_limiter
  unfolding check_user
  check_user-conn l t ip ns now new_bucket = elim (Option-cases (lookup t l.user_limit_info)) [
    | inl q ↦ ground (arith, q)
    | inr (u, q) ↦ unfold check_user in (check_user-info l t ip ns now new_bucket u q).1
  ]

  module _ (l : Limiter Regexp Bucket) (t ip : Str) (tcp ns : Bool) (now : ℕ)
      (new_bucket : ℤ → Bucket) (v : IsValid l.conn_limiter) where
    -- The invariant of the connection counts survives CheckLimit, which never panics.
    pub check_limit-IsValid :
        Ensures (λ r. IsValid r.0.conn_limiter) (check_limit l t ip tcp ns now new_bucket)
    unfolding check_limit
    check_limit-IsValid =
        Ensures-map (λ r. IsValid r.0) (λ r. IsValid r.0.conn_limiter)
          (add_conn_count l.conn_limiter t (normalize_ip ip) tcp now) _
          (add_conn_count-IsValid l.conn_limiter t (normalize_ip ip) tcp now v)
          (λ r w. elim (Bool-cases r.1) [
            | inl over ↦ rw over w
            | inr ok ↦
                rw
                  (
                    ok,
                    check_user-conn (record l { conn_limiter = r.0 }) t (normalize_ip ip) ns now
                        new_bucket,
                  )
                  w
          ])
