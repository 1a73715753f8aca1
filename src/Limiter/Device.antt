-- ===== src/Limiter/Device.antt =====
-- limiter/limiter.go, the device limit of CheckLimit.
use yav2bx.Base.{
  ◌≡◌, inl, inr, true, false, ◌&&◌, [], ◌∷◌, Option, none, some, arith, if◌then◌else◌, ◌>>=◌,
  Option-cases,
}
use yav2bx.Int.{ℤ}
use yav2bx.Keys.{Str, str_eq, str_beq, str_beq_iff}
use yav2bx.Maps.{Map, lookup, insert, erase, lookup-insert, lookup-erase}
use yav2bx.Limiter.{Limiter}
use yav2bx.Limiter.Check.{track_device}

-- The uid under which an address of the user is online in the current window.
abbrev pub online_at {ℓ} : {V : Type ℓ} → Map Str (Map Str V) → Str → Str → Option V
online_at m u i = lookup u m >>= lookup i

module _ {Regexp Bucket : Type 0} (l : Limiter Regexp Bucket) (t ip : Str)
    (uid device_limit : ℤ) where
  -- A refused address leaves no trace: every user's addresses of the window, and those of the window
  -- before, are what they were.
  track_device_rollback :
      (track_device l t ip uid device_limit).1 ≡ true
      → (u i : Str)
      → (online_at (track_device l t ip uid device_limit).0.user_online_ip u i
          ≡ online_at l.user_online_ip u i)
        × ((track_device l t ip uid device_limit).0.old_user_online ≡ l.old_user_online)
  unfolding track_device
  track_device_rollback rejected u i = elim (Option-cases (lookup t l.user_online_ip)) [
    | inl q ↦ ground (
      arith,
      q,
      rejected,
      str_beq_iff t u,
      lookup-erase t u (insert t ((ip, uid) ∷ []) l.user_online_ip),
      lookup-insert t u ((ip, uid) ∷ []) l.user_online_ip,
    )
    | inr (m, q) ↦ ground (
      arith,
      q,
      rejected,
      str_beq_iff t u,
      str_beq_iff ip i,
      lookup-insert t u (erase ip (insert ip uid m)) l.user_online_ip,
      lookup-erase ip i (insert ip uid m),
      lookup-insert ip i uid m,
    )
  ]

  -- An accepted address is online for the user, and no other address of any user changes.
  track_device_accepts :
      (track_device l t ip uid device_limit).1 ≡ false
      → (u i : Str)
      → online_at (track_device l t ip uid device_limit).0.user_online_ip u i ≡ (
          if str_beq t u && str_beq ip i
          then elim (online_at l.user_online_ip t ip) [ none ↦ some uid | some v ↦ some v ]
          else online_at l.user_online_ip u i)
  unfolding track_device lookup
  track_device_accepts accepted u i = elim (Option-cases (lookup t l.user_online_ip)) [
    | inl q ↦
        ground
          (arith, q, accepted, str_beq_iff t u, lookup-insert t u ((ip, uid) ∷ []) l.user_online_ip)
    | inr (m, q) ↦ ground (
      arith,
      q,
      accepted,
      str_beq_iff t u,
      str_beq_iff ip i,
      lookup-insert t u (insert ip uid m) l.user_online_ip,
      lookup-insert ip i uid m,
    )
  ]
