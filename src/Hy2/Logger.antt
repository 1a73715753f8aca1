-- ===== src/Hy2/Logger.antt =====
-- core/hy2/logger.go: the events at which the hysteria2 core asks the limiter. Connect, TCPRequest and
-- UDPRequest do the same, but for the text that they log; the texts are not modelled. `none` is a
-- panic, as for a tag without a limiter.
use yav2bx.Base.{
  ℕ, ◌≡◌, refl, ◌∙◌, Bool, true, false, not, ◌||◌, Option, none, some, ◌>>=◌, arith, Ensures,
  Option-cases, inl, inr,
}
use yav2bx.Int.{ℤ}
use yav2bx.Keys.{Str, str_eq}
use yav2bx.Maps.{Map, lookup, insert, lookup-insert_self}
use yav2bx.Panel.{user_tag}
use yav2bx.Limiter.{UserLimitInfo, Limiter, get_limiter}
use yav2bx.Limiter.Check.{check_limit}
use yav2bx.Hy2.{HookServer, log_traffic}

abbrev pub has_record : Option UserLimitInfo → Bool
has_record none = false
has_record (some u) = true

-- Whether LogTraffic lets a user with this record stay.
abbrev admits : Option UserLimitInfo → Bool
admits none = true
admits (some u) = not u.over_limit

module _ {Regexp Bucket : Type 0} where
  -- The flag of a user's record, if there is one.
  unfoldable pub set_over_limit : Str → Bool → Limiter Regexp Bucket → Limiter Regexp Bucket
  set_over_limit key over l = elim (lookup key l.user_limit_info) [
    | none ↦ l
    | some u ↦ record l {
      user_limit_info = insert key (record u { over_limit = over }) l.user_limit_info;
    }
  ]

  -- Connect, TCPRequest and UDPRequest, for an address with its text and whether it is TCP.
  unfoldable pub connect :
      Map Str (Limiter Regexp Bucket)
      → Str
      → Str
      → Str
      → Bool
      → ℕ
      → (ℤ → Bucket)
      → Option (Map Str (Limiter Regexp Bucket))
  connect reg tag uuid ip is_tcp now new_bucket = elim (get_limiter tag reg) [
    | none ↦ none
    | some l ↦ check_limit l (user_tag tag uuid) ip is_tcp true now new_bucket >>= λ v.
        some (insert tag (set_over_limit (user_tag tag uuid) v.2 v.0) reg)
  ]

  set_over_limit-admits :
      (key : Str) (over : Bool) (l : Limiter Regexp Bucket)
      → admits (lookup key (set_over_limit key over l).user_limit_info)
        ≡ (not over || not (has_record (lookup key l.user_limit_info)))
  unfolding set_over_limit
  set_over_limit-admits key over l = elim (Option-cases (lookup key l.user_limit_info)) [
    | inl q ↦ rw (q, set_over_limit) (rw q (ground arith))
    | inr (u, q) ↦
        rw (q, set_over_limit)
          (rw (lookup-insert_self key (record u { over_limit = over }) l.user_limit_info)
            (ground arith))
  ]

  log_traffic-admits :
      (reg : Map Str (Limiter Regexp Bucket)) (h : HookServer) (uuid : Str) (sent received : ℕ)
      (l : Limiter Regexp Bucket)
      → lookup h.tag reg ≡ some l
      → (log_traffic reg h uuid sent received).2
        ≡ admits (lookup (user_tag h.tag uuid) l.user_limit_info)
  unfolding log_traffic get_limiter
  log_traffic-admits reg h uuid sent received l q =
      elim (Option-cases (lookup (user_tag h.tag uuid) l.user_limit_info)) [
        | inl none_there ↦ rw (q, log_traffic) (rw none_there refl)
        | inr (u, there) ↦ rw (q, log_traffic) (rw there (ground arith))
      ]

  -- (the hook's tag has a limiter, and CheckLimit gives a verdict) An event of the logger ends, and the
  -- next LogTraffic of the user asks for its disconnection exactly when CheckLimit rejected the user
  -- and the user still has a record.
  pub connect-log_traffic :
      (reg : Map Str (Limiter Regexp Bucket)) (h : HookServer) (uuid ip : Str) (is_tcp : Bool)
      (now : ℕ) (new_bucket : ℤ → Bucket) (l l' : Limiter Regexp Bucket) (bucket : Option Bucket)
      (reject : Bool) (sent received : ℕ)
      → lookup h.tag reg ≡ some l
      → check_limit l (user_tag h.tag uuid) ip is_tcp true now new_bucket
        ≡ some (l', bucket, reject)
      → Ensures
          (λ reg'.
            (log_traffic reg' h uuid sent received).2
            ≡ (not reject || not (has_record (lookup (user_tag h.tag uuid) l'.user_limit_info))))
          (connect reg h.tag uuid ip is_tcp now new_bucket)
  unfolding connect get_limiter
  connect-log_traffic reg h uuid ip is_tcp now new_bucket l l' bucket reject sent received q v =
      rw (q, connect)
        (rw v (
          log_traffic-admits _ h uuid sent received _
            (lookup-insert_self h.tag (set_over_limit (user_tag h.tag uuid) reject l') reg)
          ∙ set_over_limit-admits (user_tag h.tag uuid) reject l'))
