-- ===== src/Xray/Counts.antt =====
-- core/xray/user.go: the counters of the statistics, as a node's report reads them.
use yav2bx.Base.{
  ◌≡◌, ◌+◌, refl, ap, ap₂, sym, ◌∙◌, true, false, ◌&&◌, [], ◌∷◌, ◌++◌, length, arith, Bool-cases,
  inl, inr,
}
use mathlib.Core.List.{append_assoc}
use yav2bx.Int.{ℤ}
use yav2bx.Keys.{Str, str_beq, str_beq_iff}
use yav2bx.Maps.{lookup}
use yav2bx.Panel.{user_tag}
use yav2bx.Text.{bytes}
use yav2bx.Limiter.Users.{beq-append, user_tag-beq}
use yav2bx.Node.Reports.Traffic.{Counts}
use yav2bx.Xray.{uplink_name, downlink_name}
use yav2bx.Xray.Users.{StatsState, value_of, get_user_traffic}
use yav2bx.Xray.Traffic.{get_user_traffic_lem}

beq-length : (a b : Str) → str_beq a b ≡ true → length a ≡ length b
beq-length a b q = ap length ((str_beq_iff a b).0 q)

length-append : (a b : Str) → length (a ++ b) ≡ length a + length b
length-append [] b = ground arith
length-append (x ∷ a) b = ground (arith, length-append a b)

-- Texts with ends of one length.
beq-ends :
    (a b s t : Str) → length s ≡ length t → str_beq (a ++ s) (b ++ t) ≡ (str_beq a b && str_beq s t)
unfolding str_beq
beq-ends [] [] s t n = refl
beq-ends [] (y ∷ b) s t n = elim (Bool-cases (str_beq s ((y ∷ b) ++ t))) [
  | inl q ↦ absurd (omega (arith, beq-length s ((y ∷ b) ++ t) q, length-append b t, n))
  | inr q ↦ q
]
beq-ends (x ∷ a) [] s t n = elim (Bool-cases (str_beq ((x ∷ a) ++ s) t)) [
  | inl q ↦ absurd (omega (arith, beq-length ((x ∷ a) ++ s) t q, length-append a s, n))
  | inr q ↦ q
]
beq-ends (x ∷ a) (y ∷ b) s t n = ground (arith, beq-ends a b s t n)

name-beq :
    (email other s t : Str)
    → length s ≡ length t
    → str_beq (bytes "user>>>" ++ (email ++ s)) (bytes "user>>>" ++ (other ++ t))
      ≡ (str_beq email other && str_beq s t)
name-beq email other s t n =
    beq-append (bytes "user>>>") (email ++ s) (other ++ t) ∙ beq-ends email other s t n

-- The counts of a user.
abbrev pub counts_of : Str → Str → StatsState → ℤ × ℤ
counts_of tag uuid stats = (
  value_of (uplink_name (user_tag tag uuid)) stats,
  value_of (downlink_name (user_tag tag uuid)) stats,
)

uplink-uplink :
    (tag a b : Str)
    → str_beq (uplink_name (user_tag tag a)) (uplink_name (user_tag tag b)) ≡ str_beq a b
unfolding str_beq
uplink-uplink tag a b =
    name-beq (user_tag tag a) (user_tag tag b) _ _ refl ∙ rw (user_tag-beq tag a b) (ground arith)

downlink-downlink :
    (tag a b : Str)
    → str_beq (downlink_name (user_tag tag a)) (downlink_name (user_tag tag b)) ≡ str_beq a b
unfolding str_beq
downlink-downlink tag a b =
    name-beq (user_tag tag a) (user_tag tag b) _ _ refl ∙ rw (user_tag-beq tag a b) (ground arith)

-- The last six letters tell the two directions apart.
ends_differ :
    (email other : Str)
    → str_beq (email ++ bytes ">>>traffic>>>uplink") (other ++ bytes ">>>traffic>>>downlink")
      ≡ false
unfolding str_beq
ends_differ email other =
    ap₂ str_beq (sym (append_assoc email (bytes ">>>traffic>>>") (bytes "uplink")))
      (sym (append_assoc other (bytes ">>>traffic>>>do") (bytes "wnlink")))
    ∙ beq-ends (email ++ bytes ">>>traffic>>>") (other ++ bytes ">>>traffic>>>do") (bytes "uplink")
        (bytes "wnlink") refl
    ∙ ground arith

beq_sym : (a b : Str) → str_beq a b ≡ str_beq b a
unfolding str_beq
beq_sym [] [] = refl
beq_sym [] (y ∷ b) = refl
beq_sym (x ∷ a) [] = refl
beq_sym (x ∷ a) (y ∷ b) = ground (arith, beq_sym a b)

uplink-downlink : (email other : Str) → str_beq (uplink_name email) (downlink_name other) ≡ false
uplink-downlink email other =
    beq-append (bytes "user>>>") (email ++ bytes ">>>traffic>>>uplink")
      (other ++ bytes ">>>traffic>>>downlink")
    ∙ ends_differ email other

downlink-uplink : (email other : Str) → str_beq (downlink_name email) (uplink_name other) ≡ false
downlink-uplink email other =
    beq_sym (downlink_name email) (uplink_name other) ∙ uplink-downlink other email

-- The statistics of xray count as a node's report reads them: a read of a user with a reset gives the
-- user's two counters, which are then 0, and changes those of no other user of the node.
pub get_user_traffic-Counts : Counts get_user_traffic counts_of
unfolding get_user_traffic lookup
get_user_traffic-Counts = record {
  reads = λ tag uuid s. let r = get_user_traffic_lem tag uuid true s [] in rw (r.0, r.1) refl;
  resets = λ tag uuid other s.
      let up = get_user_traffic_lem tag uuid true s (uplink_name (user_tag tag other)) in
      let down = get_user_traffic_lem tag uuid true s (downlink_name (user_tag tag other)) in
      rw
        (
          up.2,
          down.2,
          uplink-uplink tag uuid other,
          downlink-uplink (user_tag tag uuid) (user_tag tag other),
          uplink-downlink (user_tag tag uuid) (user_tag tag other),
          downlink-downlink tag uuid other,
        )
        (ground arith);
}
