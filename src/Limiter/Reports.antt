-- ===== src/Limiter/Reports.antt =====
-- limiter/limiter.go: the online reports list each user's addresses once, and nothing else.
use yav2bx.Base.{
  ◌≡◌, sym, ◌∙◌, inl, inr, Bool, true, false, ◌||◌, List, [], ◌∷◌, ◌++◌, none, some, arith,
  if◌then◌else◌, Bool-cases, Option-cases,
}
use mathlib.Core.List.{append_assoc, append-nil}
use yav2bx.Int.{ℤ, eq_ℤ, eq_ℤ_iff}
use yav2bx.Keys.{Str, str_eq, int_eq}
use yav2bx.Maps.{Map, lookup, lookup-insert}
use yav2bx.Panel.{OnlineUser}
use yav2bx.Limiter.{Limiter}
use yav2bx.Limiter.Online.{snapshot_online_users, append_ip, group_online, get_online_ip_map}
use yav2bx.Limiter.Snapshot.{has_address}

-- The addresses of a user in a list of pairs, in order.
abbrev pub ips_of : ℤ → List OnlineUser → List Str
ips_of uid [] = []
ips_of uid (o ∷ os) = if eq_ℤ o.uid uid then o.ip ∷ ips_of uid os else ips_of uid os

abbrev pub list_at : ℤ → Map ℤ (List Str) → List Str
list_at uid m = elim (lookup uid m) [ none ↦ [] | some ips ↦ ips ]

pub append_ip-list_at :
    (uid u : ℤ) (ip : Str) (m : Map ℤ (List Str))
    → list_at u (append_ip uid ip m)
      ≡ (if eq_ℤ uid u then list_at u m ++ (ip ∷ []) else list_at u m)
unfolding append_ip
append_ip-list_at uid u ip m = elim (Option-cases (lookup uid m)) [
  | inl q ↦ ground (arith, q, eq_ℤ_iff uid u, lookup-insert uid u (ip ∷ []) m)
  | inr (ips, q) ↦ ground (arith, q, eq_ℤ_iff uid u, lookup-insert uid u (ips ++ (ip ∷ [])) m)
]

group_online-list_at :
    (u : ℤ) (m : Map ℤ (List Str)) (os : List OnlineUser)
    → list_at u (group_online m os) ≡ list_at u m ++ ips_of u os
unfolding group_online
group_online-list_at u m [] = sym (append-nil (list_at u m))
group_online-list_at u m (o ∷ os) =
    group_online-list_at u (append_ip o.uid o.ip m) os ∙ elim (Bool-cases (eq_ℤ o.uid u)) [
      | inl e ↦
          rw (append_ip-list_at o.uid u o.ip m, e)
            (append_assoc (list_at u m) (o.ip ∷ []) (ips_of u os))
      | inr e ↦ rw (append_ip-list_at o.uid u o.ip m, e)
    ]

known : {V : Type 0} → Str → Map Str V → Bool
known ip m = elim (lookup ip m) [ none ↦ false | some _ ↦ true ]

-- Some user has the address in the window.
abbrev in_window : Str → Map Str (Map Str ℤ) → Bool
in_window ip [] = false
in_window ip ((t, ips) ∷ us) = has_address ip ips || in_window ip us

module _ {Regexp Bucket : Type 0} where
  -- GetOnlineIPMap lists under each user id the addresses of the snapshot for that id, in its order.
  get_online_ip_map_lem :
      (l : Limiter Regexp Bucket) (uid : ℤ)
      → list_at uid (get_online_ip_map l) ≡ ips_of uid (snapshot_online_users l)
  unfolding get_online_ip_map lookup
  get_online_ip_map_lem l uid = group_online-list_at uid [] (snapshot_online_users l)
