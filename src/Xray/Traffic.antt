-- ===== src/Xray/Traffic.antt =====
-- core/xray/user.go: what is left of the statistics when traffic is read, and when users are deleted.
use yav2bx.Base.{
  ◌≡◌, refl, Bool, true, false, ◌&&◌, ◌||◌, List, [], ◌∷◌, Option, none, some, arith, if◌then◌else◌,
  Option-cases, Bool-cases, subst, inl, inr,
}
use yav2bx.Int.{ℤ, pos}
use yav2bx.Keys.{Str, str_eq, str_beq, str_beq_iff}
use yav2bx.Maps.{Map, lookup, erase, lookup-insert, lookup-erase}
use yav2bx.Panel.{UserInfo, user_tag}
use yav2bx.Limiter.Users.{has_uuid}
use yav2bx.Xray.{online_name, uplink_name, downlink_name}
use yav2bx.Xray.Users.{
  StatsState, UserManager, value_of, clear_counter, get_user_traffic, unregister, remove_all,
  del_users,
}

-- The value of a counter in a map of them.
abbrev count_of : Option ℤ → ℤ
count_of none = pos 0
count_of (some n) = n

clear_counter-lookup :
    (name other : Str) (m : Map Str ℤ)
    → count_of (lookup other (clear_counter name m))
      ≡ (if str_beq name other then pos 0 else count_of (lookup other m))
clear_counter-lookup name other m = elim (Option-cases (lookup name m)) [
  | inl q ↦ rw (q, clear_counter) (ground (arith, q, str_beq_iff name other))
  | inr (n, q) ↦ rw (q, clear_counter) (rw (lookup-insert name other (pos 0) m) (ground arith))
]

-- A read of a user's traffic gives the two counters. With a reset these are 0 afterwards, so that the
-- next read gives nothing twice; every other counter stays, and without a reset all do.
pub get_user_traffic_lem :
    (tag uuid : Str) (reset : Bool) (stats : StatsState) (name : Str)
    → let up = uplink_name (user_tag tag uuid) in
      let down = downlink_name (user_tag tag uuid) in
      let r = get_user_traffic tag uuid reset stats in
      (r.1.0 ≡ value_of up stats)
      × (r.1.1 ≡ value_of down stats)
      × (value_of name r.0 ≡ (
          if reset && (str_beq up name || str_beq down name) then pos 0 else value_of name stats))
unfolding get_user_traffic
get_user_traffic_lem tag uuid true stats name = (
  refl,
  refl,
  ground (
    arith,
    clear_counter-lookup (downlink_name (user_tag tag uuid)) name
        (clear_counter (uplink_name (user_tag tag uuid)) stats.counters),
    clear_counter-lookup (uplink_name (user_tag tag uuid)) name stats.counters,
  ),
)
get_user_traffic_lem tag uuid false stats name = (refl, refl, refl)

-- No counter and no online map has a name of the user.
abbrev pub Gone : Str → StatsState → Type 0
Gone email stats =
    (lookup (uplink_name email) stats.counters ≡ none)
    × (lookup (downlink_name email) stats.counters ≡ none)
    × (lookup (online_name email) stats.online ≡ none)

erase-none :
    {V : Type 0} (k j : Str) (m : Map Str V) → lookup j m ≡ none → lookup j (erase k m) ≡ none
erase-none k j m h = rw (lookup-erase k j m) (ground (arith, h))

erased-none : {V : Type 0} (k : Str) (m : Map Str V) → lookup k (erase k m) ≡ none
erased-none k m = rw (lookup-erase k k m) (ground (arith, str_beq_iff k k))

unregister-Gone : (email : Str) (stats : StatsState) → Gone email (unregister email stats)
unfolding unregister
unregister-Gone email stats = (
  erase-none (downlink_name email) (uplink_name email) _
      (erased-none (uplink_name email) stats.counters),
  erased-none (downlink_name email) (erase (uplink_name email) stats.counters),
  erased-none (online_name email) stats.online,
)

unregister_keeps :
    (other email : Str) (stats : StatsState)
    → Gone email stats
    → Gone email (unregister other stats)
unfolding unregister
unregister_keeps other email stats (up, down, online) = (
  erase-none (downlink_name other) (uplink_name email) _
      (erase-none (uplink_name other) (uplink_name email) stats.counters up),
  erase-none (downlink_name other) (downlink_name email) _
      (erase-none (uplink_name other) (downlink_name email) stats.counters down),
  erase-none (online_name other) (online_name email) stats.online online,
)

module _ {S : Type 0} (man : UserManager S) (tag uuid : Str) where
  remove_all_keeps :
      (users : List UserInfo) (s : S) (stats : StatsState)
      → Gone (user_tag tag uuid) stats
      → Gone (user_tag tag uuid) (remove_all man tag users (s, stats)).0.1
  unfolding remove_all
  remove_all_keeps [] s stats g = g
  remove_all_keeps (u ∷ us) s stats g =
      elim (Option-cases (man.remove tag (user_tag tag u.uuid) s)) [
        | inl q ↦ rw (q, remove_all) g
        | inr (s', q) ↦
            rw (q, remove_all)
              (remove_all_keeps us s' _
                (unregister_keeps (user_tag tag u.uuid) (user_tag tag uuid) stats g))
      ]

  remove_all-Gone :
      (users : List UserInfo) (s : S) (stats : StatsState)
      → (remove_all man tag users (s, stats)).1 ≡ false
      → has_uuid uuid users ≡ true
      → Gone (user_tag tag uuid) (remove_all man tag users (s, stats)).0.1
  unfolding remove_all
  remove_all-Gone [] s stats ok h = cc
  remove_all-Gone (u ∷ us) s stats ok h =
      elim (Option-cases (man.remove tag (user_tag tag u.uuid) s)) [
        | inl q ↦ absurd (ground (arith, q, ok))
        | inr (s', q) ↦
            let ok' = rw (q, remove_all) at ok in
            rw (q, remove_all)
              (elim (Bool-cases (str_beq u.uuid uuid)) [
                | inl same ↦ remove_all_keeps us s' _ (
                    subst (λ i. Gone (user_tag tag i) (unregister (user_tag tag u.uuid) stats))
                      ((str_beq_iff u.uuid uuid).0 same)
                      (unregister-Gone (user_tag tag u.uuid) stats))
                | inr other ↦ remove_all-Gone us s' _ ok' (ground (arith, h, other))
              ])
      ]

-- (the deletion gives no error) DelUsers leaves no counter and no online address of the deleted users.
del_users-Gone :
    {S : Type 0} (man : UserManager S) (users : List UserInfo) (tag uuid : Str) (s : S)
    (stats : StatsState)
    → (del_users man users tag (s, stats)).1 ≡ false
    → has_uuid uuid users ≡ true
    → Gone (user_tag tag uuid) (del_users man users tag (s, stats)).0.1
unfolding del_users
del_users-Gone man users tag uuid s stats ok h = elim (Bool-cases (man.is_there tag s)) [
  | inl there ↦
      let ok' = rw there at ok in rw there (remove_all-Gone man tag uuid users s stats ok' h)
  | inr absent ↦ absurd (ground (arith, ok, absent))
]
