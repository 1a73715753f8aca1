-- ===== src/Conn/Sweep.antt =====
-- limiter/conn.go: what the sweep of ClearOnlineIP keeps.
use yav2bx.Base.{
  ℕ, ◌≡◌, refl, inl, inr, Bool, true, false, not, [], ◌∷◌, none, some, arith, ◌>>=◌, Option-cases,
}
use yav2bx.Int.{ℤ}
use yav2bx.Keys.{Str, str_eq}
use yav2bx.Maps.{
  Map, lookup, refine, Distinct, refine-Distinct, refine-Vals, Vals-lookup, length-refine,
  lookup-refine,
}
use yav2bx.Conn.{
  Online, counted, seen, ConnLimiter, keep_online, not_del, keep_user, clear_online_ip,
  is_sync_map_empty,
}
use yav2bx.Conn.Invariant.{EntryOk, IpsOk, IsValid}
use yav2bx.Conn.Release.{nonempty}

keep_online-EntryOk :
    (rt : Bool) (now : ℕ) (o o' : Online)
    → EntryOk rt o
    → keep_online now o ≡ some o'
    → EntryOk rt o'
unfolding keep_online
keep_online-EntryOk true now (counted n) o' k q = ground arith
keep_online-EntryOk true now (seen t) o' k q = elim k [ ]
keep_online-EntryOk false now (counted n) o' k q = elim k [ ]
keep_online-EntryOk false now (seen t) o' k q = ground arith

keep_user-IpsOk :
    (rt : Bool) (limit : ℤ) (now : ℕ) (ips ips' : Map Str Online)
    → IpsOk rt limit ips
    → keep_user now ips ≡ some ips'
    → IpsOk rt limit ips'
unfolding keep_user
keep_user-IpsOk rt limit now ips ips' v q = rw (← kept.1) (record {
  online = nonempty _ kept.0;
  within = λ h. ground (arith, v.within h, length-refine (keep_online now) ips);
  distinct = refine-Distinct (keep_online now) ips v.distinct;
  entries = refine-Vals (EntryOk rt) (keep_online now) ips (keep_online-EntryOk rt now) v.entries;
})
  where
    kept :
        (is_sync_map_empty (refine (keep_online now) ips) ≡ false)
        × (refine (keep_online now) ips ≡ ips')
    kept = ground arith

-- The sweep keeps the state well formed, with no user left who has no address.
clear_online_ip-IsValid : (now : ℕ) (c : ConnLimiter) → IsValid c → IsValid (clear_online_ip now c)
unfolding clear_online_ip
clear_online_ip-IsValid now c v = record {
  limit_ok = v.limit_ok;
  counts = v.counts;
  counts_distinct = v.counts_distinct;
  users =
      refine-Vals (IpsOk c.realtime c.ip_limit) (keep_user now) c.ip
        (keep_user-IpsOk c.realtime c.ip_limit now) v.users;
  users_distinct = refine-Distinct (keep_user now) c.ip v.users_distinct;
}

not_del-refine :
    (now : ℕ) (ips : Map Str Online)
    → not_del now ips ≡ not (is_sync_map_empty (refine (keep_online now) ips))
unfolding not_del refine is_sync_map_empty
not_del-refine now [] = refl
not_del-refine now ((i, o) ∷ ips) = ground (arith, not_del-refine now ips)

pub empty-lookup :
    (ip : Str) (ips : Map Str Online) → is_sync_map_empty ips ≡ true → lookup ip ips ≡ none
unfolding is_sync_map_empty lookup
empty-lookup ip [] q = refl
empty-lookup ip (x ∷ ips) q = cc

keep_user-lookup :
    (now : ℕ) (ip : Str) (ips : Map Str Online)
    → Distinct ips
    → (keep_user now ips >>= lookup ip) ≡ (lookup ip ips >>= keep_online now)
unfolding keep_user
keep_user-lookup now ip ips d = ground (
  arith,
  not_del-refine now ips,
  empty-lookup ip (refine (keep_online now) ips),
  lookup-refine (keep_online now) ip ips d,
)

-- The sweep decides address by address: an entry is dropped exactly when it is a packet-only one
-- of the realtime mode, or one of the other mode that was last seen longer ago than the time to live.
lookup-clear_online_ip :
    (now : ℕ) (c : ConnLimiter) (user ip : Str)
    → IsValid c
    → (lookup user (clear_online_ip now c).ip >>= lookup ip)
      ≡ ((lookup user c.ip >>= lookup ip) >>= keep_online now)
unfolding clear_online_ip
lookup-clear_online_ip now c user ip v =
    rw (lookup-refine (keep_user now) user c.ip v.users_distinct)
      (elim (Option-cases (lookup user c.ip)) [
        | inl q ↦ rw q
        | inr (ips, q) ↦ rw q (
            keep_user-lookup now ip ips
              (Vals-lookup (IpsOk c.realtime c.ip_limit) user c.ip ips v.users q).distinct)
      ])
