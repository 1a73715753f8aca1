-- ===== src/Conn/Entries.antt =====
-- limiter/conn.go: what one call makes of the counts and of the entries of the addresses.
use yav2bx.Base.{
  ℕ, ◌≡◌, inl, inr, Bool, true, false, ◌&&◌, [], ◌∷◌, Option, none, some, arith, if◌then◌else◌,
  ◌>>=◌, Bool-cases, Option-cases, Ensures,
}
use yav2bx.Int.{ℤ, pos, ◌+ℤ◌, ◌-ℤ◌, eq_ℤ}
use yav2bx.Keys.{Str, str_eq, str_beq, str_beq_iff}
use yav2bx.Maps.{
  Map, lookup, insert, erase, Vals-lookup, lookup-insert, lookup-erase, lookup-insert_self,
}
use yav2bx.Conn.{
  Online, counted, seen, ConnLimiter, add_count, add_ip, add_online, touch, first_entry, del_count,
  del_ip, is_sync_map_empty,
}
use yav2bx.Conn.Invariant.{IsValid, CountOk}
use yav2bx.Conn.Sweep.{empty-lookup}
use yav2bx.Conn.Decision.{entry}

pub count_roundtrip :
    (c : ConnLimiter) (user u : Str) (m : Map Str (Map Str Online))
    → IsValid c
    → (add_count c user true).0 ≡ false
    → lookup u (del_count (record c { count = (add_count c user true).1; ip = m }) user)
      ≡ lookup u c.count
unfolding add_count del_count
count_roundtrip c user u m v ok = elim (Option-cases (lookup user c.count)) [
  | inl q ↦ ground (
    arith,
    q,
    str_beq_iff user u,
    lookup-insert user u (pos 1) c.count,
    lookup-insert_self user (pos 1) c.count,
    lookup-erase user u (insert user (pos 1) c.count),
  )
  | inr (n, q) ↦ ground (
    arith,
    q,
    str_beq_iff user u,
    v.limit_ok,
    Vals-lookup (CountOk c.conn_limit) user c.count n v.counts q,
    lookup-insert user u (n +ℤ pos 1) c.count,
    lookup-insert_self user (n +ℤ pos 1) c.count,
    lookup-insert user u (n +ℤ pos 1 -ℤ pos 1) (insert user (n +ℤ pos 1) c.count),
  )
]

-- What DelConnCount does to the addresses, entry by entry.
pub del_ip-entry :
    (m : Map Str (Map Str Online)) (user ip : Str) (ips : Map Str Online) (n : ℤ)
    → lookup user m ≡ some ips
    → lookup ip ips ≡ some (counted n)
    → Ensures
        (λ m'.
          (u i : Str)
          → (lookup u m' >>= lookup i) ≡ (
              if str_beq user u && str_beq ip i
              then (if eq_ℤ n (pos 2) then none else some (counted (n -ℤ pos 2)))
              else (lookup u m >>= lookup i)))
        (del_ip m user ip)
unfolding del_ip
del_ip-entry m user ip ips n q r =
    rw (q, r, del_ip)
      λ u i. elim (Bool-cases (eq_ℤ n (pos 2))) [
        | inl two ↦ rw two (close u i (erase ip ips) none (λ j. lookup-erase ip j ips))
        | inr more ↦ rw more (
            close u i (insert ip (counted (n -ℤ pos 2)) ips) (some (counted (n -ℤ pos 2)))
              (λ j. lookup-insert ip j (counted (n -ℤ pos 2)) ips))
      ]
  where
    close :
        (u i : Str) (ips' : Map Str Online) (o : Option Online)
        → ((j : Str) → lookup j ips' ≡ (if str_beq ip j then o else lookup j ips))
        → (lookup u (if is_sync_map_empty ips' then erase user m else insert user ips' m)
            >>= lookup i)
          ≡ (if str_beq user u && str_beq ip i then o else (lookup u m >>= lookup i))
    close u i ips' o h = ground (
      arith,
      q,
      h i,
      str_beq_iff user u,
      empty-lookup i ips',
      lookup-erase user u m,
      lookup-insert user u ips' m,
    )

-- What an accepted TCP connection does to the addresses in the realtime mode.
abbrev pub opened : Option Online → Option Online
opened none = some (counted (pos 2))
opened (some (counted n)) = some (counted (n +ℤ pos 2))
opened (some (seen t)) = none

pub add_online-entry :
    (c : ConnLimiter) (user ip : Str) (now : ℕ) (c' : ConnLimiter)
    → c.realtime ≡ true
    → add_online c user ip true now ≡ some (c', false)
    → (u i : Str)
    → entry c' u i
      ≡ (if str_beq user u && str_beq ip i then opened (entry c user ip) else entry c u i)
unfolding add_online add_ip touch first_entry lookup
add_online-entry c user ip now c' rt e u i = elim (Option-cases (lookup user c.ip)) [
  | inl q ↦
      ground (
        arith,
        q,
        rt,
        e,
        str_beq_iff user u,
        lookup-insert user u ((ip, counted (pos 2)) ∷ []) c.ip,
      )
  | inr (ips, q) ↦ elim (Option-cases (lookup ip ips)) [
    | inl r ↦ ground (
      arith,
      q,
      r,
      rt,
      e,
      str_beq_iff user u,
      lookup-insert user u (insert ip (counted (pos 2)) ips) c.ip,
      lookup-insert ip i (counted (pos 2)) ips,
    )
    | inr (seen t, r) ↦ ground (arith, q, r, rt, e)
    | inr (counted n, r) ↦ ground (
      arith,
      q,
      r,
      rt,
      e,
      str_beq_iff user u,
      lookup-insert user u (insert ip (counted (n +ℤ pos 2)) ips) c.ip,
      lookup-insert ip i (counted (n +ℤ pos 2)) ips,
    )
  ]
]

-- Only the addresses change in the second half of AddConnCount.
pub add_online-config :
    (c : ConnLimiter) (user ip : Str) (tcp : Bool) (now : ℕ) (c' : ConnLimiter) (b : Bool)
    → add_online c user ip tcp now ≡ some (c', b)
    → c' ≡ record c { ip = c'.ip }
unfolding add_online
add_online-config c user ip tcp now c' b e = elim (Option-cases (lookup user c.ip)) [
  | inl q ↦ ground (arith, q, e)
  | inr (ips, q) ↦ elim (Option-cases (add_ip c ips ip tcp now)) [
    | inl r ↦ ground (arith, q, r, e)
    | inr (x, r) ↦ ground (arith, q, r, e)
  ]
]
