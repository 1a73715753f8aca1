-- ===== src/Conn/Release.antt =====
-- limiter/conn.go: closing a connection and sweeping idle addresses keep the state well formed, and
-- what they do to each address.
use yav2bx.Base.{
  ◌≤◌, ◌≡◌, ◌≢◌, refl, sym, ap, subst, inl, inr, Bool, true, false, not, [], ◌∷◌, Option, none,
  some, arith, if◌then◌else◌, ◌>>=◌, length, Bool-cases, Option-cases, Ensures,
}
use yav2bx.Int.{ℤ, pos, negsuc, ◌-ℤ◌, ◌≤ℤ◌, eq_ℤ, eq_ℤ_iff}
use yav2bx.Keys.{Str, str_eq}
use yav2bx.Maps.{
  Map, lookup, insert, erase, Distinct, Vals, insert-Distinct, erase-Distinct, insert-Vals,
  erase-Vals, Vals-lookup, length-erase,
}
use yav2bx.Conn.{
  Online, counted, seen, ConnLimiter, del_count, del_ip, del_conn_count, as_count,
  is_sync_map_empty,
}
use yav2bx.Conn.Invariant.{EntryOk, IpsOk, IsValid, CountOk, store-IpsOk, del_count-Vals}

pub nonempty : (ips : Map Str Online) → is_sync_map_empty ips ≡ false → 1 ≤ length ips
unfolding is_sync_map_empty
nonempty [] h = cc
nonempty (x ∷ ips) h = omega arith

-- What removing or lowering an entry leaves, if an address is left.
lower-IpsOk :
    (limit : ℤ) (ips : Map Str Online) (ip : Str) (n : ℤ)
    → IpsOk true limit ips
    → lookup ip ips ≡ some (counted n)
    → n ≢ pos 1
    → is_sync_map_empty
        (if eq_ℤ n (pos 2) then erase ip ips else insert ip (counted (n -ℤ pos 2)) ips)
      ≡ false
    → IpsOk true limit
        (if eq_ℤ n (pos 2) then erase ip ips else insert ip (counted (n -ℤ pos 2)) ips)
lower-IpsOk limit ips ip n v q ne some_left = elim (Bool-cases (eq_ℤ n (pos 2))) [
  | inl two ↦ rw two (record {
    online = nonempty _ (rw two at some_left);
    within = λ h. ground (arith, v.within h, length-erase ip ips);
    distinct = erase-Distinct ip ips v.distinct;
    entries = erase-Vals (EntryOk true) ip ips v.entries;
  })
  | inr more ↦ rw more (
      store-IpsOk true limit ips ip (counted (n -ℤ pos 2)) v
        (big n (Vals-lookup (EntryOk true) ip ips (counted n) v.entries q) ne more) (λ no. cc))
]
  where
    big : (n : ℤ) → pos 1 ≤ℤ n → n ≢ pos 1 → eq_ℤ n (pos 2) ≡ false → pos 1 ≤ℤ (n -ℤ pos 2)
    big (pos n) h ne q = elim (Bool-cases (eq_ℤ (pos n) (pos 1))) [
      | inl one ↦ absurd (ne ((eq_ℤ_iff (pos n) (pos 1)).0 one))
      | inr other ↦ ground arith
    ]
    big (negsuc n) h ne q = ground arith

-- No call closes a connection at an address that only packets keep online.
abbrev pub NoPacketOnly : ConnLimiter → Str → Str → Type 0
NoPacketOnly c user ip = (lookup user c.ip >>= lookup ip) ≢ some (counted (pos 1))

del_ip-IpsOk :
    (limit : ℤ) (m : Map Str (Map Str Online)) (user ip : Str)
    → Vals (IpsOk true limit) m
    → Distinct m
    → (lookup user m >>= lookup ip) ≢ some (counted (pos 1))
    → Ensures (λ m'. Vals (IpsOk true limit) m' × Distinct m') (del_ip m user ip)
unfolding del_ip
del_ip-IpsOk limit m user ip v d ne = elim (Option-cases (lookup user m)) [
  | inl q ↦ rw (q, del_ip) (v, d)
  | inr (ips, q) ↦ elim (Option-cases (lookup ip ips)) [
    | inl r ↦ rw (q, r, del_ip) (v, d)
    | inr (o, r) ↦
        rw (q, r, del_ip) (go ips q o r (Vals-lookup (EntryOk true) ip ips o (at ips q).entries r))
  ]
]
  where
    at : (ips : Map Str Online) → lookup user m ≡ some ips → IpsOk true limit ips
    at ips q = Vals-lookup (IpsOk true limit) user m ips v q

    store :
        (ips : Map Str Online)
        → (is_sync_map_empty ips ≡ false → IpsOk true limit ips)
        → Vals
            (IpsOk true limit)
            (if is_sync_map_empty ips then erase user m else insert user ips m)
          × Distinct (if is_sync_map_empty ips then erase user m else insert user ips m)
    store ips k = elim (Bool-cases (is_sync_map_empty ips)) [
      | inl e ↦ rw e (erase-Vals (IpsOk true limit) user m v, erase-Distinct user m d)
      | inr e ↦
          rw e (insert-Vals (IpsOk true limit) user ips m (k e) v, insert-Distinct user ips m d)
    ]

    go :
        (ips : Map Str Online)
        → lookup user m ≡ some ips
        → (o : Online) → lookup ip ips ≡ some o
        → EntryOk true o
        → Ensures
            (λ m'. Vals (IpsOk true limit) m' × Distinct m')
            (as_count o >>= λ n.
              let ips' =
                if eq_ℤ n (pos 2) then erase ip ips else insert ip (counted (n -ℤ pos 2)) ips in
              some (if is_sync_map_empty ips' then erase user m else insert user ips' m))
    go ips q (counted n) r k = store _ (
        lower-IpsOk limit ips ip n (at ips q) r
          (λ e. ne (rw (q, r) (ap (λ k. some (counted k)) e))))
    go ips q (seen t) r k = elim k [ ]

-- DelConnCount neither panics nor breaks the state, for an address with a TCP connection.
pub del_conn_count-IsValid :
    (c : ConnLimiter) (user ip : Str)
    → IsValid c
    → NoPacketOnly c user ip
    → Ensures IsValid (del_conn_count c user ip)
unfolding del_conn_count
del_conn_count-IsValid c user ip v ne = when c.realtime _ λ on.
    unless (eq_ℤ c.ip_limit (pos 0)) _ (put c.ip v.users v.users_distinct) (
      finish (del_ip c.ip user ip)
        (del_ip-IpsOk c.ip_limit c.ip user ip
          (subst (λ rt. Vals (IpsOk rt c.ip_limit) c.ip) on v.users) v.users_distinct ne)
        on)
  where
    counts : Vals (CountOk c.conn_limit) (del_count c user) × Distinct (del_count c user)
    counts = del_count-Vals c user v

    put :
        (m : Map Str (Map Str Online))
        → Vals (IpsOk c.realtime c.ip_limit) m
        → Distinct m
        → IsValid (record c { count = del_count c user; ip = m })
    put m k d = record {
      limit_ok = v.limit_ok;
      counts = counts.0;
      counts_distinct = counts.1;
      users = k;
      users_distinct = d;
    }

    when :
        (b : Bool) (r : Option ConnLimiter)
        → (b ≡ true → Ensures IsValid r)
        → Ensures IsValid (if not b then some c else r)
    when true r k = k refl
    when false r k = v

    unless :
        (b : Bool) (r : Option ConnLimiter) {c' : ConnLimiter}
        → IsValid c'
        → Ensures IsValid r
        → Ensures IsValid (if b then some c' else r)
    unless true r k h = k
    unless false r k h = h

    finish :
        (r : Option (Map Str (Map Str Online)))
        → Ensures (λ m'. Vals (IpsOk true c.ip_limit) m' × Distinct m') r
        → c.realtime ≡ true
        → Ensures IsValid (r >>= λ m. some (record c { count = del_count c user; ip = m }))
    finish none h on = h
    finish (some m) h on = put m (subst (λ rt. Vals (IpsOk rt c.ip_limit) m) (sym on) h.0) h.1
