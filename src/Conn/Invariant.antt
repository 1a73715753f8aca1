-- ===== src/Conn/Invariant.antt =====
-- limiter/conn.go: what every reachable state satisfies, with no panic on the way.
use yav2bx.Base.{
  Ensures, ℕ, ◌+◌, ◌≤◌, ◌≡◌, refl, inl, inr, Bool, true, false, [], ◌∷◌, Option, none, some, arith,
  ◌>>=◌, length, Bool-cases, Option-cases,
}
use yav2bx.Int.{ℤ, pos, pos_part, ◌+ℤ◌, ◌-ℤ◌, ◌≤ℤ◌}
use yav2bx.Keys.{Str, str_eq}
use yav2bx.Maps.{
  Map, lookup, insert, Distinct, Vals, insert-Distinct, erase-Distinct, insert-Vals, erase-Vals,
  Vals-lookup, length-insert,
}
use yav2bx.Conn.{
  Online, counted, seen, ConnLimiter, new_conn_limiter, add_count, first_entry, touch, range_limit,
  over_ip_limit, add_ip, add_online, add_conn_count, del_count,
}

-- The kind of entry that each mode stores.
abbrev pub EntryOk : Bool → Online → Type 0
EntryOk true (counted n) = pos 1 ≤ℤ n
EntryOk false (seen t) = Unit
EntryOk true (seen t) = ⊥
EntryOk false (counted n) = ⊥

-- A user's connection count stays in the limit.
abbrev pub CountOk : ℤ → ℤ → Type 0
CountOk limit n = (pos 1 ≤ℤ n) × (n ≤ℤ limit)

-- A user has an address, no more of them than the limit, and each with an entry of the right kind.
pub record IpsOk (realtime : Bool) (limit : ℤ) (ips : Map Str Online) : Type 0 where
  pub online : 1 ≤ length ips
  pub within : pos 1 ≤ℤ limit → length ips ≤ pos_part limit
  pub distinct : Distinct ips
  pub entries : Vals (EntryOk realtime) ips

pub record IsValid (c : ConnLimiter) : Type 0 where
  pub limit_ok : pos 0 ≤ℤ c.conn_limit
  pub counts : Vals (CountOk c.conn_limit) c.count
  pub counts_distinct : Distinct c.count
  pub users : Vals (IpsOk c.realtime c.ip_limit) c.ip
  pub users_distinct : Distinct c.ip

pub new_conn_limiter-IsValid :
    (conn ip : ℤ) (realtime : Bool) → pos 0 ≤ℤ conn → IsValid (new_conn_limiter conn ip realtime)
unfolding new_conn_limiter
new_conn_limiter-IsValid conn ip realtime h = record {
  limit_ok = h;
  counts = tt;
  counts_distinct = tt;
  users = tt;
  users_distinct = tt;
}

-- The loop of the limit counts the addresses.
range_limit_false :
    (limit cn : ℤ) (ips : Map Str Online)
    → pos 0 ≤ℤ cn
    → cn +ℤ pos 1 ≤ℤ limit
    → range_limit limit cn ips ≡ false
    → cn +ℤ pos (length ips) +ℤ pos 1 ≤ℤ limit
unfolding range_limit
range_limit_false limit cn [] h k q = ground arith
range_limit_false limit cn ((i, o) ∷ ips) h k q =
    ground (arith, range_limit_false limit (cn +ℤ pos 1) ips)

over_ip_limit-false :
    (c : ConnLimiter) (ips : Map Str Online)
    → pos 1 ≤ℤ c.ip_limit
    → over_ip_limit c ips ≡ false
    → length ips + 1 ≤ pos_part c.ip_limit
unfolding over_ip_limit
over_ip_limit-false c ips h q = ground (arith, range_limit_false c.ip_limit (pos 0) ips)

add_count-Vals :
    (c : ConnLimiter) (user : Str) (tcp : Bool)
    → IsValid c
    → Vals (CountOk c.conn_limit) (add_count c user tcp).1 × Distinct (add_count c user tcp).1
unfolding add_count
add_count-Vals c user tcp v = elim (Option-cases (lookup user c.count)) [
  | inl q ↦ rw q (
      ground (
        arith,
        v.limit_ok,
        v.counts,
        v.counts_distinct,
        insert-Vals (CountOk c.conn_limit) user (pos 1) c.count,
        insert-Distinct user (pos 1) c.count,
      ))
  | inr (n, q) ↦ rw q (
      ground (
        arith,
        v.limit_ok,
        v.counts,
        v.counts_distinct,
        Vals-lookup (CountOk c.conn_limit) user c.count n v.counts q,
        insert-Vals (CountOk c.conn_limit) user (n +ℤ pos 1) c.count,
        insert-Distinct user (n +ℤ pos 1) c.count,
      ))
]

-- Storing an entry of the right kind, at an address that is online or where there is room.
pub store-IpsOk :
    (rt : Bool) (limit : ℤ) (ips : Map Str Online) (ip : Str) (o : Online)
    → IpsOk rt limit ips
    → EntryOk rt o
    → (lookup ip ips ≡ none → pos 1 ≤ℤ limit → length ips + 1 ≤ pos_part limit)
    → IpsOk rt limit (insert ip o ips)
store-IpsOk rt limit ips ip o v k room = record {
  online = ground (arith, v.online, length-insert ip o ips);
  within = λ h. elim (Option-cases (lookup ip ips)) [
    | inl q ↦ ground (arith, room q h, length-insert ip o ips)
    | inr (o', q) ↦ ground (arith, v.within h, length-insert ip o ips)
  ];
  distinct = insert-Distinct ip o ips v.distinct;
  entries = insert-Vals (EntryOk rt) ip o ips k v.entries;
}

module _ (c : ConnLimiter) (ips : Map Str Online) (ip : Str) (tcp : Bool) (now : ℕ) where
  first_entry-EntryOk : EntryOk c.realtime (first_entry c tcp now)
  unfolding first_entry
  first_entry-EntryOk = ground arith

  touch-IpsOk :
      (o : Online)
      → lookup ip ips ≡ some o
      → IpsOk c.realtime c.ip_limit ips
      → Ensures (IpsOk c.realtime c.ip_limit) (touch c ips ip tcp now o)
  unfolding touch
  touch-IpsOk o q v =
      go c.realtime tcp o v (Vals-lookup (EntryOk c.realtime) ip ips o v.entries q)
        (λ o' k. store-IpsOk c.realtime c.ip_limit ips ip o' v k (λ no. cc))
    where
      go :
          (rt b : Bool) (o : Online)
          → IpsOk rt c.ip_limit ips
          → EntryOk rt o
          → ((o' : Online) → EntryOk rt o' → IpsOk rt c.ip_limit (insert ip o' ips))
          → Ensures (IpsOk rt c.ip_limit) (touch (record c { realtime = rt }) ips ip b now o)
      go true true (counted n) v k put = put (counted (n +ℤ pos 2)) (ground arith)
      go true false (counted n) v k put = v
      go false b (seen t) v k put = put (seen now) tt
      go true b (seen t) v k put = elim k [ ]
      go false b (counted n) v k put = elim k [ ]

  add_ip-IpsOk :
      IpsOk c.realtime c.ip_limit ips
      → Ensures (λ r. IpsOk c.realtime c.ip_limit r.0) (add_ip c ips ip tcp now)
  unfolding add_ip
  add_ip-IpsOk v = elim (Option-cases (lookup ip ips)) [
    | inr (o, q) ↦ rw (q, add_ip) (go (touch c ips ip tcp now o) (touch-IpsOk o q v))
    | inl q ↦
        rw (q, add_ip)
          (elim (Bool-cases (over_ip_limit c ips)) [
            | inl full ↦ rw full v
            | inr room ↦ rw room (
                store-IpsOk c.realtime c.ip_limit ips ip (first_entry c tcp now) v
                  first_entry-EntryOk (λ _ h. over_ip_limit-false c ips h room))
          ])
  ]
    where
      go :
          (r : Option (Map Str Online))
          → Ensures (IpsOk c.realtime c.ip_limit) r
          → Ensures
              (λ (r : Map Str Online × Bool). IpsOk c.realtime c.ip_limit r.0)
              (r >>= λ ips'. some (ips', false))
      go none h = h
      go (some ips') h = h

module _ (c : ConnLimiter) (user ip : Str) (tcp : Bool) (now : ℕ) where
  add_online-IsValid : IsValid c → Ensures (λ r. IsValid r.0) (add_online c user ip tcp now)
  unfolding add_online lookup
  add_online-IsValid v = elim (Option-cases (lookup user c.ip)) [
    | inl q ↦
        rw (q, add_online)
          (put ((ip, first_entry c tcp now) ∷ []) (record {
            online = omega arith;
            within = λ h. ground arith;
            distinct = (refl, tt);
            entries = (first_entry-EntryOk c [] ip tcp now, tt);
          }))
    | inr (ips, q) ↦
        rw (q, add_online)
          (go (add_ip c ips ip tcp now) (
            add_ip-IpsOk c ips ip tcp now
              (Vals-lookup (IpsOk c.realtime c.ip_limit) user c.ip ips v.users q)))
  ]
    where
      put :
          (ips : Map Str Online)
          → IpsOk c.realtime c.ip_limit ips
          → IsValid (record c { ip = insert user ips c.ip })
      put ips k = record {
        limit_ok = v.limit_ok;
        counts = v.counts;
        counts_distinct = v.counts_distinct;
        users = insert-Vals (IpsOk c.realtime c.ip_limit) user ips c.ip k v.users;
        users_distinct = insert-Distinct user ips c.ip v.users_distinct;
      }

      go :
          (r : Option (Map Str Online × Bool))
          → Ensures (λ r. IpsOk c.realtime c.ip_limit r.0) r
          → Ensures
              (λ (r : ConnLimiter × Bool). IsValid r.0)
              (r >>= λ r. some (record c { ip = insert user r.0 c.ip }, r.1))
      go none h = h
      go (some r) h = put r.0 h

-- A call on a well-formed state never panics, and leaves the state well formed: every user's
-- connections and addresses stay within the limits, whether the call accepts or rejects.
pub add_conn_count-IsValid :
    (c : ConnLimiter) (user ip : Str) (tcp : Bool) (now : ℕ)
    → IsValid c
    → Ensures (λ r. IsValid r.0) (add_conn_count c user ip tcp now)
unfolding add_conn_count
add_conn_count-IsValid c user ip tcp now v = elim (Bool-cases (add_count c user tcp).0) [
  | inl over ↦ rw over v
  | inr ok ↦ rw ok (
      add_online-IsValid _ user ip tcp now (record {
        limit_ok = v.limit_ok;
        counts = (add_count-Vals c user tcp v).0;
        counts_distinct = (add_count-Vals c user tcp v).1;
        users = v.users;
        users_distinct = v.users_distinct;
      }))
]

pub del_count-Vals :
    (c : ConnLimiter) (user : Str)
    → IsValid c
    → Vals (CountOk c.conn_limit) (del_count c user) × Distinct (del_count c user)
unfolding del_count
del_count-Vals c user v = elim (Option-cases (lookup user c.count)) [
  | inl q ↦ rw q (ground (arith, v.counts, v.counts_distinct))
  | inr (n, q) ↦ rw q (
      ground (
        arith,
        v.counts,
        v.counts_distinct,
        Vals-lookup (CountOk c.conn_limit) user c.count n v.counts q,
        insert-Vals (CountOk c.conn_limit) user (n -ℤ pos 1) c.count,
        insert-Distinct user (n -ℤ pos 1) c.count,
        erase-Vals (CountOk c.conn_limit) user c.count,
        erase-Distinct user c.count,
      ))
]
