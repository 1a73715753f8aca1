-- ===== src/Conn/Decision.antt =====
-- limiter/conn.go: which connections AddConnCount rejects, what it leaves alone, and what closing a
-- connection undoes.
use yav2bx.Base.{
  ℕ, ◌≡◌, ◌≢◌, inl, inr, Bool, false, not, ◌&&◌, ◌||◌, [], ◌∷◌, Option, none, some, arith,
  if◌then◌else◌, ◌>>=◌, length, Option-cases, Ensures, Ensures-of,
}
use yav2bx.Int.{ℤ, pos, ◌+ℤ◌, ◌≤ℤ◌, eq_ℤ, le_ℤ}
use yav2bx.Keys.{Str, str_eq, ==_refl}
use yav2bx.Maps.{Map, lookup, lookup-insert, lookup-insert_ne}
use yav2bx.Conn.{
  Online, ConnLimiter, add_count, range_limit, over_ip_limit, add_ip, add_online, add_conn_count,
  first_entry,
}
use yav2bx.Conn.Invariant.{IsValid, add_conn_count-IsValid}

-- The number of open connections of a user.
abbrev pub count_of : ConnLimiter → Str → ℤ
count_of c user = elim (lookup user c.count) [ none ↦ pos 0 | some n ↦ n ]

-- The entry of a user's address.
abbrev pub entry : ConnLimiter → Str → Str → Option Online
entry c user ip = lookup user c.ip >>= lookup ip

-- The number of addresses of a user.
abbrev pub addresses : ConnLimiter → Str → ℕ
addresses c user = elim (lookup user c.ip) [ none ↦ 0 | some ips ↦ length ips ]

range_limit_lem :
    (limit cn : ℤ) (ips : Map Str Online)
    → pos 0 ≤ℤ cn
    → cn +ℤ pos 1 ≤ℤ limit
    → range_limit limit cn ips ≡ le_ℤ limit (cn +ℤ pos (length ips))
unfolding range_limit
range_limit_lem limit cn [] h k = ground arith
range_limit_lem limit cn ((i, o) ∷ ips) h k =
    ground (arith, range_limit_lem limit (cn +ℤ pos 1) ips)

over_ip_limit_lem :
    (c : ConnLimiter) (ips : Map Str Online)
    → over_ip_limit c ips ≡ (le_ℤ (pos 1) c.ip_limit && le_ℤ c.ip_limit (pos (length ips)))
unfolding over_ip_limit
over_ip_limit_lem c ips = ground (arith, range_limit_lem c.ip_limit (pos 0) ips)

add_count_rejects :
    (c : ConnLimiter) (user : Str) (tcp : Bool)
    → IsValid c
    → (add_count c user tcp).0
      ≡ (not (eq_ℤ c.conn_limit (pos 0)) && le_ℤ c.conn_limit (count_of c user))
unfolding add_count
add_count_rejects c user tcp v = ground (arith, v.limit_ok)

pub add_count_other :
    (c : ConnLimiter) (user : Str) (tcp : Bool) (other : Str)
    → other ≢ user
    → lookup other (add_count c user tcp).1 ≡ lookup other c.count
unfolding add_count
add_count_other c user tcp other ne = elim (Option-cases (lookup user c.count)) [
  | inl q ↦ ground (arith, q, lookup-insert_ne user other (pos 1) c.count ne)
  | inr (n, q) ↦ ground (arith, q, lookup-insert_ne user other (n +ℤ pos 1) c.count ne)
]

-- The rule of AddConnCount, on the numbers of the state.
abbrev pub rejects : ConnLimiter → Str → Str → Bool
rejects c user ip =
    (not (eq_ℤ c.conn_limit (pos 0)) && le_ℤ c.conn_limit (count_of c user))
    || (elim (entry c user ip) [
      | none ↦ le_ℤ (pos 1) c.ip_limit && le_ℤ c.ip_limit (pos (addresses c user))
      | some _ ↦ false
    ])

module _ (c : ConnLimiter) (user ip : Str) (tcp : Bool) (now : ℕ) where
  add_conn_count-rejects :
      IsValid c
      → (r : ConnLimiter × Bool) → add_conn_count c user ip tcp now ≡ some r
      → r.1 ≡ rejects c user ip
  unfolding add_conn_count add_online add_ip
  add_conn_count-rejects v r e = elim (Option-cases (lookup user c.ip)) [
    | inl q ↦ ground (arith, q, add_count_rejects c user tcp v)
    | inr (ips, q) ↦ ground (
      arith,
      q,
      over_ip_limit_lem (record c { count = (add_count c user tcp).1 }) ips,
      add_count_rejects c user tcp v,
    )
  ]

  same_user_other :
      (other : Str)
      → other ≢ user
      → (r : ConnLimiter × Bool) → add_conn_count c user ip tcp now ≡ some r
      → (lookup other r.0.count ≡ lookup other c.count) × (lookup other r.0.ip ≡ lookup other c.ip)
  unfolding add_conn_count add_online
  same_user_other other ne r e = elim (Option-cases (lookup user c.ip)) [
    | inl q ↦ ground (
      arith,
      q,
      add_count_other c user tcp other ne,
      lookup-insert_ne user other
          ((ip, first_entry (record c { count = (add_count c user tcp).1 }) tcp now) ∷ []) c.ip ne,
    )
    | inr (ips, q) ↦
        elim (Option-cases
          (add_ip (record c { count = (add_count c user tcp).1 }) ips ip tcp now)) [
            | inl p ↦ ground (arith, q, p)
            | inr ((ips', b), p) ↦ ground (
              arith,
              q,
              p,
              add_count_other c user tcp other ne,
              lookup-insert_ne user other ips' c.ip ne,
            )
          ]
  ]

  -- (the state is well formed) AddConnCount ends, and rejects exactly when the user has at least as
  -- many connections as a nonzero limit allows, or when the address is not online and the user
  -- already has at least as many addresses as a positive limit allows.
  pub add_conn_count_decision :
      IsValid c → Ensures (λ r. r.1 ≡ rejects c user ip) (add_conn_count c user ip tcp now)
  add_conn_count_decision v =
      Ensures-of (λ r. IsValid r.0) (λ r. r.1 ≡ rejects c user ip)
        (add_conn_count c user ip tcp now) (add_conn_count-IsValid c user ip tcp now v)
        (λ r e _. add_conn_count-rejects v r e)

  -- Another user's connections and addresses stay as they are.
  add_conn_count_frame :
      (other : Str)
      → other ≢ user
      → IsValid c
      → Ensures
          (λ r.
            (lookup other r.0.count ≡ lookup other c.count)
            × (lookup other r.0.ip ≡ lookup other c.ip))
          (add_conn_count c user ip tcp now)
  add_conn_count_frame other ne v =
      Ensures-of (λ r. IsValid r.0) _ (add_conn_count c user ip tcp now)
        (add_conn_count-IsValid c user ip tcp now v) (λ r e _. same_user_other other ne r e)

  add_online_count :
      (c' : ConnLimiter) (r : ConnLimiter × Bool)
      → add_online c' user ip tcp now ≡ some r
      → r.0.count ≡ c'.count
  unfolding add_online
  add_online_count c' r e = elim (Option-cases (lookup user c'.ip)) [
    | inl q ↦ ground (arith, q, e)
    | inr (ips, q) ↦ elim (Option-cases (add_ip c' ips ip tcp now)) [
      | inl p ↦ ground (arith, q, p, e)
      | inr (w, p) ↦ ground (arith, q, p, e)
    ]
  ]

  counts_tcp :
      (r : ConnLimiter × Bool)
      → add_conn_count c user ip tcp now ≡ some r
      → IsValid c
      → count_of r.0 user ≡ (
          if tcp && not (eq_ℤ c.conn_limit (pos 0)) && not (le_ℤ c.conn_limit (count_of c user))
          then count_of c user +ℤ pos 1
          else count_of c user)
  unfolding add_conn_count add_count
  counts_tcp r e v = elim (Option-cases (lookup user c.count)) [
    | inl z ↦ ground (
      arith,
      e,
      z,
      v.limit_ok,
      add_online_count (record c { count = (add_count c user tcp).1 }) r,
      lookup-insert user user (pos 1) c.count,
      ==_refl user,
    )
    | inr (n, z) ↦ ground (
      arith,
      e,
      z,
      v.limit_ok,
      add_online_count (record c { count = (add_count c user tcp).1 }) r,
      lookup-insert user user (n +ℤ pos 1) c.count,
      ==_refl user,
    )
  ]

  -- (the state is well formed) A call counts a TCP connection as soon as the connection limit, if it
  -- is not zero, leaves room for it: also when it then rejects the connection for its address.
  add_conn_count_count :
      IsValid c
      → Ensures
          (λ r. count_of r.0 user ≡ (
            if tcp && not (eq_ℤ c.conn_limit (pos 0)) && not (le_ℤ c.conn_limit (count_of c user))
            then count_of c user +ℤ pos 1
            else count_of c user))
          (add_conn_count c user ip tcp now)
  add_conn_count_count v =
      Ensures-of (λ r. IsValid r.0) _ (add_conn_count c user ip tcp now)
        (add_conn_count-IsValid c user ip tcp now v) (λ r e _. counts_tcp r e v)
