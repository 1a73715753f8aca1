-- ===== src/Conn/Lockout.antt =====
-- limiter/conn.go outside realtime mode: nothing takes a connection count back.
use yav2bx.Base.{
  ℕ, ◌≡◌, sym, subst, Bool, true, false, List, [], ◌∷◌, Option, some, ◌>>=◌, arith, Bool-cases,
  Option-cases, inl, inr, Ensures, Ensures-map, Ensures-of, ◌∙◌, Ensures-bind,
}
use yav2bx.Int.{ℤ, pos, eq_ℤ, le_ℤ}
use yav2bx.Keys.{Str, str_eq, str_beq, str_beq_iff}
use yav2bx.Maps.{Map, lookup}
use yav2bx.Conn.Decision.{add_count_other}
use yav2bx.Conn.{
  Online, ConnLimiter, touch, add_ip, add_count, add_online, add_conn_count, del_conn_count,
  clear_online_ip,
}

-- The calls on a limiter.
pub data Event : Type 0 where
  opened : Str → Str → Bool → ℕ → Event
  closed : Str → Str → Event
  swept : ℕ → Event

-- The limiter behind some calls; `none` is a panic.
unfoldable pub run_events : List Event → ConnLimiter → Option ConnLimiter
run_events [] c = some c
run_events (opened user ip is_tcp now ∷ es) c =
    add_conn_count c user ip is_tcp now >>= λ r. run_events es r.0
run_events (closed user ip ∷ es) c = del_conn_count c user ip >>= run_events es
run_events (swept now ∷ es) c = run_events es (clear_online_ip now c)

-- Outside realtime mode, the user has as many connections as a nonzero limit allows.
abbrev pub Locked : Str → ℤ → ConnLimiter → Type 0
Locked user n c =
    (c.realtime ≡ false)
    × (eq_ℤ c.conn_limit (pos 0) ≡ false)
    × (lookup user c.count ≡ some n)
    × (le_ℤ c.conn_limit n ≡ true)

add_count-Locked :
    (c : ConnLimiter) (user other : Str) (tcp : Bool) (n : ℤ)
    → Locked user n c
    → (add_count c other tcp).0 ≡ false
    → Locked user n (record c { count = (add_count c other tcp).1 })
unfolding add_count
add_count-Locked c user other tcp n (rt, lim, held, full) ok =
    elim (Bool-cases (str_beq other user)) [
      | inl q ↦
          let held' =
            subst (λ z. lookup z c.count ≡ some n) (sym ((str_beq_iff other user).0 q)) held in
          absurd (ground (arith, held', lim, full, ok))
      | inr q ↦ (
        rt,
        lim,
        add_count_other c other tcp user
              (λ e. ground (arith, q, (str_beq_iff other user).1 (sym e)))
            ∙ held,
        full,
      )
    ]

add_ip_ends :
    (c : ConnLimiter) (ips : Map Str Online) (ip : Str) (tcp : Bool) (now : ℕ)
    → c.realtime ≡ false
    → Ensures (λ _. Unit) (add_ip c ips ip tcp now)
unfolding add_ip touch
add_ip_ends c ips ip tcp now rt = elim (Option-cases (lookup ip ips)) [
  | inl q ↦ ground (arith, q)
  | inr (o, q) ↦ ground (arith, q, rt)
]

add_online-Locked :
    (c : ConnLimiter) (user other ip : Str) (tcp : Bool) (now : ℕ) (n : ℤ)
    → Locked user n c
    → Ensures (λ r. Locked user n r.0) (add_online c other ip tcp now)
unfolding add_online
add_online-Locked c user other ip tcp now n l = elim (Option-cases (lookup other c.ip)) [
  | inl q ↦ rw (q, add_online) l
  | inr (ips, q) ↦
      rw (q, add_online)
        (Ensures-map (λ _. Unit) (λ r. Locked user n r.0) (add_ip c ips ip tcp now) _
          (add_ip_ends c ips ip tcp now l.0) (λ r _. l))
]

add_conn_count-Locked :
    (c : ConnLimiter) (user other ip : Str) (tcp : Bool) (now : ℕ) (n : ℤ)
    → Locked user n c
    → Ensures (λ r. Locked user n r.0) (add_conn_count c other ip tcp now)
unfolding add_conn_count
add_conn_count-Locked c user other ip tcp now n l = elim (Bool-cases (add_count c other tcp).0) [
  | inl over ↦ rw over l
  | inr ok ↦
      rw ok (add_online-Locked _ user other ip tcp now n (add_count-Locked c user other tcp n l ok))
]

del_conn_count_keeps :
    (c : ConnLimiter) (user ip : Str) → c.realtime ≡ false → del_conn_count c user ip ≡ some c
unfolding del_conn_count
del_conn_count_keeps c user ip rt = ground (arith, rt)

Locked-rejects :
    (c : ConnLimiter) (user ip : Str) (tcp : Bool) (now : ℕ) (n : ℤ)
    → Locked user n c
    → add_conn_count c user ip tcp now ≡ some (c, true)
unfolding add_conn_count add_count
Locked-rejects c user ip tcp now n (rt, lim, held, full) = ground (arith, lim, held, full)

run_events-Locked :
    (es : List Event) (c : ConnLimiter) (user : Str) (n : ℤ)
    → Locked user n c
    → Ensures (Locked user n) (run_events es c)
unfolding run_events clear_online_ip
run_events-Locked [] c user n l = l
run_events-Locked (opened other ip tcp now ∷ es) c user n l =
    Ensures-bind (λ r. Locked user n r.0) (Locked user n) (add_conn_count c other ip tcp now) _
      (add_conn_count-Locked c user other ip tcp now n l)
      (λ r l'. run_events-Locked es r.0 user n l')
run_events-Locked (closed other ip ∷ es) c user n l =
    rw (del_conn_count_keeps c other ip l.0) (run_events-Locked es c user n l)
run_events-Locked (swept now ∷ es) c user n l =
    run_events-Locked es (clear_online_ip now c) user n l

-- (the limiter is not in realtime mode, its limit is not zero, and the user's count has reached it)
-- Whatever connections are opened, closed and swept, every later connection of the user is rejected:
-- a closed connection does not lower the count.
pub add_conn_count_lockout :
    (es : List Event) (c : ConnLimiter) (user ip : Str) (tcp : Bool) (now : ℕ) (n : ℤ)
    → Locked user n c
    → Ensures (λ c'. add_conn_count c' user ip tcp now ≡ some (c', true)) (run_events es c)
add_conn_count_lockout es c user ip tcp now n l =
    Ensures-of (Locked user n) (λ c'. add_conn_count c' user ip tcp now ≡ some (c', true))
      (run_events es c) (run_events-Locked es c user n l)
      (λ c' _ l'. Locked-rejects c' user ip tcp now n l')
