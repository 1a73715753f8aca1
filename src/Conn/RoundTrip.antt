-- ===== src/Conn/RoundTrip.antt =====
-- limiter/conn.go: AddConnCount and DelConnCount address by address, and that closing a TCP connection
-- undoes its opening.
use yav2bx.Base.{
  ℕ, ◌≡◌, ◌≢◌, refl, ap, subst, inl, inr, ◌∙◌, true, false, not, ◌&&◌, Option, none, some, arith,
  if◌then◌else◌, ◌>>=◌, Bool-cases, Option-cases, Ensures, Ensures-of, Ensures-map, Ensures-else,
}
use yav2bx.Int.{ℤ, pos, ◌+ℤ◌, ◌-ℤ◌, eq_ℤ, eq_ℤ_iff}
use yav2bx.Keys.{Str, str_eq, str_beq, str_beq_iff}
use yav2bx.Maps.{Map, lookup, Vals-lookup}
use yav2bx.Conn.{
  Online, counted, seen, ConnLimiter, add_count, add_online, add_conn_count, del_ip, del_conn_count,
}
use yav2bx.Conn.Invariant.{EntryOk, IpsOk, IsValid}
use yav2bx.Conn.Decision.{entry}
use yav2bx.Conn.Entries.{count_roundtrip, del_ip-entry, opened, add_online-entry, add_online-config}

-- An open connection's entry, and the one that it had before.
opened_cases :
    (c : ConnLimiter) (user ip : Str)
    → IsValid c
    → c.realtime ≡ true
    → (k : ℤ) × (opened (entry c user ip) ≡ some (counted k))
      × ((if eq_ℤ k (pos 2) then none else some (counted (k -ℤ pos 2))) ≡ entry c user ip)
opened_cases c user ip v rt = elim (Option-cases (lookup user c.ip)) [
  | inl q ↦ rw q (pos 2, refl, refl)
  | inr (ips, q) ↦ rw q (go (lookup ip ips) (known ips q))
]
  where
    known :
        (ips : Map Str Online)
        → lookup user c.ip ≡ some ips
        → (o : Online) → lookup ip ips ≡ some o
        → EntryOk true o
    known ips q o r =
        subst (λ b. EntryOk b o) rt
          (Vals-lookup (EntryOk c.realtime) ip ips o
            (Vals-lookup (IpsOk c.realtime c.ip_limit) user c.ip ips v.users q).entries r)

    go :
        (e : Option Online)
        → ((o : Online) → e ≡ some o → EntryOk true o)
        → (k : ℤ) × (opened e ≡ some (counted k))
          × ((if eq_ℤ k (pos 2) then none else some (counted (k -ℤ pos 2))) ≡ e)
    go none h = (pos 2, refl, refl)
    go (some (seen t)) h = elim (h (seen t) refl) [ ]
    go (some (counted n)) h = (n +ℤ pos 2, refl, ground (arith, h (counted n) refl))

module _ (c : ConnLimiter) (user ip : Str) (now : ℕ) (v : IsValid c) (rt : c.realtime ≡ true)
    (lim : c.ip_limit ≢ pos 0) where
  Restored : ConnLimiter → Type 0
  Restored c'' =
      (u i : Str) → (lookup u c''.count ≡ lookup u c.count) × (entry c'' u i ≡ entry c u i)

  restore :
      (m : Map Str (Map Str Online))
      → (add_count c user true).0 ≡ false
      → add_online (record c { count = (add_count c user true).1 }) user ip true now
        ≡ some (record c { count = (add_count c user true).1; ip = m }, false)
      → Ensures Restored
          (del_conn_count (record c { count = (add_count c user true).1; ip = m }) user ip)
  unfolding del_conn_count Restored
  restore m ok e = Ensures-else Restored (not c.realtime) _ _ (ap not rt) (
      Ensures-else Restored (eq_ℤ c.ip_limit (pos 0)) _ _ (nonzero c.ip_limit lim) (
        Ensures-map _ Restored (del_ip m user ip) _ (closed (opened_cases c user ip v rt))
          (λ m' same u i. (count_roundtrip c user u m v ok, same u i))))
    where
      nonzero : (z : ℤ) → z ≢ pos 0 → eq_ℤ z (pos 0) ≡ false
      nonzero z ne = elim (Bool-cases (eq_ℤ z (pos 0))) [
        | inl q ↦ absurd (ne ((eq_ℤ_iff z (pos 0)).0 q))
        | inr q ↦ q
      ]

      after :
          (u i : Str)
          → (lookup u m >>= lookup i)
            ≡ (if str_beq user u && str_beq ip i then opened (entry c user ip) else entry c u i)
      after = add_online-entry (record c { count = (add_count c user true).1 }) user ip now _ rt e

      closed :
          ((k : ℤ) × (opened (entry c user ip) ≡ some (counted k))
            × ((if eq_ℤ k (pos 2) then none else some (counted (k -ℤ pos 2))) ≡ entry c user ip))
          → Ensures
              (λ m'. (u i : Str) → (lookup u m' >>= lookup i) ≡ entry c u i)
              (del_ip m user ip)
      closed (k, was, back) = elim (Option-cases (lookup user m)) [
        | inl q ↦
            absurd (ground (arith, q, was, after user ip, str_beq_iff user user, str_beq_iff ip ip))
        | inr (ips, q) ↦
            Ensures-of _ _ (del_ip m user ip)
              (del_ip-entry m user ip ips k q
                (ground (arith, q, was, after user ip, str_beq_iff user user, str_beq_iff ip ip)))
              (λ m' _ h u i.
                h u i ∙ ground (arith, back, after u i, str_beq_iff user u, str_beq_iff ip i))
      ]

-- (realtime mode, a nonzero address limit, a well-formed state) After an accepted TCP connection its
-- closing does not panic, and puts every user's connection count and every address's entry back to
-- what they were before the connection.
pub add-del_roundtrip :
    (c : ConnLimiter) (user ip : Str) (now : ℕ) (c' : ConnLimiter)
    → IsValid c
    → c.realtime ≡ true
    → c.ip_limit ≢ pos 0
    → add_conn_count c user ip true now ≡ some (c', false)
    → Ensures
        (λ c''.
          (u i : Str) → (lookup u c''.count ≡ lookup u c.count) × (entry c'' u i ≡ entry c u i))
        (del_conn_count c' user ip)
unfolding add_conn_count Restored
add-del_roundtrip c user ip now c' v rt lim e = elim (Bool-cases (add_count c user true).0) [
  | inl over ↦ absurd (ground (arith, over, e))
  | inr ok ↦
      let e' = rw ok at e in
      let same =
        add_online-config (record c { count = (add_count c user true).1 }) user ip true now c' false
          e' in
      rw same (restore c user ip now v rt lim c'.ip ok (rw (← same) e'))
]
