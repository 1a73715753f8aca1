-- ===== src/Xray/Closing.antt =====
-- core/xray/app/dispatcher/default.go: what the end of a connection gives back to the limiter.
use yav2bx.Base.{
  ◌≡◌, ◌≢◌, subst, Bool, true, false, [], Option, some, ℕ, arith, Option-cases, Bool-cases, inl,
  inr, Ensures, Ensures-map,
}
use yav2bx.Int.{ℤ, pos}
use yav2bx.Keys.{Str, str_eq, str_beq}
use yav2bx.Maps.{Map, lookup, insert, lookup-insert_self}
use yav2bx.Panel.{normalize_ip}
use yav2bx.Conn.{ConnLimiter, add_conn_count, del_conn_count}
use yav2bx.Conn.Invariant.{IsValid}
use yav2bx.Conn.Decision.{entry}
use yav2bx.Conn.RoundTrip.{add-del_roundtrip}
use yav2bx.Limiter.{Limiter, get_limiter}
use yav2bx.Limiter.Check.{check_limit}
use yav2bx.Limiter.Known.{check_user-conn}
use yav2bx.Xray.Dispatch.{
  Stats, UserStats, Inbound, Link, Routing, get_link, release, routed_dispatch,
}

-- The counts and the addresses are those of another state.
abbrev pub SameAs : ConnLimiter → ConnLimiter → Type 0
SameAs c c' =
    (user ip : Str)
    → (lookup user c'.count ≡ lookup user c.count) × (entry c' user ip ≡ entry c user ip)

module _ {Regexp Bucket : Type 0} where
  -- A connection that CheckLimit accepts is one that AddConnCount accepted, and nothing else changes
  -- the counts.
  check_limit_accepts :
      (l : Limiter Regexp Bucket) (t ip : Str) (tcp ns : Bool) (now : ℕ) (new_bucket : ℤ → Bucket)
      (l' : Limiter Regexp Bucket) (b : Option Bucket)
      → check_limit l t ip tcp ns now new_bucket ≡ some (l', b, false)
      → add_conn_count l.conn_limiter t (normalize_ip ip) tcp now ≡ some (l'.conn_limiter, false)
  unfolding check_limit
  check_limit_accepts l t ip tcp ns now new_bucket l' b e =
      elim (Option-cases (add_conn_count l.conn_limiter t (normalize_ip ip) tcp now)) [
        | inl q ↦ absurd (ground (arith, q, e))
        | inr (r, q) ↦ elim (Bool-cases r.1) [
          | inl bad ↦ absurd (ground (arith, q, bad, e))
          | inr ok ↦
              let own =
                check_user-conn (record l { conn_limiter = r.0 }) t (normalize_ip ip) ns now
                  new_bucket in
              let e' = rw (q, ok) at e in ground (arith, q, ok, own, e')
        ]
      ]

  -- What getLink does for an accepted connection of a user.
  get_link_accepts :
      (reg : Map Str (Limiter Regexp Bucket)) (stats : Stats) (i : Inbound) (u : Str × UserStats)
      (l : Limiter Regexp Bucket) (tcp : Bool) (now : ℕ) (new_bucket : ℤ → Bucket)
      (reg' : Map Str (Limiter Regexp Bucket)) (link : Link Bucket)
      → i.user ≡ some u
      → str_beq u.0 [] ≡ false
      → lookup i.tag reg ≡ some l
      → get_link reg stats i tcp now new_bucket ≡ some (reg', some link)
      → (l' : Limiter Regexp Bucket) × (b : Option Bucket) × (check_limit l u.0 i.source tcp
            i.source_tcp now new_bucket
          ≡ some (l', b, false))
        × (reg' ≡ insert i.tag l' reg)
        × (link.limiter ≡ some i.tag)
  unfolding get_link get_limiter
  get_link_accepts reg stats i u l tcp now new_bucket reg' link hu named hl e =
      elim (Option-cases (check_limit l u.0 i.source tcp i.source_tcp now new_bucket)) [
        | inl q ↦ absurd (ground (arith, q, hu, named, hl, e))
        | inr ((l', b, true), q) ↦ absurd (ground (arith, q, hu, named, hl, e))
        | inr ((l', b, false), q) ↦
            (l', b, q, ground (arith, q, hu, named, hl, e), ground (arith, q, hu, named, hl, e))
      ]

  -- The release of a TCP connection, by what DelConnCount ensures.
  release_ensures :
      (P : ConnLimiter → Type 0) (i : Inbound) (u : Str × UserStats)
      (reg : Map Str (Limiter Regexp Bucket)) (l : Limiter Regexp Bucket)
      → i.user ≡ some u
      → lookup i.tag reg ≡ some l
      → Ensures P (del_conn_count l.conn_limiter u.0 i.source)
      → Ensures
          (λ r. Ensures (λ l'. P l'.conn_limiter) (lookup i.tag r))
          (release i true (some i.tag) reg)
  unfolding release
  release_ensures P i u reg l hu hl h =
      rw (hu, hl)
        (Ensures-map P (λ r. Ensures (λ l'. P l'.conn_limiter) (lookup i.tag r))
          (del_conn_count l.conn_limiter u.0 i.source) _ h
          (λ c p. rw (lookup-insert_self i.tag (record l { conn_limiter = c }) reg) p))

  -- (realtime mode, a nonzero address limit, a well-formed limiter, a source address without the
  -- mapped prefix) A TCP connection of a user that getLink accepts: when its routedDispatch has
  -- returned, whatever the route is and whether a rule refused it, every connection count and every
  -- online address of the tag's limiter is what it was before.
  pub routed_dispatch-get_link :
      (reg : Map Str (Limiter Regexp Bucket)) (stats : Stats) (i : Inbound) (u : Str × UserStats)
      (l : Limiter Regexp Bucket) (now : ℕ) (new_bucket : ℤ → Bucket)
      (reg' : Map Str (Limiter Regexp Bucket)) (link : Link Bucket) (matches : Regexp → Str → Bool)
      (routing : Routing) (destination protocol : Str)
      → i.user ≡ some u
      → str_beq u.0 [] ≡ false
      → lookup i.tag reg ≡ some l
      → normalize_ip i.source ≡ i.source
      → IsValid l.conn_limiter
      → l.conn_limiter.realtime ≡ true
      → l.conn_limiter.ip_limit ≢ pos 0
      → get_link reg stats i true now new_bucket ≡ some (reg', some link)
      → Ensures
          (λ r. Ensures (λ l'. SameAs l.conn_limiter l'.conn_limiter) (lookup i.tag r.0))
          (routed_dispatch matches routing i true link.limiter destination protocol reg')
  unfolding routed_dispatch
  routed_dispatch-get_link reg stats i u l now new_bucket reg' link matches routing destination
        protocol hu named hl plain valid rt lim e =
      let (l', b, q, r, t) =
        get_link_accepts reg stats i u l true now new_bucket reg' link hu named hl e in
      let opened = check_limit_accepts l u.0 i.source true i.source_tcp now new_bucket l' b q in
      let opened' =
        subst (λ ip. add_conn_count l.conn_limiter u.0 ip true now ≡ some (l'.conn_limiter, false))
          plain opened in
      let freed =
        release_ensures (SameAs l.conn_limiter) i u reg' l' hu
          (rw r (lookup-insert_self i.tag l' reg))
          (add-del_roundtrip l.conn_limiter u.0 i.source now l'.conn_limiter valid rt lim
            opened') in
      rw t (
        Ensures-map _
          (λ r. Ensures (λ l'. SameAs l.conn_limiter l'.conn_limiter) (lookup i.tag r.0))
          (release i true (some i.tag) reg') _ freed (λ _ p. p))
