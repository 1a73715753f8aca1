-- ===== src/Sing/Collect.antt =====
-- core/sing/hook.go and core/sing/user.go: a connection that is tracked, and the traffic of its user.
use yav2bx.Base.{
  ◌≡◌, Bool, true, false, not, ◌&&◌, [], Option, some, ℕ, Ensures, Bool-cases, Ensures-map, inl,
  inr,
}
use yav2bx.Int.{ℤ}
use yav2bx.Keys.{Str, str_eq, str_beq}
use yav2bx.Maps.{Map, lookup, lookup-insert_self}
use yav2bx.Panel.{user_tag}
use yav2bx.Conn.Invariant.{IsValid}
use yav2bx.Limiter.{Limiter, get_limiter}
use yav2bx.Limiter.Check.{check_limit, check_domain_rule, check_protocol_rule}
use yav2bx.Limiter.Known.{check_limit-IsValid}
use yav2bx.Sing.{HookServer, Metadata, Tracked, bare, closed, counted, routed, tracked_behind}

module _ {Regexp Bucket : Type 0} where
  -- A connection that is counted was accepted by the limiter, and no rule refuses it.
  abbrev pub Allowed :
      (Regexp → Str → Bool)
      → Metadata
      → (Map Str (Limiter Regexp Bucket) × HookServer) × Tracked Bucket
      → Type 0
  Allowed matches m (s, bare) = ⊥
  Allowed matches m (s, closed) = Unit
  Allowed matches m (s, counted c b) =
      Ensures
        (λ l.
          (check_domain_rule matches l m.destination ≡ false)
          × ((not (str_beq m.network []) && check_protocol_rule l m.network) ≡ false))
        (lookup m.inbound s.0)

  -- The limiter of the inbound is well formed.
  abbrev pub StaysValid :
      Metadata → (Map Str (Limiter Regexp Bucket) × HookServer) × Tracked Bucket → Type 0
  StaysValid m r = Ensures (λ l. IsValid l.conn_limiter) (lookup m.inbound r.0.0)

  tracked_behind-Allowed :
      (matches : Regexp → Str → Bool) (is_stream : Bool) (m : Metadata) (h : HookServer)
      (reg : Map Str (Limiter Regexp Bucket)) (l : Limiter Regexp Bucket) (bucket : Option Bucket)
      (reject : Bool)
      → IsValid l.conn_limiter
      → let r = tracked_behind matches is_stream m h reg (l, bucket, reject) in
        Allowed matches m r × StaysValid m r
  tracked_behind-Allowed matches is_stream m h reg l bucket true v =
      (tt, rw (lookup-insert_self m.inbound l reg) v)
  tracked_behind-Allowed matches is_stream m h reg l bucket false v =
      elim (Bool-cases (check_domain_rule matches l m.destination)) [
        | inl d ↦ rw d (tt, rw (lookup-insert_self m.inbound l reg) v)
        | inr d ↦
            elim (Bool-cases (not (str_beq m.network []) && check_protocol_rule l m.network)) [
              | inl p ↦ rw (d, p) (tt, rw (lookup-insert_self m.inbound l reg) v)
              | inr p ↦
                  rw (d, p)
                    (
                      rw (lookup-insert_self m.inbound l reg) (d, p),
                      rw (lookup-insert_self m.inbound l reg) v,
                    )
            ]
      ]

  -- (the inbound's limiter is there, and well formed) The hook ends on a stream and on a packet
  -- connection. It leaves the limiter well formed, and a connection that it counts is one that no rule
  -- of the limiter refuses; it never lets one through uncounted.
  pub routed-Allowed :
      (matches : Regexp → Str → Bool) (is_stream : Bool) (m : Metadata) (now : ℕ)
      (new_bucket : ℤ → Bucket) (reg : Map Str (Limiter Regexp Bucket)) (h : HookServer)
      (l : Limiter Regexp Bucket)
      → lookup m.inbound reg ≡ some l
      → IsValid l.conn_limiter
      → Ensures
          (λ r.
            Allowed matches m r × Ensures (λ l'. IsValid l'.conn_limiter) (lookup m.inbound r.0.0))
          (routed matches is_stream m now new_bucket (reg, h))
  unfolding routed get_limiter
  routed-Allowed matches is_stream m now new_bucket reg h l q v =
      rw (q, routed)
        (Ensures-map (λ r. IsValid r.0.conn_limiter)
          (λ r.
            Allowed matches m r × Ensures (λ l'. IsValid l'.conn_limiter) (lookup m.inbound r.0.0))
          (check_limit l (user_tag m.inbound m.user) m.source is_stream is_stream now new_bucket) _
          (check_limit-IsValid l (user_tag m.inbound m.user) m.source is_stream is_stream now
            new_bucket v)
          (λ r p. tracked_behind-Allowed matches is_stream m h reg r.0 r.1 r.2 p))
