-- ===== src/Api/Nodes/Routes.antt =====
-- api/panel/node.go, GetNodeInfo: the rules that the routes of a node make.
use yav2bx.Base.{
  ℕ, suc, ◌≡◌, ◌≢◌, refl, sym, ap, ap₂, ◌∙◌, true, List, [], ◌∷◌, ◌++◌, Option, none, some, All,
  if◌then◌else◌, ◌>>=◌, arith, Option-cases, Bool-cases, inl, inr, Ensures, Ensures-map, Ensures-of,
}
use mathlib.Core.List.{append_assoc}
use yav2bx.Keys.{Str, str_beq}
use yav2bx.Panel.{Rules, trim_prefix}
use yav2bx.Text.{bytes, has_prefix}
use yav2bx.Protocol.{Route, RawDns}
use yav2bx.Api.Nodes.Parse.{matches_of, add_rules, add_dns, add_route, add_routes}

-- The strings of a list that name protocols, and the others, without their prefixes.
abbrev pub protocols : List Str → List Str
protocols [] = []
protocols (v ∷ vs) =
    if has_prefix v (bytes "protocol:")
    then trim_prefix v (bytes "protocol:") ∷ protocols vs
    else protocols vs

abbrev pub regexps : List Str → List Str
regexps [] = []
regexps (v ∷ vs) =
    if has_prefix v (bytes "protocol:")
    then regexps vs
    else trim_prefix v (bytes "regexp:") ∷ regexps vs

-- The rules with more of both kinds behind them.
abbrev pub extend : Rules → List Str → Rules
extend rules vs = record {
  regexp = rules.regexp ++ regexps vs;
  protocol = rules.protocol ++ protocols vs;
}

-- The strings that the blocking routes match, in order.
abbrev pub matched : Option (List Str) → List Str
matched none = []
matched (some ms) = ms

abbrev pub blocked : List Route → List Str
blocked [] = []
blocked (r ∷ rs) =
    (if str_beq r.action (bytes "block") then matched (matches_of r.match_on) else []) ++ blocked rs

-- A route whose matches are strings, at least one of them if it is for a name server.
abbrev pub IsReadable : Route → Type 0
IsReadable r =
    (matches_of r.match_on ≢ none)
    × (str_beq r.action (bytes "dns") ≡ true → matched (matches_of r.match_on) ≢ [])

append_nil : (xs : List Str) → xs ++ [] ≡ xs
append_nil [] = refl
append_nil (x ∷ xs) = ground (arith, append_nil xs)

protocols-append : (xs ys : List Str) → protocols (xs ++ ys) ≡ protocols xs ++ protocols ys
protocols-append [] ys = refl
protocols-append (x ∷ xs) ys = ground (arith, protocols-append xs ys)

regexps-append : (xs ys : List Str) → regexps (xs ++ ys) ≡ regexps xs ++ regexps ys
regexps-append [] ys = refl
regexps-append (x ∷ xs) ys = ground (arith, regexps-append xs ys)

extend-append :
    (rules : Rules) (xs ys : List Str) → extend (extend rules xs) ys ≡ extend rules (xs ++ ys)
extend-append rules xs ys =
    ap₂ (λ r p. record { regexp = r; protocol = p })
      (append_assoc rules.regexp (regexps xs) (regexps ys)
        ∙ ap (λ z. rules.regexp ++ z) (sym (regexps-append xs ys)))
      (append_assoc rules.protocol (protocols xs) (protocols ys)
        ∙ ap (λ z. rules.protocol ++ z) (sym (protocols-append xs ys)))

extend_nil : (rules : Rules) → extend rules [] ≡ rules
extend_nil rules =
    ap₂ (λ r p. record { regexp = r; protocol = p }) (append_nil rules.regexp)
      (append_nil rules.protocol)

add_rules-extend : (vs : List Str) (rules : Rules) → add_rules rules vs ≡ extend rules vs
unfolding add_rules
add_rules-extend [] rules = sym (extend_nil rules)
add_rules-extend (v ∷ vs) rules = elim (Bool-cases (has_prefix v (bytes "protocol:"))) [
  | inl q ↦
      let p = trim_prefix v (bytes "protocol:") ∷ [] in
      rw q (
        add_rules-extend vs (record rules { protocol = rules.protocol ++ p })
        ∙ ap (λ z. record { regexp = rules.regexp ++ regexps vs; protocol = z })
            (append_assoc rules.protocol p (protocols vs)))
  | inr q ↦
      let r = trim_prefix v (bytes "regexp:") ∷ [] in
      rw q (
        add_rules-extend vs (record rules { regexp = rules.regexp ++ r })
        ∙ ap (λ z. record { regexp = z; protocol = rules.protocol ++ protocols vs })
            (append_assoc rules.regexp r (regexps vs)))
]

add_dns_ends :
    (dns : RawDns) (i : ℕ) (value : Str) (ms : List Str)
    → ms ≢ []
    → Ensures (λ _. Unit) (add_dns dns i value ms)
unfolding add_dns
add_dns_ends dns i value [] ne = ne refl
add_dns_ends dns i value (m ∷ ms) ne = elim (Bool-cases (str_beq m (bytes "main"))) [
  | inl q ↦ rw q tt
  | inr q ↦ rw q tt
]

add_route-extend :
    (rules : Rules) (dns : RawDns) (i : ℕ) (r : Route) (ms : List Str)
    → matches_of r.match_on ≡ some ms
    → (str_beq r.action (bytes "dns") ≡ true → ms ≢ [])
    → Ensures
        (λ next. next.0 ≡ extend rules (if str_beq r.action (bytes "block") then ms else []))
        (add_route (rules, dns) i r)
unfolding add_route
add_route-extend rules dns i r ms q ne = elim (Bool-cases (str_beq r.action (bytes "block"))) [
  | inl block ↦ rw (q, block) (add_rules-extend ms rules)
  | inr other ↦
      rw (q, other)
        (elim (Bool-cases (str_beq r.action (bytes "dns"))) [
          | inl dns_route ↦ rw dns_route (
              Ensures-map (λ _. Unit) (λ next. next.0 ≡ extend rules [])
                (add_dns dns i r.action_value ms) (λ dns'. (rules, dns'))
                (add_dns_ends dns i r.action_value ms (ne dns_route))
                (λ _ _. sym (extend_nil rules)))
          | inr none_of_them ↦ rw none_of_them (sym (extend_nil rules))
        ])
]

-- The rest of the loop, behind the first route.
extend-blocked :
    (rules : Rules) (ms : List Str) (r : Route) (rs : List Route) (o : Option (Rules × RawDns))
    (rest : Rules × RawDns → Option (Rules × RawDns))
    → matches_of r.match_on ≡ some ms
    → Ensures
        (λ next. next.0 ≡ extend rules (if str_beq r.action (bytes "block") then ms else []))
        o
    → ((next : Rules × RawDns)
        → Ensures (λ parsed. parsed.0 ≡ extend next.0 (blocked rs)) (rest next))
    → Ensures (λ parsed. parsed.0 ≡ extend rules (blocked (r ∷ rs))) (o >>= rest)
extend-blocked rules ms r rs none rest q e h = e
extend-blocked rules ms r rs (some next) rest q e h =
    let own = if str_beq r.action (bytes "block") then ms else [] in
    Ensures-of (λ parsed. parsed.0 ≡ extend next.0 (blocked rs))
      (λ parsed. parsed.0 ≡ extend rules (blocked (r ∷ rs))) (rest next) (h next)
      (λ parsed _ p.
        rw q (p ∙ ap (λ z. extend z (blocked rs)) e ∙ extend-append rules own (blocked rs)))

-- (every route matches strings, a route to a name server at least one) The loop over the routes does
-- not panic, and adds to the rules what the blocking routes match, in their order: the strings
-- behind `protocol:` to the protocols, and the others, without `regexp:`, to the expressions.
pub add_routes-extend :
    (rs : List Route) (rules : Rules) (dns : RawDns) (i : ℕ)
    → All IsReadable rs
    → Ensures (λ parsed. parsed.0 ≡ extend rules (blocked rs)) (add_routes (rules, dns) i rs)
unfolding add_routes
add_routes-extend [] rules dns i h = sym (extend_nil rules)
add_routes-extend (r ∷ rs) rules dns i h = elim (Option-cases (matches_of r.match_on)) [
  | inl q ↦ absurd (h.0.0 q)
  | inr (ms, q) ↦
      extend-blocked rules ms r rs (add_route (rules, dns) i r) (λ next. add_routes next (suc i) rs)
        q (add_route-extend rules dns i r ms q (λ d e. h.0.1 d (rw q e)))
        (λ next. add_routes-extend rs next.0 next.1 (suc i) h.1)
]
