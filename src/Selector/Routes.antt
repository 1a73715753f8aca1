-- ===== src/Selector/Routes.antt =====
-- core/selector.go: which core a node's calls reach.
use yav2bx.Base.{
  ◌≡◌, refl, sym, subst, ◌∙◌, inl, inr, Bool, true, false, not, ◌&&◌, ◌||◌, [], ◌∷◌, Option, none,
  some, arith, if◌then◌else◌, Bool-cases, Option-cases,
}
use yav2bx.Keys.{Str, str_eq, str_beq, str_beq_iff, ==_refl}
use yav2bx.Maps.{Map, lookup, Distinct, lookup-insert}
use yav2bx.Node.{NodeInfo, Options, Core}
use yav2bx.Selector.{Selector, is_empty, suits, pick, choose_core, add_node, call}

module _ {S : Type 0} where
  abbrev pub any_suits : Options → NodeInfo → Map Str (Core S × S) → Bool
  any_suits o info [] = false
  any_suits o info ((name, c) ∷ cs) = suits o info c.0 || any_suits o info cs

  -- The choice among the cores: one that suits, or none, and then no core does.
  abbrev pub Chosen : Options → NodeInfo → Map Str (Core S × S) → Option Str → Type 0
  Chosen o info cs none = any_suits o info cs ≡ false
  Chosen o info cs (some name) =
      (c : Core S × S) × ((lookup name cs ≡ some c) × (suits o info c.0 ≡ true))

  -- A choice behind the first core.
  behind :
      (o : Options) (info : NodeInfo) (name : Str) (c : Core S × S) (cs : Map Str (Core S × S))
      (found : Option Str)
      → lookup name cs ≡ none
      → any_suits o info cs ≡ true
      → Chosen o info cs found
      → Chosen o info ((name, c) ∷ cs) found
  unfolding lookup
  behind o info name c cs none new more h = absurd (ground (arith, more, h))
  behind o info name c cs (some n) new more h =
      (h.0, (ground (arith, new, h.1.0, str_beq_iff name n), h.1.1))

  pick-Chosen :
      (o : Options) (info : NodeInfo) (cs : Map Str (Core S × S)) (found : Option Str)
      → Distinct cs
      → (pick o info found cs ≡ (if any_suits o info cs then pick o info none cs else found))
        × Chosen o info cs (pick o info none cs)
  unfolding pick lookup
  pick-Chosen o info [] found d = (refl, refl)
  pick-Chosen o info ((name, c) ∷ cs) found d =
      let rest = pick-Chosen o info cs found d.1 in
      elim (Bool-cases (suits o info c.0)) [
        | inl y ↦
            let front = pick-Chosen o info cs (some name) d.1 in
            rw y (
              front.0 ∙ ground arith,
              elim (Bool-cases (any_suits o info cs)) [
                | inl more ↦
                    subst (Chosen o info ((name, c) ∷ cs)) {x = pick o info none cs}
                      (sym (front.0 ∙ rw more refl)) (behind o info name c cs _ d.0 more front.1)
                | inr few ↦
                    subst (Chosen o info ((name, c) ∷ cs)) {x = some name}
                      (sym (front.0 ∙ rw few refl)) (c, (ground (arith, ==_refl name), y))
              ],
            )
        | inr n ↦ rw n (
          rest.0,
          elim (Bool-cases (any_suits o info cs)) [
            | inl more ↦ behind o info name c cs _ d.0 more rest.1
            | inr few ↦
                subst (Chosen o info ((name, c) ∷ cs)) {x = none}
                  (sym ((pick-Chosen o info cs none d.1).0 ∙ rw few refl)) (ground (arith, n, few))
          ],
        )
      ]

  -- The choice by the type of a node (no name of a core is configured, and the names are distinct):
  -- the chosen core suits, by the configured core type or else by the protocols; and when none is
  -- chosen, none suits.
  choose_core-Chosen :
      (o : Options) (info : NodeInfo) (cs : Map Str (Core S × S))
      → is_empty o.core_name ≡ true
      → Distinct cs
      → Chosen o info cs (choose_core o info cs)
  unfolding choose_core
  choose_core-Chosen o info cs e d = rw e (pick-Chosen o info cs none d).1

  call-nodes :
      {A : Type 0} (name : Str) (f : Core S → S → S × A) (missing : A) (s : Selector S)
      → (call name f missing s).0.nodes ≡ s.nodes
  call-nodes name f missing s = elim (Option-cases (lookup name s.cores)) [
    | inl q ↦ rw (q, call) refl
    | inr (c, q) ↦ rw (q, call) refl
  ]

  -- AddNode, on every branch: on an error no tag changes its core, and else exactly the tag of the
  -- node does, which now has the chosen core.
  pub add_node_nodes :
      (unmarshal : Options → Option Options) (tag : Str) (info : NodeInfo) (o : Options)
      (s : Selector S) (other : Str)
      → let r = add_node unmarshal tag info o s in
        lookup other r.0.nodes ≡ (
          if not r.2 && str_beq tag other then choose_core o info s.cores else lookup other s.nodes)
  unfolding add_node
  add_node_nodes unmarshal tag info o s other = elim (Option-cases (choose_core o info s.cores)) [
    | inl z ↦ rw z (ground arith)
    | inr (name, z) ↦ elim (Option-cases (lookup name s.cores)) [
      | inl q ↦ rw (z, q, add_node) (ground arith)
      | inr (c, q) ↦
          rw (z, q, add_node)
            (let opts =
                if is_empty o.core then unmarshal (record o { core = c.0.type }) else some o in
              elim (Option-cases opts) [
                | inl e ↦ rw e (ground arith)
                | inr (o', e) ↦
                    let r = call name (λ core. core.add_node tag info o') true s in
                    rw e (
                      ground (
                        arith,
                        z,
                        lookup-insert tag other name r.0.nodes,
                        call-nodes name (λ core. core.add_node tag info o') true s,
                      ))
              ])
    ]
  ]
