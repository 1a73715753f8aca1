-- ===== src/Selector.antt =====
-- core/core.go and core/selector.go: the cores that are registered, and the selector, which is a core
-- that passes each call on to the core that has the node. A core is its methods and its state; the
-- selector's nodes point to its cores by their names. `Range` over the cores is in the list's order.
pub mod Routes
use yav2bx.Base.{
  Bool, true, false, not, ◌&&◌, ◌||◌, List, [], ◌∷◌, ◌+◌, ◌++◌, ◌>>=◌, Option, none, some, leb,
  if◌then◌else◌,
}
use yav2bx.Int.{ℤ, pos}
use yav2bx.Keys.{Str, str_eq, str_beq}
use yav2bx.Maps.{Map, lookup, insert, erase}
use yav2bx.Panel.{UserInfo}
use yav2bx.Node.{NodeInfo, Options, Core}

-- conf.CoreConfig, as far as the choice of a core reads it.
pub record CoreConfig : Type 0 where
  pub type : Str
  pub name : Str

pub record Selector (S : Type 0) : Type 0 where
  pub cores : Map Str (Core S × S)
  pub nodes : Map Str Str

abbrev pub is_empty : Str → Bool
is_empty [] = true
is_empty (c ∷ s) = false

-- strings.ToLower, of an ASCII text
abbrev pub to_lower : Str → Str
to_lower [] = []
to_lower (c ∷ s) = (if leb b'A' c && leb c b'Z' then c + 32 else c) ∷ to_lower s

-- isSupported
unfoldable pub is_supported : Str → List Str → Bool
is_supported protocol [] = false
is_supported protocol (p ∷ ps) = if str_beq protocol p then true else is_supported protocol ps

module _ {S : Type 0} where
  -- RegisterCore, and RegisteredCore: the types that are registered.
  unfoldable pub register_core :
      Str
      → (CoreConfig → Option (Core S × S))
      → Map Str (CoreConfig → Option (Core S × S))
      → Map Str (CoreConfig → Option (Core S × S))
  register_core t f registry = insert t f registry

  unfoldable pub registered_core : Map Str (CoreConfig → Option (Core S × S)) → List Str
  registered_core [] = []
  registered_core ((k, f) ∷ registry) = k ∷ registered_core registry

  -- The loop of NewSelector; `none` is an error.
  unfoldable pub build_cores :
      Map Str (CoreConfig → Option (Core S × S))
      → Map Str (Core S × S)
      → List CoreConfig
      → Option (Map Str (Core S × S))
  build_cores registry cs [] = some cs
  build_cores registry cs (t ∷ ts) = elim (lookup (to_lower t.type) registry) [
    | none ↦ none
    | some f ↦ f t >>= λ core1.
        build_cores registry (insert (if is_empty t.name then t.type else t.name) core1 cs) ts
  ]

  -- NewSelector
  unfoldable pub new_selector :
      Map Str (CoreConfig → Option (Core S × S)) → List CoreConfig → Option (Selector S)
  new_selector registry c =
      build_cores registry [] c >>= λ cs. some (record { cores = cs; nodes = [] })

  -- A call on the core that has the name.
  abbrev pub call {ℓ} : {A : Type ℓ} → Str → (Core S → S → S × A) → A → Selector S → Selector S × A
  call name f missing s = elim (lookup name s.cores) [
    | none ↦ (s, missing)
    | some c ↦ let r = f c.0 c.1 in (record s { cores = insert name (c.0, r.0) s.cores }, r.1)
  ]

  -- The loop of Start stops at the first error; that of Close goes on. The flag is the error.
  unfoldable pub start_cores : Map Str (Core S × S) → Map Str (Core S × S) × Bool
  start_cores [] = ([], false)
  start_cores ((name, c) ∷ cs) =
      let r = c.0.start c.1 in
      let rest = start_cores cs in
      if r.1 then ((name, (c.0, r.0)) ∷ cs, true) else ((name, (c.0, r.0)) ∷ rest.0, rest.1)

  unfoldable pub close_cores : Map Str (Core S × S) → Map Str (Core S × S) × Bool
  close_cores [] = ([], false)
  close_cores ((name, c) ∷ cs) =
      let r = c.0.close c.1 in
      let rest = close_cores cs in ((name, (c.0, r.0)) ∷ rest.0, r.1 || rest.1)

  -- The test on a core in the loop of AddNode, and the loop: the last core that passes is chosen.
  unfoldable pub suits : Options → NodeInfo → Core S → Bool
  suits o info c =
      if is_empty o.core then is_supported info.type c.protocols else str_beq o.core c.type

  unfoldable pub pick : Options → NodeInfo → Option Str → Map Str (Core S × S) → Option Str
  pick o info found [] = found
  pick o info found ((name, c) ∷ cs) =
      pick o info (if suits o info c.0 then some name else found) cs

  unfoldable pub choose_core : Options → NodeInfo → Map Str (Core S × S) → Option Str
  choose_core o info cs =
      if not (is_empty o.core_name)
      then elim (lookup o.core_name cs) [ none ↦ none | some _ ↦ some o.core_name ]
      else pick o info none cs

  -- AddNode: the selector, the option that the call writes to, and the error flag. `unmarshal` is
  -- option.UnmarshalJSON, with `none` for its error.
  unfoldable pub add_node :
      (Options → Option Options)
      → Str
      → NodeInfo
      → Options
      → Selector S
      → Selector S × Options × Bool
  add_node unmarshal tag info o s = elim (choose_core o info s.cores) [
    | none ↦ (s, o, true)
    | some name ↦ elim (lookup name s.cores) [
      | none ↦ (s, o, true)
      | some c ↦
          let named = record o { core = c.0.type } in
          elim (if is_empty o.core then unmarshal named else some o) [
            | none ↦ (s, named, true)
            | some o' ↦
                let r = call name (λ core. core.add_node tag info o') true s in
                if r.1
                then (r.0, o', true)
                else (record r.0 { nodes = insert tag name r.0.nodes }, o', false)
          ]
    ]
  ]

  -- DelNode, with the error flag
  unfoldable pub del_node : Str → Selector S → Selector S × Bool
  del_node tag s = elim (lookup tag s.nodes) [
    | none ↦ (s, true)
    | some name ↦
        let r = call name (λ core. core.del_node tag) true s in
        if r.1 then (r.0, true) else (record r.0 { nodes = erase tag r.0.nodes }, false)
  ]

  -- AddUsers; `none` is an error.
  unfoldable pub add_users : Str → List UserInfo → NodeInfo → Selector S → Selector S × Option ℤ
  add_users tag users info s = elim (lookup tag s.nodes) [
    | none ↦ (s, none)
    | some name ↦ call name (λ core. core.add_users tag users info) none s
  ]

  -- GetUserTraffic
  unfoldable pub get_user_traffic : Str → Str → Bool → Selector S → Selector S × (ℤ × ℤ)
  get_user_traffic tag uuid reset s = elim (lookup tag s.nodes) [
    | none ↦ (s, (pos 0, pos 0))
    | some name ↦ call name (λ core. core.get_user_traffic tag uuid reset) (pos 0, pos 0) s
  ]

  -- DelUsers, with the error flag
  unfoldable pub del_users : List UserInfo → Str → NodeInfo → Selector S → Selector S × Bool
  del_users users tag info s = elim (lookup tag s.nodes) [
    | none ↦ (s, true)
    | some name ↦ call name (λ core. core.del_users users tag info) true s
  ]

  -- Protocols
  unfoldable pub protocols : Map Str (Core S × S) → List Str
  protocols [] = []
  protocols ((name, c) ∷ cs) = c.0.protocols ++ protocols cs
