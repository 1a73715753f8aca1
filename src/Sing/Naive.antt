-- ===== src/Sing/Naive.antt =====
-- core/sing/naive.go: a naive inbound, which the core rebuilds with each change of its users. The
-- inbounds of the library are an interface with a state; the options of one are what
-- getInboundOptions makes of the node and the users, or an error.
use yav2bx.Base.{
  ℕ, Bool, true, false, List, [], ◌∷◌, map, length, Option, none, some, if◌then◌else◌,
}
use yav2bx.Keys.{Str, str_eq}
use yav2bx.Maps.{Map, lookup, insert, erase}
use yav2bx.Panel.{UserInfo}
use yav2bx.Node.{NodeInfo, Options}
use yav2bx.Node.Sync.{sort, str_lt}

pub record NaiveState : Type 0 where
  pub info : NodeInfo
  pub config : Options
  pub users : Map Str UserInfo

-- adapter.InboundManager, with the options of its inbounds; the flags are errors.
pub record NaiveInbounds (S O : Type 0) : Type 0 where
  pub is_there : Str → S → Bool
  pub remove : Str → S → S × Bool
  pub create : Str → O → S → S × Bool
  pub options : Str → NodeInfo → Options → List (Str × Str) → Option O

unfoldable pub add_naive_node : Str → NodeInfo → Options → Map Str NaiveState → Map Str NaiveState
add_naive_node tag info config nodes =
    insert tag (record { info = info; config = config; users = [] }) nodes

abbrev pub has_naive_node : Str → Map Str NaiveState → Bool
has_naive_node tag nodes = elim (lookup tag nodes) [ none ↦ false | some s ↦ true ]

unfoldable pub delete_naive_node : Str → Map Str NaiveState → Map Str NaiveState
delete_naive_node tag nodes = erase tag nodes

-- buildNaiveAuthUsers
unfoldable pub build_naive_auth_users : Map Str UserInfo → List (Str × Str)
build_naive_auth_users users = map (λ uuid. (uuid, uuid)) (sort str_lt (map (λ e. e.0) users))

-- The loops on the users of a node.
unfoldable pub store_users : List UserInfo → Map Str UserInfo → Map Str UserInfo
store_users [] users = users
store_users (u ∷ us) users = store_users us (insert u.uuid u users)

unfoldable pub remove_users : List UserInfo → Map Str UserInfo → Map Str UserInfo
remove_users [] users = users
remove_users (u ∷ us) users = remove_users us (erase u.uuid users)

module _ {S O : Type 0} where
  -- The removal of an inbound that may be there.
  abbrev pub remove_there : NaiveInbounds S O → Str → S → S × Bool
  remove_there inbounds tag s =
      if inbounds.is_there tag s then inbounds.remove tag s else (s, false)

  -- applyNaiveInboundLocked
  unfoldable pub apply_naive_inbound : NaiveInbounds S O → Str → NaiveState → S → S × Bool
  apply_naive_inbound inbounds tag state s =
      let removed = remove_there inbounds tag s in
      elim state.users [
        | [] ↦ removed
        | u ∷ us ↦
            elim (inbounds.options tag state.info state.config
              (build_naive_auth_users state.users)) [
                | none ↦ (s, true)
                | some o ↦ if removed.1 then (removed.0, true) else inbounds.create tag o removed.0
              ]
      ]

  -- addNaiveUsers: the number of users, or `none` for an error.
  unfoldable pub add_naive_users :
      NaiveInbounds S O
      → Str
      → List UserInfo
      → NodeInfo
      → Map Str NaiveState × S
      → (Map Str NaiveState × S) × Option ℕ
  add_naive_users inbounds tag users node (nodes, s) = elim (lookup tag nodes) [
    | none ↦ ((nodes, s), none)
    | some state ↦
        let state' = record state { info = node; users = store_users users state.users } in
        let r = apply_naive_inbound inbounds tag state' s in
        ((insert tag state' nodes, r.0), if r.1 then none else some (length users))
  ]

  -- delNaiveUsers; the flag is the error.
  unfoldable pub del_naive_users :
      NaiveInbounds S O
      → List UserInfo
      → Str
      → Map Str NaiveState × S
      → (Map Str NaiveState × S) × Bool
  del_naive_users inbounds users tag (nodes, s) = elim (lookup tag nodes) [
    | none ↦ ((nodes, s), true)
    | some state ↦
        let state' = record state { users = remove_users users state.users } in
        let r = apply_naive_inbound inbounds tag state' s in ((insert tag state' nodes, r.0), r.1)
  ]
