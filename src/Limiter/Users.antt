-- ===== src/Limiter/Users.antt =====
-- limiter/limiter.go: AddLimiter and UpdateUser against the lists of users that they are given.
use yav2bx.Base.{
  ◌≡◌, refl, ◌∙◌, Bool, false, ◌||◌, List, [], ◌∷◌, ◌++◌, Option, none, some, arith, if◌then◌else◌,
}
use yav2bx.Int.{ℤ, eq_ℤ}
use yav2bx.Keys.{Str, str_eq, str_beq, int_eq}
use yav2bx.Maps.{Map, lookup, insert, lookup-insert, lookup-erase}
use yav2bx.Panel.{UserInfo, LimitConfig, user_tag}
use yav2bx.Limiter.{
  UserLimitInfo, Limiter, user_limit_of, store_limits, store_uids, delete_alive, delete_user,
  delete_users, add_users, update_user, new_limiter,
}

-- The last entry of the list for a uuid, and whether there is one.
abbrev pub last_user : Str → List UserInfo → Option UserInfo
last_user uuid [] = none
last_user uuid (u ∷ us) = elim (last_user uuid us) [
  | some w ↦ some w
  | none ↦ if str_beq u.uuid uuid then some u else none
]

abbrev pub has_uuid : Str → List UserInfo → Bool
has_uuid uuid [] = false
has_uuid uuid (u ∷ us) = str_beq u.uuid uuid || has_uuid uuid us

abbrev pub has_id : ℤ → List UserInfo → Bool
has_id uid [] = false
has_id uid (u ∷ us) = eq_ℤ u.id uid || has_id uid us

pub beq-append : (p a b : Str) → str_beq (p ++ a) (p ++ b) ≡ str_beq a b
unfolding str_beq
beq-append [] a b = refl
beq-append (c ∷ p) a b = ground (arith, beq-append p a b)

-- Within a node, users are told apart by their uuid.
pub user_tag-beq : (tag a b : Str) → str_beq (user_tag tag a) (user_tag tag b) ≡ str_beq a b
unfolding user_tag
user_tag-beq tag a b = beq-append tag (b'|' ∷ a) (b'|' ∷ b) ∙ unfold str_beq in ground arith

lookup-store_limits :
    (tag uuid : Str) (us : List UserInfo) (m : Map Str UserLimitInfo)
    → lookup (user_tag tag uuid) (store_limits tag m us) ≡ elim (last_user uuid us) [
      | some u ↦ some (user_limit_of u)
      | none ↦ lookup (user_tag tag uuid) m
    ]
unfolding store_limits
lookup-store_limits tag uuid [] m = refl
lookup-store_limits tag uuid (u ∷ us) m = ground (
  arith,
  lookup-store_limits tag uuid us (insert (user_tag tag u.uuid) (user_limit_of u) m),
  lookup-insert (user_tag tag u.uuid) (user_tag tag uuid) (user_limit_of u) m,
  user_tag-beq tag u.uuid uuid,
)

lookup-store_uids :
    (uuid : Str) (us : List UserInfo) (m : Map Str ℤ)
    → lookup uuid (store_uids m us)
      ≡ elim (last_user uuid us) [ some u ↦ some u.id | none ↦ lookup uuid m ]
unfolding store_uids
lookup-store_uids uuid [] m = refl
lookup-store_uids uuid (u ∷ us) m =
    ground
      (arith, lookup-store_uids uuid us (insert u.uuid u.id m), lookup-insert u.uuid uuid u.id m)

module _ {Regexp Bucket : Type 0} where
  -- What the loop over the deleted users leaves.
  delete_users_lem :
      (tag uuid : Str) (uid : ℤ) (us : List UserInfo) (l : Limiter Regexp Bucket)
      → let l' = delete_users tag us l in
        (lookup (user_tag tag uuid) l'.user_limit_info
          ≡ (if has_uuid uuid us then none else lookup (user_tag tag uuid) l.user_limit_info))
        × (lookup (user_tag tag uuid) l'.user_online_ip
            ≡ (if has_uuid uuid us then none else lookup (user_tag tag uuid) l.user_online_ip))
        × (lookup (user_tag tag uuid) l'.speed_limiter
            ≡ (if has_uuid uuid us then none else lookup (user_tag tag uuid) l.speed_limiter))
        × (lookup uuid l'.uuid_to_uid
            ≡ (if has_uuid uuid us then none else lookup uuid l.uuid_to_uid))
        × (lookup uid l'.alive_list ≡ (if has_id uid us then none else lookup uid l.alive_list))
  unfolding delete_users delete_user delete_alive
  delete_users_lem tag uuid uid [] l = (refl, refl, refl, refl, refl)
  delete_users_lem tag uuid uid (u ∷ us) l = ground (
    arith,
    delete_users_lem tag uuid uid us (delete_user tag u l),
    user_tag-beq tag u.uuid uuid,
    lookup-erase (user_tag tag u.uuid) (user_tag tag uuid) l.user_limit_info,
    lookup-erase (user_tag tag u.uuid) (user_tag tag uuid) l.user_online_ip,
    lookup-erase (user_tag tag u.uuid) (user_tag tag uuid) l.speed_limiter,
    lookup-erase u.uuid uuid l.uuid_to_uid,
    lookup-erase u.id uid l.alive_list,
  )

  -- UpdateUser, for every user of the node: the record and the id are those of the last added entry
  -- with the uuid, else they are gone if the uuid was deleted, else they stay; the online addresses
  -- and the speed bucket of a deleted uuid are gone, and so is the device count of a deleted id;
  -- all others stay.
  pub update_user_lem :
      (tag uuid : Str) (uid : ℤ) (added deleted : List UserInfo) (l : Limiter Regexp Bucket)
      → let l' = update_user tag added deleted l in
        (lookup (user_tag tag uuid) l'.user_limit_info ≡ elim (last_user uuid added) [
          | some u ↦ some (user_limit_of u)
          | none ↦
              if has_uuid uuid deleted then none else lookup (user_tag tag uuid) l.user_limit_info
        ])
        × (lookup uuid l'.uuid_to_uid ≡ elim (last_user uuid added) [
          | some u ↦ some u.id
          | none ↦ if has_uuid uuid deleted then none else lookup uuid l.uuid_to_uid
        ])
        × (lookup (user_tag tag uuid) l'.user_online_ip
            ≡ (if has_uuid uuid deleted then none else lookup (user_tag tag uuid) l.user_online_ip))
        × (lookup (user_tag tag uuid) l'.speed_limiter
            ≡ (if has_uuid uuid deleted then none else lookup (user_tag tag uuid) l.speed_limiter))
        × (lookup uid l'.alive_list
            ≡ (if has_id uid deleted then none else lookup uid l.alive_list))
  unfolding update_user add_users
  update_user_lem tag uuid uid added deleted l = ground (
    arith,
    delete_users_lem tag uuid uid deleted l,
    lookup-store_limits tag uuid added (delete_users tag deleted l).user_limit_info,
    lookup-store_uids uuid added (delete_users tag deleted l).uuid_to_uid,
  )

-- AddLimiter registers exactly the listed users: a uuid has a record and an id if and only if the
-- list has it, and they are those of its last entry.
pub new_limiter_users :
    (Regexp Bucket : Type 0) (tag uuid : Str) (c : LimitConfig) (users : List UserInfo)
    (alive : Map ℤ ℤ)
    → let l : Limiter Regexp Bucket = new_limiter tag c users alive in
      (lookup (user_tag tag uuid) l.user_limit_info
        ≡ elim (last_user uuid users) [ some u ↦ some (user_limit_of u) | none ↦ none ])
      × (lookup uuid l.uuid_to_uid
          ≡ elim (last_user uuid users) [ some u ↦ some u.id | none ↦ none ])
unfolding new_limiter lookup
new_limiter_users Regexp Bucket tag uuid c users alive =
    ground (arith, lookup-store_limits tag uuid users [], lookup-store_uids uuid users [])
