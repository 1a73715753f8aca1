-- ===== src/Node/Uuids.antt =====
-- node/user.go, compareUserList, as the limiter reads its results: by uuid.
use yav2bx.Base.{
  ◌≡◌, ◌≢◌, sym, ap, subst, ◌∙◌, inl, inr, true, false, not, ◌&&◌, ◌||◌, List, [], ◌∷◌, arith,
  Bool-cases, Ensures, Ensures-of,
}
use yav2bx.Keys.{Str, str_beq, str_beq_iff}
use yav2bx.Panel.{UserInfo}
use yav2bx.Limiter.Users.{has_uuid}
use yav2bx.Node.Key.{user_compare_key, user_compare_key-injective}
use yav2bx.Node.Compare.{
  same_key, has_key, KeysApart, compare_user_list, compare_user_list_deleted,
  compare_user_list_added,
}

-- No two users of a list have the same uuid.
abbrev pub UuidsApart : List UserInfo → Type 0
UuidsApart [] = Unit
UuidsApart (u ∷ us) = (has_uuid u.uuid us ≡ false) × UuidsApart us

true≢false : true ≢ false
true≢false e = absurd (ground (arith, e))

-- A user with the uuid, whose key the list has.
has_uuid-has_key :
    (uuid : Str) (us : List UserInfo)
    → has_uuid uuid us ≡ true
    → (w : UserInfo) × ((w.uuid ≡ uuid) × (has_key (user_compare_key w) us ≡ true))
has_uuid-has_key uuid [] h = absurd (ground (arith, h))
has_uuid-has_key uuid (u ∷ us) h = elim (Bool-cases (str_beq u.uuid uuid)) [
  | inl e ↦ (
    u,
    (
      (str_beq_iff u.uuid uuid).0 e,
      ground (arith, str_beq_iff (user_compare_key u) (user_compare_key u)),
    ),
  )
  | inr e ↦
      let r = has_uuid-has_key uuid us (ground (arith, h, e)) in
      (r.0, (r.1.0, ground (arith, r.1.1)))
]

same_key-uuid : (u w : UserInfo) → same_key u (user_compare_key w) ≡ true → u.uuid ≡ w.uuid
same_key-uuid u w e =
    ap (λ x. x.uuid)
      (user_compare_key-injective u w ((str_beq_iff (user_compare_key u) (user_compare_key w)).0 e))

has_key-has_uuid :
    (w : UserInfo) (us : List UserInfo)
    → has_key (user_compare_key w) us ≡ true
    → has_uuid w.uuid us ≡ true
has_key-has_uuid w [] h = absurd (ground (arith, h))
has_key-has_uuid w (u ∷ us) h = elim (Bool-cases (same_key u (user_compare_key w))) [
  | inl e ↦ ground (arith, (str_beq_iff u.uuid w.uuid).1 (same_key-uuid u w e))
  | inr e ↦ ground (arith, has_key-has_uuid w us (ground (arith, h, e)))
]

-- In a list whose uuids are apart, the uuid decides the key.
has_key_unique :
    (w v : UserInfo) (us : List UserInfo)
    → UuidsApart us
    → w.uuid ≡ v.uuid
    → has_key (user_compare_key w) us ≡ true
    → has_key (user_compare_key v) us ≡ true
    → user_compare_key w ≡ user_compare_key v
has_key_unique w v [] a e hw hv = absurd (ground (arith, hw))
has_key_unique w v (u ∷ us) a e hw hv = elim (Bool-cases (same_key u (user_compare_key w))) [
  | inl p ↦ elim (Bool-cases (same_key u (user_compare_key v))) [
    | inl q ↦
        sym ((str_beq_iff (user_compare_key u) (user_compare_key w)).0 p)
        ∙ (str_beq_iff (user_compare_key u) (user_compare_key v)).0 q
    | inr q ↦ absurd (
        true≢false (
          sym (has_key-has_uuid v us (ground (arith, hv, q)))
          ∙ ap (λ x. has_uuid x us) (sym (same_key-uuid u w p ∙ e))
          ∙ a.0))
  ]
  | inr p ↦ elim (Bool-cases (same_key u (user_compare_key v))) [
    | inl q ↦ absurd (
        true≢false (
          sym (has_key-has_uuid w us (ground (arith, hw, p)))
          ∙ ap (λ x. has_uuid x us) (e ∙ sym (same_key-uuid u v q))
          ∙ a.0))
    | inr q ↦ has_key_unique w v us a.1 e (ground (arith, hw, p)) (ground (arith, hv, q))
  ]
]

UuidsApart-KeysApart : (us : List UserInfo) → UuidsApart us → KeysApart us
UuidsApart-KeysApart [] a = tt
UuidsApart-KeysApart (u ∷ us) a =
    (ground (arith, a.0, has_key-has_uuid u us), UuidsApart-KeysApart us a.1)

-- The three lists behind a comparison, given what it says of each key.
module _ (old new deleted added : List UserInfo) (apart : UuidsApart old)
    (is_deleted : (k : Str) → has_key k deleted ≡ (has_key k old && not (has_key k new)))
    (is_added : (k : Str) → has_key k added ≡ (has_key k new && not (has_key k old))) where
  added-new : (uuid : Str) → has_uuid uuid added ≡ true → has_uuid uuid new ≡ true
  added-new uuid h =
      let r = has_uuid-has_key uuid added h in
      subst (λ x. has_uuid x new ≡ true) r.1.0
        (has_key-has_uuid r.0 new (ground (arith, is_added (user_compare_key r.0), r.1.1)))

  kept-new :
      (uuid : Str)
      → has_uuid uuid old ≡ true
      → has_uuid uuid deleted ≡ false
      → has_uuid uuid new ≡ true
  kept-new uuid h n =
      let r = has_uuid-has_key uuid old h in
      elim (Bool-cases (has_key (user_compare_key r.0) new)) [
        | inl p ↦ subst (λ x. has_uuid x new ≡ true) r.1.0 (has_key-has_uuid r.0 new p)
        | inr p ↦ absurd (
            true≢false (
              sym (
                has_key-has_uuid r.0 deleted
                  (ground (arith, is_deleted (user_compare_key r.0), r.1.1, p)))
              ∙ ap (λ x. has_uuid x deleted) r.1.0
              ∙ n))
      ]

  new-kept :
      (uuid : Str)
      → has_uuid uuid new ≡ true
      → has_uuid uuid added ≡ false
      → (has_uuid uuid old && not (has_uuid uuid deleted)) ≡ true
  new-kept uuid h n =
      let w = has_uuid-has_key uuid new h in
      elim (Bool-cases (has_key (user_compare_key w.0) old)) [
        | inl p ↦ elim (Bool-cases (has_uuid uuid deleted)) [
          | inl d ↦
              let v = has_uuid-has_key uuid deleted d in
              let gone = is_deleted (user_compare_key v.0) in
              let same =
                has_key_unique w.0 v.0 old apart (w.1.0 ∙ sym v.1.0) p
                  (ground (arith, gone, v.1.1)) in
              absurd (ground (arith, gone, v.1.1, w.1.1, ap (λ k. has_key k new) same))
          | inr d ↦
              ground
                (arith, d, subst (λ x. has_uuid x old ≡ true) w.1.0 (has_key-has_uuid w.0 old p))
        ]
        | inr p ↦ absurd (
            true≢false (
              sym (
                has_key-has_uuid w.0 added
                  (ground (arith, is_added (user_compare_key w.0), w.1.1, p)))
              ∙ ap (λ x. has_uuid x added) w.1.0
              ∙ n))
      ]

  follows :
      (uuid : Str)
      → (has_uuid uuid added || (has_uuid uuid old && not (has_uuid uuid deleted)))
        ≡ has_uuid uuid new
  follows uuid = ground (arith, added-new uuid, kept-new uuid, new-kept uuid)

-- What UpdateUser makes of the comparison (the uuids of each list are apart): a uuid is added, or it
-- is an old one that is not deleted, exactly when the new list has it.
pub compare_user_list_uuids :
    (old new : List UserInfo)
    → UuidsApart old
    → UuidsApart new
    → Ensures
        (λ r.
          (uuid : Str)
          → (has_uuid uuid r.1 || (has_uuid uuid old && not (has_uuid uuid r.0)))
            ≡ has_uuid uuid new)
        (compare_user_list old new)
compare_user_list_uuids old new a b =
    Ensures-of _ _ (compare_user_list old new) (compare_user_list_deleted old new)
      (λ r q is_deleted uuid.
        follows old new r.0 r.1 a is_deleted
          (subst (Ensures _) q (compare_user_list_added old new (UuidsApart-KeysApart new b))) uuid)
