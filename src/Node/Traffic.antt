-- ===== src/Node/Traffic.antt =====
-- node/controller.go: the traffic of the users since the last check of the dynamic speed limit. A nil
-- map is the empty one, as it reads and deletes like it.
use yav2bx.Base.{
  ◌≡◌, refl, Bool, true, false, not, ◌&&◌, ◌||◌, List, [], ◌∷◌, Option, none, some, arith,
  if◌then◌else◌,
}
use yav2bx.Int.{ℤ, pos, ◌+ℤ◌, le_ℤ, wrap64}
use yav2bx.Keys.{Str, str_eq, str_beq, str_beq_iff}
use yav2bx.Maps.{Map, lookup, insert, erase, Distinct}
use yav2bx.Panel.{LimitConfig}

unfoldable pub reset_traffic : Map Str ℤ → Map Str ℤ
reset_traffic traffic = []

unfoldable pub add_traffic : Str → ℤ → Map Str ℤ → Map Str ℤ
add_traffic uuid n traffic =
    if le_ℤ n (pos 0)
    then traffic
    else (let old : ℤ = elim (lookup uuid traffic) [ none ↦ pos 0 | some t ↦ t ] in
        insert uuid (wrap64 (old +ℤ n)) traffic)

unfoldable pub delete_traffic : Str → Map Str ℤ → Map Str ℤ
delete_traffic uuid traffic = erase uuid traffic

-- dynamicSpeedLimitEnabled
unfoldable pub dynamic_speed_limit_enabled : LimitConfig → Bool
dynamic_speed_limit_enabled c =
    c.enable_dynamic_speed_limit
    && elim c.dynamic_speed_limit_config [ none ↦ false | some _ ↦ true ]

-- The loop of consumeDynamicSpeedLimitUsers: the matched users, and the map without them.
unfoldable pub consume_over : ℤ → Map Str ℤ → List Str × Map Str ℤ
consume_over threshold [] = ([], [])
consume_over threshold ((uuid, n) ∷ m) =
    let r = consume_over threshold m in
    if le_ℤ threshold n then (uuid ∷ r.0, r.1) else (r.0, (uuid, n) ∷ r.1)

-- consumeDynamicSpeedLimitUsers
unfoldable pub consume_dynamic_speed_limit_users : LimitConfig → Map Str ℤ → List Str × Map Str ℤ
consume_dynamic_speed_limit_users c traffic =
    if not (dynamic_speed_limit_enabled c)
    then ([], traffic)
    else elim c.dynamic_speed_limit_config [
      | none ↦ ([], traffic)
      | some d ↦ if le_ℤ d.traffic (pos 0) then ([], traffic) else consume_over d.traffic traffic
    ]

abbrev pub contains : Str → List Str → Bool
contains uuid [] = false
contains uuid (x ∷ xs) = str_beq x uuid || contains uuid xs

-- Whether the traffic of a user is at the threshold or above it.
abbrev pub is_over : ℤ → Option ℤ → Bool
is_over threshold none = false
is_over threshold (some n) = le_ℤ threshold n

-- What the check takes: on a map with distinct keys, the users that it takes are those at or above
-- the threshold, each once, and exactly their entries leave the map.
pub consume_over_lem :
    (threshold : ℤ) (traffic : Map Str ℤ) (uuid : Str)
    → Distinct traffic
    → let r = consume_over threshold traffic in
      (contains uuid r.0 ≡ is_over threshold (lookup uuid traffic))
      × (lookup uuid r.1
          ≡ (if is_over threshold (lookup uuid traffic) then none else lookup uuid traffic))
unfolding consume_over lookup
consume_over_lem threshold [] uuid d = (refl, refl)
consume_over_lem threshold ((j, n) ∷ m) uuid d =
    ground (arith, consume_over_lem threshold m uuid d.1, d.0, str_beq_iff j uuid)
