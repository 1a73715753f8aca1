-- ===== src/Api/Alive.antt =====
-- api/panel/user.go, decodeAliveMap and the requests for the alive list. What json.Unmarshal makes of
-- a text is an argument. The fuel counts the texts inside texts.
use yav2bx.Base.{
  ℕ, zero, suc, ◌<◌, ◌≡◌, ◌≢◌, refl, not, ◌||◌, List, [], ◌∷◌, Option, none, some, leb, length,
  arith, if◌then◌else◌, Option-cases, inl, inr,
}
use yav2bx.Int.{ℤ}
use yav2bx.Keys.{Str, str_eq, int_eq}
use yav2bx.Maps.{Map, lookup, insert}
use yav2bx.Panel.{Client}
use yav2bx.Text.{bytes, atoi}
use yav2bx.Api.{get, Request, answered, failed, Panel, send, is_ppanel}

-- A value of any type: a number, as the conversion to int reads it, a string, or something else.
pub data Any : Type 0 where
  number : ℤ → Any
  text : Str → Any
  other : Any

-- json.Unmarshal into the types of decodeAliveMap; `none` is an error, and the field of the wrapper
-- may be missing.
pub record AliveJson : Type 0 where
  pub wrapped : Str → Option (Option (Map ℤ ℤ))
  pub direct_int : Str → Option (Map ℤ ℤ)
  pub direct_str : Str → Option (Map Str ℤ)
  pub direct_any : Str → Option (Map Str Any)
  pub payload : Str → Option (Map Str Str)

abbrev pub nonempty {ℓ κ} : {K : Type ℓ} {V : Type κ} → Option (Map K V) → Option (Map K V)
nonempty none = none
nonempty (some []) = none
nonempty (some (e ∷ m)) = some (e ∷ m)

-- The loops over the maps with text keys.
unfoldable pub read_counts : Map ℤ ℤ → Map Str ℤ → Map ℤ ℤ
read_counts alive [] = alive
read_counts alive ((k, v) ∷ direct) =
    let uid = atoi k in read_counts (if uid.1 then alive else insert uid.0 v alive) direct

abbrev pub read_any : Any → Option ℤ
read_any (number n) = some n
read_any (text s) = let n = atoi s in if n.1 then none else some n.0
read_any other = none

unfoldable pub read_anys : Map ℤ ℤ → Map Str Any → Map ℤ ℤ
read_anys alive [] = alive
read_anys alive ((k, v) ∷ direct) =
    let uid = atoi k in
    let stored : Map ℤ ℤ = elim (read_any v) [ none ↦ alive | some n ↦ insert uid.0 n alive ] in
    read_anys (if uid.1 then alive else stored) direct

-- The first of two results that is not empty.
abbrev pub or_decode : Option (Map ℤ ℤ) → Option (Map ℤ ℤ) → Option (Map ℤ ℤ)
or_decode none rest = none
or_decode (some []) rest = rest
or_decode (some (e ∷ m)) rest = some (e ∷ m)

-- What is found under a key of an object, by a decoder for the text there.
abbrev pub field_alive : (Str → Option (Map ℤ ℤ)) → Str → Map Str Str → Option (Map ℤ ℤ)
field_alive decode key fields = elim (lookup key fields) [ none ↦ some [] | some raw ↦ decode raw ]

-- The part on the payload: `alive`, then `data`, then what was found before.
abbrev pub payload_alive :
    (Str → Option (Map ℤ ℤ)) → Map ℤ ℤ → Option (Map Str Str) → Option (Map ℤ ℤ)
payload_alive decode alive none = some alive
payload_alive decode alive (some fields) =
    or_decode (field_alive decode (bytes "alive") fields)
      (or_decode (field_alive decode (bytes "data") fields) (some alive))

-- The map with values of any type.
abbrev pub any_alive : Option (Map Str Any) → Map ℤ ℤ
any_alive none = []
any_alive (some m) = read_anys [] m

-- decodeAliveMap; `none` is too little fuel.
unfoldable pub decode_alive_map : AliveJson → ℕ → Str → Option (Map ℤ ℤ)
decode_alive_map json zero body = none
decode_alive_map json (suc fuel) body =
    let alive = any_alive (json.direct_any body) in
    let last = payload_alive (decode_alive_map json fuel) alive (json.payload body) in
    elim (json.wrapped body) [
      | some (some m) ↦ some m
      | _ ↦ elim (nonempty (json.direct_int body)) [
        | some m ↦ some m
        | none ↦ elim (nonempty (json.direct_str body)) [
          | some m ↦ some (read_counts [] m)
          | none ↦ if leb 1 (length alive) then some alive else last
        ]
      ]
    ]

-- fetchAliveList: the first path that answers with a status below 399, and nothing is an empty map.
unfoldable pub fetch_alive_list :
    (Str → Map ℤ ℤ) → Panel → List Str → List Request → List Request × Map ℤ ℤ
fetch_alive_list decode panel [] sent = (sent, [])
fetch_alive_list decode panel (path ∷ paths) sent =
    let done = send panel (record { path = path; body = get }) sent in
    let rest = fetch_alive_list decode panel paths done.0 in
    elim done.1 [
      | failed r ↦ rest
      | answered r ↦
          if not r.has_raw || leb 399 r.status_code then rest else (done.0, decode r.body)
    ]

abbrev pub alive_paths : List Str
alive_paths =
    bytes "/api/v1/server/UniProxy/alivelist"
    ∷ bytes "/api/v2/server/alivelist"
    ∷ bytes "/api/v1/server/alivelist"
    ∷ bytes "/api/v2/server/alivelist"
    ∷ []

-- GetUserAlive, which never gives an error.
unfoldable pub get_user_alive :
    (Str → Map ℤ ℤ) → Panel → Client × List Request → (Client × List Request) × Map ℤ ℤ
get_user_alive decode panel (c, sent) =
    let done = if is_ppanel c then (sent, []) else fetch_alive_list decode panel alive_paths sent in
    ((record c { alive_map = done.1 }, done.0), done.1)

-- A text that json.Unmarshal cuts out of an object is shorter than the object's.
abbrev pub IsNested : AliveJson → Type 0
IsNested json =
    (body : Str) (fields : Map Str Str) (key raw : Str)
    → json.payload body ≡ some fields
    → lookup key fields ≡ some raw
    → length raw < length body

payload_alive_ends :
    (decode : Str → Option (Map ℤ ℤ)) (alive : Map ℤ ℤ) (payload : Option (Map Str Str))
    → ((fields : Map Str Str) (key raw : Str)
        → payload ≡ some fields
        → lookup key fields ≡ some raw
        → decode raw ≢ none)
    → payload_alive decode alive payload ≢ none
payload_alive_ends decode alive none ends = cc
payload_alive_ends decode alive (some fields) ends =
    either _ _ (field (bytes "alive")) (either _ (some alive) (field (bytes "data")) cc)
  where
    field : (key : Str) → field_alive decode key fields ≢ none
    field key = elim (Option-cases (lookup key fields)) [
      | inl q ↦ rw (q, field_alive) cc
      | inr (raw, q) ↦ rw (q, field_alive) (ends fields key raw refl q)
    ]

    either : (o p : Option (Map ℤ ℤ)) → o ≢ none → p ≢ none → or_decode o p ≢ none
    either none p h k = h
    either (some []) p h k = k
    either (some (e ∷ m)) p h k = cc

-- (the texts inside an object are shorter than it) decodeAliveMap ends on every text: fuel beyond its
-- length is enough.
pub decode_alive_map_ends :
    (json : AliveJson) (fuel : ℕ) (body : Str)
    → IsNested json
    → length body < fuel
    → decode_alive_map json fuel body ≢ none
unfolding decode_alive_map
decode_alive_map_ends json zero body nested h = absurd (omega arith)
decode_alive_map_ends json (suc fuel) body nested h = ground (
  arith,
  payload_alive_ends (decode_alive_map json fuel) (any_alive (json.direct_any body))
      (json.payload body)
      (λ fields key raw q r.
        decode_alive_map_ends json fuel raw nested (omega (arith, nested body fields key raw q r))),
)
