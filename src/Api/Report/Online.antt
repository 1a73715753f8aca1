-- ===== src/Api/Report/Online.antt =====
-- api/panel/user.go: what the payloads of the reports have under their keys.
use yav2bx.Base.{
  ◌≡◌, refl, ap, ◌∙◌, List, [], ◌∷◌, Option, none, some, length, arith, if◌then◌else◌,
}
use yav2bx.Int.{ℤ, eq_ℤ_iff}
use yav2bx.Keys.{Str, str_eq, str_beq, str_beq_iff, int_eq}
use yav2bx.Maps.{Map, lookup, insert, Distinct, lookup-insert}
use yav2bx.Panel.{UserTraffic}
use yav2bx.Text.{print_int}
use yav2bx.Node.Key.{print_int-injective}
use yav2bx.Api.Report.{id_payload, online_payload, collect_data}

-- The addresses of a user, if there are any, and what is made of them.
abbrev pub reported {ℓ} : {A : Type ℓ} → (List Str → A) → Option (List Str) → Option A
reported f none = none
reported f (some []) = none
reported f (some (ip ∷ ips)) = some (f (ip ∷ ips))

-- (the keys of the payload are distinct) For every user: idPayload has the user's addresses under
-- the decimal of the id, and onlinePayload their number, exactly when there are addresses.
id_payload-online_payload :
    (payload : Map ℤ (List Str)) (uid : ℤ)
    → Distinct payload
    → (lookup (print_int uid) (id_payload payload) ≡ reported (λ ips. ips) (lookup uid payload))
      × (lookup (print_int uid) (online_payload payload) ≡ reported length (lookup uid payload))
unfolding id_payload online_payload lookup
id_payload-online_payload [] uid d = (refl, refl)
id_payload-online_payload ((j, []) ∷ payload) uid d =
    ground (arith, eq_ℤ_iff j uid, id_payload-online_payload payload uid d.1)
id_payload-online_payload ((j, ip ∷ ips) ∷ payload) uid d =
    rw
      (
        lookup-insert (print_int j) (print_int uid) (ip ∷ ips) (id_payload payload),
        lookup-insert (print_int j) (print_int uid) (length (ip ∷ ips)) (online_payload payload),
      )
      (ground (
        arith,
        eq_ℤ_iff j uid,
        str_beq_iff (print_int j) (print_int uid),
        print_int-injective j uid,
        id_payload-online_payload payload uid d.1,
      ))

-- The key of an entry: its own, or the user's id.
abbrev pub key_of : UserTraffic → Str
key_of t = if str_beq t.key [] then print_int t.uid else t.key

-- The traffic of the last entry with the key.
abbrev pub last_traffic : Str → List UserTraffic → Option (ℤ × ℤ) → Option (ℤ × ℤ)
last_traffic key [] found = found
last_traffic key (t ∷ ts) found =
    last_traffic key ts (if str_beq (key_of t) key then some (t.upload, t.download) else found)

collect_data-lookup :
    (key : Str) (m : Map Str (ℤ × ℤ)) (ts : List UserTraffic)
    → lookup key (collect_data m ts) ≡ last_traffic key ts (lookup key m)
unfolding collect_data
collect_data-lookup key m [] = refl
collect_data-lookup key m (t ∷ ts) =
    collect_data-lookup key (insert (key_of t) (t.upload, t.download) m) ts
    ∙ ap (last_traffic key ts) (lookup-insert (key_of t) key (t.upload, t.download) m)
