-- ===== src/Sing/Users.antt =====
-- core/sing/user.go: the users that AddUsers gives to an inbound of the sing-box library, and DelUsers.
-- The inbounds are an interface with a state; base64 is an argument. `none` is a panic.
use yav2bx.Base.{
  ℕ, Bool, true, not, ◌||◌, List, [], ◌∷◌, map, length, Option, none, some, if◌then◌else◌, ◌>>=◌,
}
use yav2bx.Int.{ℤ}
use yav2bx.Keys.{Str, str_beq}
use yav2bx.Panel.{UserInfo}
use yav2bx.Text.{bytes}
use yav2bx.Protocol.{Settings}
use yav2bx.Node.{NodeInfo}
use yav2bx.Xray.Accounts.{prefix_of}

-- A user of the library: its name, which is the uuid, and what each type of inbound adds.
pub data InboundUser : Type 0 where
  vless : Str → Str → Str → InboundUser
  vmess : Str → Str → InboundUser
  shadowsocks : Str → Str → InboundUser
  trojan : Str → Str → InboundUser
  tuic : Str → Str → Str → ℤ → InboundUser
  anytls : Str → Str → InboundUser
  hysteria : Str → Str → InboundUser
  hysteria2 : Str → Str → ℤ → InboundUser

-- The password of a shadowsocks user, whose uuid may be too short for the cipher.
unfoldable pub shadowsocks_password : (Str → Str) → Str → Str → Option Str
shadowsocks_password encode cipher uuid =
    if str_beq cipher (bytes "2022-blake3-aes-128-gcm")
    then (prefix_of 16 uuid >>= λ p. some (encode p))
    else if str_beq cipher (bytes "2022-blake3-aes-256-gcm")
    then (prefix_of 32 uuid >>= λ p. some (encode p))
    else some uuid

unfoldable pub shadowsocks_users : (Str → Str) → Str → List UserInfo → Option (List InboundUser)
shadowsocks_users encode cipher [] = some []
shadowsocks_users encode cipher (u ∷ us) = shadowsocks_password encode cipher u.uuid >>= λ password.
    (shadowsocks_users encode cipher us >>= λ rest. some (shadowsocks u.uuid password ∷ rest))

-- The switch of AddUsers. A type that is none of them adds no user, and says that it added all.
unfoldable pub inbound_users :
    (Str → Str) → NodeInfo → List UserInfo → Option (Option (List InboundUser))
inbound_users encode node users =
    let is = λ (s : Str). str_beq node.type s in
    if is (bytes "vless")
    then elim node.settings [
      | some (Settings.vallss v) ↦
          some (some (map (λ (u : UserInfo). vless u.uuid v.flow u.uuid) users))
      | _ ↦ elim users [ [] ↦ some (some []) | u ∷ us ↦ none ]
    ]
    else if is (bytes "vmess")
    then some (some (map (λ (u : UserInfo). vmess u.uuid u.uuid) users))
    else if is (bytes "shadowsocks")
    then elim node.settings [
      | some (Settings.shadowsocks s) ↦
          shadowsocks_users encode s.cipher users >>= λ us. some (some us)
      | _ ↦ elim users [ [] ↦ some (some []) | u ∷ us ↦ none ]
    ]
    else if is (bytes "trojan")
    then some (some (map (λ (u : UserInfo). trojan u.uuid u.uuid) users))
    else if is (bytes "tuic")
    then some (some (map (λ (u : UserInfo). tuic u.uuid u.uuid u.uuid u.id) users))
    else if is (bytes "anytls")
    then some (some (map (λ (u : UserInfo). anytls u.uuid u.uuid) users))
    else if is (bytes "hysteria")
    then some (some (map (λ (u : UserInfo). hysteria u.uuid u.uuid) users))
    else if is (bytes "hysteria2")
    then some (some (map (λ (u : UserInfo). hysteria2 u.uuid u.uuid u.id) users))
    else some none

-- The inbounds: whether there is one with the tag, and its AddUsers and DelUsers; the flag is an
-- error.
pub record Inbounds (S : Type 0) : Type 0 where
  pub is_there : Str → S → Bool
  pub add : Str → List InboundUser → S → S × Bool
  pub remove : Str → List Str → S → S × Bool

-- AddUsers, for another type than naive: the number of users, or `none` for an error.
unfoldable pub add_users :
    {S : Type 0}
    → Inbounds S
    → (Str → Str)
    → Str
    → List UserInfo
    → NodeInfo
    → S
    → Option (S × Option ℕ)
add_users inbounds encode tag users node s =
    if not (inbounds.is_there tag s)
    then some (s, none)
    else (inbound_users encode node users >>= λ built. some (elim built [
      | none ↦ (s, some (length users))
      | some us ↦ let r = inbounds.add tag us s in (r.0, if r.1 then none else some (length users))
    ]))

-- The types whose inbounds delete users; for any other the deletion panics.
abbrev pub deletes : Str → Bool
deletes type =
    let is = λ (s : Str). str_beq type s in
    is (bytes "vmess")
    || is (bytes "vless")
    || is (bytes "shadowsocks")
    || is (bytes "trojan")
    || is (bytes "tuic")
    || is (bytes "anytls")
    || is (bytes "hysteria")
    || is (bytes "hysteria2")

-- DelUsers, for another type than naive.
unfoldable pub del_users :
    {S : Type 0} → Inbounds S → List UserInfo → Str → NodeInfo → S → Option (S × Bool)
del_users inbounds users tag node s =
    if not (inbounds.is_there tag s)
    then some (s, true)
    else if deletes node.type
    then some (inbounds.remove tag (map (λ (u : UserInfo). u.uuid) users) s)
    else none
