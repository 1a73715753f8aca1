-- ===== src/Xray/Accounts.antt =====
-- core/xray/vmess.go, ss.go, trojan.go and vless_encryption.go: the accounts of a node's users. Base64 is
-- an argument: the encoding, and the length of what RawURLEncoding decodes. `none` is a panic.
use yav2bx.Base.{
  ℕ, zero, suc, Bool, false, not, ◌||◌, List, [], ◌∷◌, ◌++◌, Option, none, some, nat_beq,
  if◌then◌else◌, ◌>>=◌,
}
use yav2bx.Keys.{Str, str_beq}
use yav2bx.Panel.{UserInfo, user_tag}
use yav2bx.Text.{bytes, has_prefix}
use yav2bx.Protocol.{VallssNode}
use yav2bx.Protocol.Tls.{
  normalized_encryption, normalized_decryption, has_vless_outbound_encryption,
  has_vless_inbound_decryption,
}
use yav2bx.Selector.{to_lower}

pub data Cipher : Type 0 where
  aes_128_gcm : Cipher
  aes_256_gcm : Cipher
  chacha20_poly1305 : Cipher
  plain : Cipher
  unknown : Cipher

pub data Account : Type 0 where
  vmess : Str → Str → Account
  vless : Str → Str → Str → Account
  trojan : Str → Account
  shadowsocks : Str → Cipher → Account
  shadowsocks_2022 : Str → Account

-- protocol.User; the level is always 0.
pub record User : Type 0 where
  pub email : Str
  pub account : Account

unfoldable pub build_vmess_user : Str → UserInfo → User
build_vmess_user tag u = record {
  email = user_tag tag u.uuid;
  account = vmess u.uuid (bytes "auto");
}

unfoldable pub build_vless_user : Str → Str → Str → UserInfo → User
build_vless_user tag flow encryption u = record {
  email = user_tag tag u.uuid;
  account = vless u.uuid flow encryption;
}

unfoldable pub build_trojan_user : Str → UserInfo → User
build_trojan_user tag u = record { email = user_tag tag u.uuid; account = trojan u.uuid }

-- getCipherFromString
unfoldable pub get_cipher_from_string : Str → Cipher
get_cipher_from_string c =
    let is = λ (s : Str). str_beq (to_lower c) s in
    if is (bytes "aes-128-gcm") || is (bytes "aead_aes_128_gcm")
    then aes_128_gcm
    else if is (bytes "aes-256-gcm") || is (bytes "aead_aes_256_gcm")
    then aes_256_gcm
    else if is (bytes "chacha20-poly1305")
        || is (bytes "aead_chacha20_poly1305")
        || is (bytes "chacha20-ietf-poly1305")
    then chacha20_poly1305
    else if is (bytes "none") || is (bytes "plain")
    then plain
    else unknown

-- The length of a key of the 2022 ciphers, and the prefix of that length, which must be there.
abbrev pub key_length : Str → ℕ
key_length cipher =
    if str_beq cipher (bytes "2022-blake3-aes-128-gcm")
    then 16
    else if str_beq cipher (bytes "2022-blake3-aes-256-gcm")
    then 32
    else if str_beq cipher (bytes "2022-blake3-chacha20-poly1305")
    then 32
    else 0

unfoldable pub prefix_of : ℕ → Str → Option Str
prefix_of zero s = some []
prefix_of (suc n) [] = none
prefix_of (suc n) (c ∷ s) = prefix_of n s >>= λ p. some (c ∷ p)

-- buildSSUser
unfoldable pub build_ss_user : (Str → Str) → Str → Str → Str → UserInfo → Option User
build_ss_user encode tag cipher server_key u =
    if str_beq server_key []
    then some (record {
      email = user_tag tag u.uuid;
      account = shadowsocks u.uuid (get_cipher_from_string cipher);
    })
    else (prefix_of (key_length cipher) u.uuid >>= λ key.
        some (record { email = user_tag tag u.uuid; account = shadowsocks_2022 (encode key) }))

-- buildSSUsers; the others, which do not panic, are `map`.
unfoldable pub build_ss_users : (Str → Str) → Str → Str → Str → List UserInfo → Option (List User)
build_ss_users encode tag cipher server_key [] = some []
build_ss_users encode tag cipher server_key (u ∷ us) =
    build_ss_user encode tag cipher server_key u >>= λ user.
    (build_ss_users encode tag cipher server_key us >>= λ users. some (user ∷ users))

-- The constants of vless_encryption.go.
abbrev pub vless_prefix : Str
vless_prefix = bytes "mlkem768x25519plus."

abbrev pub inbound_mode : Str
inbound_mode = bytes "mlkem768x25519plus.native.600s."

abbrev pub outbound_mode : Str
outbound_mode = bytes "mlkem768x25519plus.native.0rtt."

-- isRawBase64URLKey, for two lengths
abbrev pub is_raw_key : (Str → Option ℕ) → Str → ℕ → ℕ → Bool
is_raw_key decoded_length value a b = elim (decoded_length value) [
  | none ↦ false
  | some n ↦ nat_beq n a || nat_beq n b
]

-- A value with a mode in front if it is a bare key.
abbrev pub with_mode : (Str → Option ℕ) → Str → ℕ → ℕ → Str → Str
with_mode decoded_length mode a b value =
    if has_prefix value vless_prefix
    then value
    else if is_raw_key decoded_length value a b
    then mode ++ value
    else value

-- resolveVlessInboundDecryption and resolveVlessOutboundEncryption
unfoldable pub resolve_vless_inbound_decryption : (Str → Option ℕ) → Option VallssNode → Str
resolve_vless_inbound_decryption decoded_length v =
    if not (has_vless_inbound_decryption v)
    then bytes "none"
    else with_mode decoded_length inbound_mode 32 64 (normalized_decryption v)

unfoldable pub resolve_vless_outbound_encryption : (Str → Option ℕ) → Option VallssNode → Str
resolve_vless_outbound_encryption decoded_length v =
    if not (has_vless_outbound_encryption v)
    then []
    else with_mode decoded_length outbound_mode 32 1184 (normalized_encryption v)
