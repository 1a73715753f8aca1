-- ===== src/Protocol/Tls.antt =====
-- api/panel/node.go: the decoding of TlsSettings, and the methods of VAllssNode.
use yav2bx.Base.{ℕ, suc, Bool, not, ◌||◌, [], Option, none, some, if◌then◌else◌, ◌>>=◌}
use yav2bx.Int.{ℤ}
use yav2bx.Keys.{Str, str_beq}
use yav2bx.Text.{bytes, trim_space, print_int, print_nat}
use yav2bx.Protocol.{EchSettings, TlsSettings, VallssNode}

-- tlsSettingsJSON, whose server_port is raw.
pub record TlsSettingsJson : Type 0 where
  pub server_name : Str
  pub dest : Str
  pub server_port : Str
  pub short_id : Str
  pub private_key : Str
  pub xver : ℕ
  pub ech : EchSettings

-- json.Unmarshal into a string, an int64, a uint64 and a float64, whose shortest decimal is given.
pub record NumberJson : Type 0 where
  pub string : Str → Option Str
  pub int64 : Str → Option ℤ
  pub uint64 : Str → Option ℕ
  pub float64 : Str → Option Str

-- decodeStringOrNumber; `none` is the error.
unfoldable pub decode_string_or_number : NumberJson → Str → Option Str
decode_string_or_number json raw =
    if str_beq raw [] || str_beq raw (bytes "null") then some [] else elim (json.string raw) [
      | some s ↦ some (trim_space s)
      | none ↦ elim (json.int64 raw) [
        | some i ↦ some (print_int i)
        | none ↦ elim (json.uint64 raw) [
          | some u ↦ some (print_nat (suc u) u [])
          | none ↦ json.float64 raw
        ]
      ]
    ]

-- TlsSettings.UnmarshalJSON, behind the decoding into its auxiliary record.
unfoldable pub unmarshal_tls : NumberJson → TlsSettingsJson → Option TlsSettings
unmarshal_tls json a = decode_string_or_number json a.server_port >>= λ port. some (record {
  server_name = a.server_name;
  dest = a.dest;
  server_port = port;
  short_id = a.short_id;
  private_key = a.private_key;
  xver = a.xver;
  ech = a.ech;
})

-- The methods of a VAllssNode, which may be nil.
abbrev pub normalized_encryption : Option VallssNode → Str
normalized_encryption none = []
normalized_encryption (some v) = trim_space v.encryption

abbrev pub normalized_decryption : Option VallssNode → Str
normalized_decryption none = []
normalized_decryption (some v) = trim_space v.decryption

abbrev pub has_vless_outbound_encryption : Option VallssNode → Bool
has_vless_outbound_encryption v = not (str_beq (normalized_encryption v) [])

abbrev pub has_vless_inbound_decryption : Option VallssNode → Bool
has_vless_inbound_decryption v = not (str_beq (normalized_decryption v) [])

abbrev pub has_vless_encryption : Option VallssNode → Bool
has_vless_encryption v = has_vless_outbound_encryption v || has_vless_inbound_decryption v
