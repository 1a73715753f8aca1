-- ===== src/Protocol/Ech.antt =====
-- api/panel/node.go: the decoding of ECHSettings, and mergeECHSettings.
use yav2bx.Base.{Bool, ◌||◌, List, [], ◌∷◌}
use yav2bx.Keys.{Str}
use yav2bx.Protocol.{EchSettings}
use yav2bx.Text.{trim_space}

-- echSettingsJSON: each field under the names that panels give it.
pub record EchSettingsJson : Type 0 where
  pub enabled : Bool
  pub config : Str
  pub config_list : Str
  pub config_list_camel : Str
  pub ech_config_list : Str
  pub ech_config_list_camel : Str
  pub force_query : Str
  pub force_query_camel : Str
  pub ech_force_query : Str
  pub ech_force_query_camel : Str
  pub query_server_name : Str
  pub query_server_camel : Str
  pub ech_query_server : Str
  pub ech_query_camel : Str
  pub private_key : Str
  pub private_key_camel : Str
  pub ech_private_key : Str
  pub ech_private_key_camel : Str
  pub server_keys : Str
  pub server_keys_camel : Str
  pub ech_server_keys : Str
  pub ech_server_keys_camel : Str

-- firstTrimmedString
unfoldable pub first_trimmed_string : List Str → Str
first_trimmed_string [] = []
first_trimmed_string (s ∷ ss) = elim (trim_space s) [ [] ↦ first_trimmed_string ss | c ∷ t ↦ c ∷ t ]

-- ECHSettings.UnmarshalJSON, behind the decoding into its auxiliary record.
unfoldable pub unmarshal_ech : EchSettingsJson → EchSettings
unmarshal_ech a = record {
  enabled = a.enabled;
  config = trim_space a.config;
  config_list =
      first_trimmed_string
        (a.config_list ∷ a.config_list_camel ∷ a.ech_config_list ∷ a.ech_config_list_camel ∷ []);
  force_query =
      first_trimmed_string
        (a.force_query ∷ a.force_query_camel ∷ a.ech_force_query ∷ a.ech_force_query_camel ∷ []);
  query_server_name =
      first_trimmed_string
        (a.query_server_name ∷ a.query_server_camel ∷ a.ech_query_server ∷ a.ech_query_camel ∷ []);
  private_key =
      first_trimmed_string
        (a.private_key ∷ a.private_key_camel ∷ a.ech_private_key ∷ a.ech_private_key_camel ∷ []);
  server_keys =
      first_trimmed_string
        (a.server_keys ∷ a.server_keys_camel ∷ a.ech_server_keys ∷ a.ech_server_keys_camel ∷ []);
}

abbrev pub or_else : Str → Str → Str
or_else [] t = t
or_else (c ∷ s) t = c ∷ s

-- mergeECHSettings
unfoldable pub merge_ech_settings : EchSettings → EchSettings → EchSettings
merge_ech_settings primary fallback = record {
  enabled = primary.enabled || fallback.enabled;
  config = or_else primary.config fallback.config;
  config_list = or_else primary.config_list fallback.config_list;
  force_query = or_else primary.force_query fallback.force_query;
  query_server_name = or_else primary.query_server_name fallback.query_server_name;
  private_key = or_else primary.private_key fallback.private_key;
  server_keys = or_else primary.server_keys fallback.server_keys;
}
