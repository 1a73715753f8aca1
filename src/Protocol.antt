-- ===== src/Protocol.antt =====
-- The records of api/panel/node.go: what a panel says of a node, for each protocol, and the functions
-- on its ECH settings. Raw JSON is a string.
pub mod Ech
pub mod Tls
use yav2bx.Base.{ℕ, Bool, ◌||◌, List, [], ◌∷◌, Option, none, some, if◌then◌else◌}
use yav2bx.Int.{ℤ}
use yav2bx.Keys.{Str, str_beq}
use yav2bx.Maps.{Map}
use yav2bx.Text.{trim_space}

-- What a field of type `any` holds that is an interval. `float` has the integer that the conversion
-- to time.Duration gives, and `signed` is an integer of another type than int.
pub data Interval : Type 0 where
  absent : Interval
  int : ℤ → Interval
  text : Str → Interval
  float : ℤ → Interval
  signed : ℤ → Interval
  other : Interval

-- BaseConfig, and BasicConfig, which has the same fields.
pub record BaseConfig : Type 0 where
  pub push_interval : Interval
  pub pull_interval : Interval

-- What a route matches; an entry of an array is `none` if it is no string.
pub data Match : Type 0 where
  text : Str → Match
  texts : List Str → Match
  values : List (Option Str) → Match
  other : Match

pub record Route : Type 0 where
  pub id : ℤ
  pub match_on : Match
  pub action : Str
  pub action_value : Str

pub record CommonNode : Type 0 where
  pub host : Str
  pub server_port : ℤ
  pub server_name : Str
  pub routes : List Route
  pub base_config : Option BaseConfig

pub record EchSettings : Type 0 where
  pub enabled : Bool
  pub config : Str
  pub config_list : Str
  pub force_query : Str
  pub query_server_name : Str
  pub private_key : Str
  pub server_keys : Str

pub record TlsSettings : Type 0 where
  pub server_name : Str
  pub dest : Str
  pub server_port : Str
  pub short_id : Str
  pub private_key : Str
  pub xver : ℕ
  pub ech : EchSettings

-- VAllssNode, without RealityConfig, which no JSON field fills.
pub record VallssNode : Type 0 where
  pub common : CommonNode
  pub tls : ℤ
  pub tls_settings : TlsSettings
  pub tls_settings_back : Option TlsSettings
  pub ech : EchSettings
  pub network : Str
  pub network_settings : Str
  pub network_settings_back : Str
  pub server_name : Str
  pub encryption : Str
  pub decryption : Str
  pub flow : Str

pub record ShadowsocksNode : Type 0 where
  pub common : CommonNode
  pub cipher : Str
  pub server_key : Str

pub record TrojanNode : Type 0 where
  pub common : CommonNode
  pub network : Str
  pub network_settings : Str
  pub network_settings_back : Str
  pub tls_settings : TlsSettings
  pub tls_settings_back : Option TlsSettings
  pub ech : EchSettings

pub record TuicNode : Type 0 where
  pub common : CommonNode
  pub congestion_control : Str
  pub zero_rtt_handshake : Bool

-- AnyTLSNode, without RealityConfig.
pub record AnytlsNode : Type 0 where
  pub common : CommonNode
  pub padding_scheme : Str
  pub tls : ℤ
  pub tls_settings : TlsSettings
  pub tls_settings_back : Option TlsSettings

pub record NaiveNode : Type 0 where
  pub common : CommonNode
  pub network : Str
  pub network_settings : Str
  pub network_settings_back : Str
  pub tls : ℤ
  pub tls_settings : TlsSettings
  pub tls_settings_back : Option TlsSettings

pub record HysteriaNode : Type 0 where
  pub common : CommonNode
  pub up_mbps : ℤ
  pub down_mbps : ℤ
  pub obfs : Str

pub record Hysteria2Node : Type 0 where
  pub common : CommonNode
  pub ignore_client_bandwidth : Bool
  pub up_mbps : ℤ
  pub down_mbps : ℤ
  pub obfs_type : Str
  pub obfs_password : Str

-- The one of NodeInfo's pointers to a protocol's record that is set.
pub data Settings : Type 0 where
  vallss : VallssNode → Settings
  shadowsocks : ShadowsocksNode → Settings
  trojan : TrojanNode → Settings
  tuic : TuicNode → Settings
  anytls : AnytlsNode → Settings
  naive : NaiveNode → Settings
  hysteria : HysteriaNode → Settings
  hysteria2 : Hysteria2Node → Settings

-- A name server for the domains, and the whole configuration of the route to `main`.
pub record RawDns : Type 0 where
  pub dns_map : Map Str (Str × List Str)
  pub dns_json : Str
