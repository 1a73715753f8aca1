-- ===== src/Panel.antt =====
-- The records that the node exchanges with its panel (api/panel/user.go, api/panel/node.go), the
-- limits of a node's configuration (conf/limit.go), and the names that the parts share
-- (common/format/user.go, common/netutil/ip.go).
use yav2bx.Maps.{Map}
use yav2bx.Base.{ℕ, Bool, List, [], ◌∷◌, ◌++◌, Option, none, some, nat_beq, if◌then◌else◌}
use yav2bx.Int.{ℤ}
use yav2bx.Keys.{Str}

pub record UserInfo : Type 0 where
  pub id : ℤ
  pub uuid : Str
  pub speed_limit : ℤ
  pub device_limit : ℤ

pub record OnlineUser : Type 0 where
  pub uid : ℤ
  pub ip : Str

pub record UserTraffic : Type 0 where
  pub uid : ℤ
  pub upload : ℤ
  pub download : ℤ
  pub key : Str

pub record Rules : Type 0 where
  pub regexp : List Str
  pub protocol : List Str

pub record IpReportConfig : Type 0 where
  pub periodic : ℤ
  pub enable_ip_sync : Bool

pub record DynamicSpeedLimitConfig : Type 0 where
  pub periodic : ℤ
  pub traffic : ℤ
  pub speed_limit : ℤ
  pub expire_time : ℤ

pub record LimitConfig : Type 0 where
  pub enable_realtime : Bool
  pub speed_limit : ℤ
  pub ip_limit : ℤ
  pub conn_limit : ℤ
  pub enable_ip_recorder : Bool
  pub ip_recorder_config : Option IpReportConfig
  pub enable_dynamic_speed_limit : Bool
  pub dynamic_speed_limit_config : Option DynamicSpeedLimitConfig

-- conf.ApiConfig, with the fields that panel.New reads; the timeout is in seconds.
pub record ApiConfig : Type 0 where
  pub api_host : Str
  pub node_id : ℤ
  pub key : Str
  pub node_type : Str
  pub timeout : ℤ
  pub panel_type : Str

-- What panel.New sets up of the HTTP client; the timeout is in nanoseconds.
pub record HttpClient : Type 0 where
  pub retry_count : ℕ
  pub timeout : ℤ
  pub base_url : Str
  pub query_params : Map Str Str

-- panel.Client. An alive map that is nil is an empty one, as both are read alike.
pub record Client : Type 0 where
  pub client : HttpClient
  pub panel_type : Str
  pub api_host : Str
  pub token : Str
  pub node_type : Str
  pub node_id : ℤ
  pub node_etag : Str
  pub user_etag : Str
  pub response_body_hash : Str
  pub user_list : List UserInfo
  pub alive_map : Map ℤ ℤ

-- What a call to the panel gives: an error, no error and nil, or a value.
pub data Reply {ℓ} (A : Type ℓ) : Type ℓ where
  failed : Reply A
  unchanged : Reply A
  answer : A → Reply A

-- format.UserTag: `%s|%s`
unfoldable pub user_tag : Str → Str → Str
user_tag tag uuid = tag ++ (b'|' ∷ uuid)

-- strings.CutPrefix: what follows the prefix, if it is there
unfoldable pub cut_prefix : Str → Str → Option Str
cut_prefix s [] = some s
cut_prefix [] (p ∷ ps) = none
cut_prefix (c ∷ s) (p ∷ ps) = if nat_beq c p then cut_prefix s ps else none

-- strings.TrimPrefix
abbrev pub trim_prefix : Str → Str → Str
trim_prefix s p = elim (cut_prefix s p) [ none ↦ s | some rest ↦ rest ]

-- "::ffff:"
abbrev pub mapped_prefix : Str
mapped_prefix = b':' ∷ b':' ∷ b'f' ∷ b'f' ∷ b'f' ∷ b'f' ∷ b':' ∷ []

-- netutil.NormalizeIP
unfoldable pub normalize_ip : Str → Str
unfolding cut_prefix
normalize_ip ip = trim_prefix ip mapped_prefix
