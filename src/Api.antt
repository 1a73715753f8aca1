-- ===== src/Api.antt =====
-- api/panel: the client of the panel. A panel is a function that answers a request, behind all the
-- requests before it; the state of a call is the list of these, the newest first.
pub mod Attempts
pub mod Alive
pub mod Users
pub mod Cache
pub mod Report
pub mod Nodes
use yav2bx.Base.{
  ℕ, ◌*◌, Bool, true, false, not, ◌||◌, List, [], ◌∷◌, ◌++◌, Option, none, some, leb, if◌then◌else◌,
}
use yav2bx.Int.{ℤ, pos, lt_ℤ, wrap64, scale}
use yav2bx.Keys.{Str, str_beq}
use yav2bx.Maps.{Map}
use yav2bx.Panel.{ApiConfig, HttpClient, Client, UserTraffic}
use yav2bx.Text.{bytes, print_int, has_prefix, trim_right}
use yav2bx.Selector.{to_lower}

-- The bits of a float64, which the client passes on.
abbrev pub Float : Type 0
Float = ℕ

pub record NodeStatus : Type 0 where
  pub cpu : Float
  pub mem : Float
  pub disk : Float
  pub uptime : ℕ
  pub mem_total : ℕ
  pub mem_used : ℕ
  pub swap_total : ℕ
  pub swap_used : ℕ
  pub disk_total : ℕ
  pub disk_used : ℕ

-- ServerPushStatusRequest
pub record PushStatus : Type 0 where
  pub cpu : Float
  pub mem : Float
  pub disk : Float
  pub updated_at : ℕ

-- The body of a request: nothing for Get, whose header If-None-Match is with it if the code sets
-- one, and for Post what SetBody is given. ServerPushUserTrafficRequest is `traffic_list`.
pub data Payload : Type 0 where
  get : Payload
  get_unless : Str → Payload
  traffic_list : List UserTraffic → Payload
  traffic_map : Map Str (ℤ × ℤ) → Payload
  ips : Map Str (List Str) → Payload
  alive_ips : Map Str (List Str) → Payload
  report : Map Str (List Str) → Map Str ℕ → Payload
  push_status : PushStatus → Payload
  status : NodeStatus → Payload

pub record Request : Type 0 where
  pub path : Str
  pub body : Payload

-- A resty.Response: what its methods StatusCode, Body and Header().Get("ETag") give, and whether its
-- RawResponse is there.
pub record Response : Type 0 where
  pub has_raw : Bool
  pub status_code : ℕ
  pub body : Str
  pub etag : Str

-- What resty gives for a request: a response without an error, or an error and perhaps a response.
pub data Answer : Type 0 where
  answered : Response → Answer
  failed : Option Response → Answer

abbrev pub Panel : Type 0
Panel = List Request → Request → Answer

-- One request: the requests that are now sent, and the answer.
unfoldable pub send : Panel → Request → List Request → List Request × Answer
send panel r sent = (r ∷ sent, panel sent r)

-- checkResponse; the flag is the error.
unfoldable pub check_response : Answer → Bool
check_response (answered r) = leb 400 r.status_code
check_response (failed r) = true

-- A request with its check.
unfoldable pub request : Panel → Request → List Request → List Request × Bool
request panel r sent = ((send panel r sent).0, check_response (send panel r sent).1)

-- assembleURL
unfoldable pub assemble_url : Client → Str → Str
assemble_url c path =
    trim_right (λ b. str_beq (b ∷ []) (bytes "/")) c.api_host
    ++ (if has_prefix path (bytes "/") then path else b'/' ∷ path)

abbrev pub ppanel : Str
ppanel = bytes "ppanel"

abbrev pub is_ppanel : Client → Bool
is_ppanel c = str_beq c.panel_type ppanel

-- The node types that New takes.
abbrev pub node_types : List Str
node_types =
    bytes "vmess"
    ∷ bytes "trojan"
    ∷ bytes "shadowsocks"
    ∷ bytes "hysteria"
    ∷ bytes "hysteria2"
    ∷ bytes "tuic"
    ∷ bytes "anytls"
    ∷ bytes "naive"
    ∷ bytes "vless"
    ∷ []

unfoldable pub is_one_of : Str → List Str → Bool
is_one_of s [] = false
is_one_of s (t ∷ ts) = str_beq s t || is_one_of s ts

-- The switch on the node type; `none` is the error.
unfoldable pub read_node_type : Str → Option Str
read_node_type t =
    let lower = to_lower t in
    if str_beq lower (bytes "v2ray")
    then some (bytes "vmess")
    else if is_one_of lower node_types
    then some lower
    else none

-- The parameters that each request carries.
unfoldable pub query_params : ApiConfig → Str → Map Str Str
query_params c type =
    if str_beq c.panel_type ppanel
    then (bytes "protocol", type)
      ∷ (bytes "server_id", print_int c.node_id)
      ∷ (bytes "secret_key", c.key)
      ∷ []
    else (bytes "node_type", type)
      ∷ (bytes "node_id", print_int c.node_id)
      ∷ (bytes "token", c.key)
      ∷ []

-- panel.New. The node type is written back to the configuration too, which the caller reads in a message only.
unfoldable pub new : ApiConfig → Option Client
new c = elim (read_node_type c.node_type) [
  | none ↦ none
  | some type ↦ some (record {
    client = record {
      retry_count = 3;
      timeout =
          if lt_ℤ (pos 0) c.timeout
          then wrap64 (scale c.timeout 1_000_000_000)
          else pos (5 * 1_000_000_000);
      base_url = c.api_host;
      query_params = query_params c type;
    };
    panel_type = c.panel_type;
    api_host = c.api_host;
    token = c.key;
    node_type = type;
    node_id = c.node_id;
    node_etag = [];
    user_etag = [];
    response_body_hash = [];
    user_list = [];
    alive_map = [];
  })
]
