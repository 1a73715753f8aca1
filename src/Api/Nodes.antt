-- ===== src/Api/Nodes.antt =====
-- api/panel/node.go: GetNodeInfo. What json.Unmarshal makes of a body is an argument, and so is the
-- hexadecimal SHA-256; `none` is a panic.
pub mod Select
pub mod Parse
pub mod Routes
pub mod Repeat
use yav2bx.Base.{
  Bool, true, false, ◌||◌, List, [], ◌∷◌, Option, none, some, nat_beq, not, if◌then◌else◌, ◌>>=◌,
}
use yav2bx.Keys.{Str, str_beq}
use yav2bx.Panel.{Client, Reply}
use yav2bx.Text.{bytes}
use yav2bx.Node.{NodeInfo}
use yav2bx.Api.{
  get_unless, Request, Response, Answer, answered, failed, Panel, send, check_response, is_ppanel,
}
use yav2bx.Api.Nodes.Select.{NodeJson}
use yav2bx.Api.Nodes.Parse.{parse_default, parse_ppanel}

abbrev pub config_path : Client → Str
config_path c =
    if is_ppanel c then bytes "/v1/server/config" else bytes "/api/v1/server/UniProxy/config"

-- What follows the request: an answer that nothing changed, or the body of the last answer again;
-- else the hash and the ETag are kept, and the body is parsed unless there is an error.
unfoldable pub read_node_info :
    NodeJson → (Str → Str) → Client → Response → Bool → Option (Client × Reply NodeInfo)
read_node_info json digest c r is_bad =
    let hash = digest r.body in
    let kept = record c { response_body_hash = hash; node_etag = r.etag } in
    if nat_beq r.status_code 304 || str_beq c.response_body_hash hash
    then some (c, Reply.unchanged)
    else if is_bad
    then some (kept, Reply.failed)
    else ((if is_ppanel c then parse_ppanel json c r.body else parse_default json c r.body)
        >>= λ reply. some (kept, reply))

-- What follows the request, a missing response included, whose status is read.
abbrev pub read_answer : NodeJson → (Str → Str) → Client → Answer → Option (Client × Reply NodeInfo)
read_answer json digest c (failed none) = none
read_answer json digest c (failed (some r)) =
    read_node_info json digest c r (check_response (failed (some r)))
read_answer json digest c (answered r) =
    read_node_info json digest c r (check_response (answered r))

-- GetNodeInfo
unfoldable pub get_node_info :
    NodeJson
    → (Str → Str)
    → Panel
    → Client × List Request
    → Option ((Client × List Request) × Reply NodeInfo)
get_node_info json digest panel (c, sent) =
    let done = send panel (record { path = config_path c; body = get_unless c.node_etag }) sent in
    read_answer json digest c done.1 >>= λ x. some ((x.0, done.0), x.1)
