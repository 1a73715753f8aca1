-- ===== src/Api/Users.antt =====
-- api/panel/user.go, GetUserList. What json.Unmarshal makes of a body is an argument.
use yav2bx.Base.{Bool, List, Option, none, some, nat_beq, not, if◌then◌else◌}
use yav2bx.Keys.{Str}
use yav2bx.Panel.{UserInfo, Client, Reply}
use yav2bx.Text.{bytes}
use yav2bx.Api.{
  get_unless, Request, Response, answered, failed, Panel, send, check_response, is_ppanel,
}

abbrev pub user_path : Client → Str
user_path c = if is_ppanel c then bytes "/v1/server/user" else bytes "/api/v1/server/UniProxy/user"

-- What follows the request: a missing response, an answer that nothing changed, an error, a body
-- that does not decode, or the new list, which the client keeps with its ETag.
unfoldable pub read_user_list :
    (Str → Option (List UserInfo)) → Client → Response → Bool → Client × Reply (List UserInfo)
read_user_list decode c r is_bad =
    if not r.has_raw
    then (c, Reply.failed)
    else if nat_beq r.status_code 304
    then (c, Reply.unchanged)
    else if is_bad
    then (c, Reply.failed)
    else elim (decode r.body) [
      | none ↦ (c, Reply.failed)
      | some users ↦ (record c { user_list = users; user_etag = r.etag }, Reply.answer users)
    ]

-- GetUserList
unfoldable pub get_user_list :
    (Str → Option (List UserInfo))
    → Panel
    → Client × List Request
    → (Client × List Request) × Reply (List UserInfo)
get_user_list decode panel (c, sent) =
    let done = send panel (record { path = user_path c; body = get_unless c.user_etag }) sent in
    let is_bad = check_response done.1 in
    let read : Client × Reply (List UserInfo) = elim done.1 [
      | failed none ↦ (c, Reply.failed)
      | failed (some r) ↦ read_user_list decode c r is_bad
      | answered r ↦ read_user_list decode c r is_bad
    ] in
    ((read.0, done.0), read.1)
