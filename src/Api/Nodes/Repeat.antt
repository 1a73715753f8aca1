-- ===== src/Api/Nodes/Repeat.antt =====
-- api/panel/node.go, GetNodeInfo: the client keeps the hash of every body, also of one with an error.
use yav2bx.Base.{◌≡◌, refl, ap, sym, ◌∷◌, true, false, List, some, leb, arith, Ensures}
use yav2bx.Keys.{Str, str_beq, str_beq_iff}
use yav2bx.Panel.{Client, Reply}
use yav2bx.Api.{get_unless, Request, Response, answered, Panel, send, check_response}
use yav2bx.Api.Nodes.Select.{NodeJson}
use yav2bx.Api.Nodes.{config_path, read_node_info, get_node_info, read_answer}

-- The request of a client, with an ETag.
abbrev pub config_request : Client → Str → Request
config_request c etag = record { path = config_path c; body = get_unless etag }

first_read :
    (json : NodeJson) (digest : Str → Str) (c : Client) (r : Response)
    → leb 400 r.status_code ≡ true
    → str_beq c.response_body_hash (digest r.body) ≡ false
    → read_node_info json digest c r true
      ≡ some (record c { response_body_hash = digest r.body; node_etag = r.etag }, Reply.failed)
unfolding read_node_info
first_read json digest c r bad new = ground (arith, bad, new)

second_read :
    (json : NodeJson) (digest : Str → Str) (c : Client) (r : Response)
    → c.response_body_hash ≡ digest r.body
    → read_answer json digest c (answered r) ≡ some (c, Reply.unchanged)
unfolding read_node_info
second_read json digest c r same = ground (arith, str_beq_iff c.response_body_hash (digest r.body))

-- (the panel answers with a status of 400 or more, the client does not have the body's hash yet, and
-- the panel answers the next request with the same body) The first GetNodeInfo gives an error, and
-- the second one says that nothing changed, whatever its status is.
pub get_node_info_repeat :
    (json : NodeJson) (digest : Str → Str) (panel : Panel) (c : Client) (sent : List Request)
    (r again : Response)
    → panel sent (config_request c c.node_etag) ≡ answered r
    → leb 400 r.status_code ≡ true
    → str_beq c.response_body_hash (digest r.body) ≡ false
    → panel (config_request c c.node_etag ∷ sent) (config_request c r.etag) ≡ answered again
    → again.body ≡ r.body
    → Ensures
        (λ first.
          (first.1 ≡ Reply.failed)
          × Ensures
              (λ second. second.1 ≡ Reply.unchanged)
              (get_node_info json digest panel first.0))
        (get_node_info json digest panel (c, sent))
unfolding get_node_info send check_response
get_node_info_repeat json digest panel c sent r again a bad new next body = rw a (
    rw (bad, first_read json digest c r bad new)
      (
        refl,
        rw next (
            rw
              (second_read json digest
                (record c { response_body_hash = digest r.body; node_etag = r.etag }) again
                (ap digest (sym body)))
              refl),
      ))
