-- ===== src/Api/Cache.antt =====
-- api/panel/user.go: the client's list of users and its ETag belong together.
use yav2bx.Base.{
  ◌≡◌, ◌≢◌, refl, sym, ◌∙◌, true, false, List, [], Option, some, if◌then◌else◌, Bool-cases, inl,
  inr,
}
use yav2bx.Keys.{Str, str_beq, str_beq_iff}
use yav2bx.Panel.{UserInfo, Client, Reply}
use yav2bx.Api.{get_unless, Request, Response, Answer, answered, Panel, send, check_response}
use yav2bx.Api.Users.{user_path, read_user_list, get_user_list}

accepted :
    (a : Answer) (r : Response) → a ≡ answered r → r.status_code ≡ 200 → check_response a ≡ false
unfolding check_response
accepted a r q s = rw (q, s) refl

-- A panel that keeps ETags: the answer to a list of users that the client has, under the ETag of the
-- list, is 304, and else it is the list with its ETag. `etag` names lists.
module _ (decode : Str → Option (List UserInfo)) (etag : List UserInfo → Str) where
  abbrev pub GivesKnown : Answer → Type 0
  GivesKnown a = (r : Response) × (a ≡ answered r) × (r.has_raw ≡ true) × (r.status_code ≡ 304)

  abbrev pub GivesNew : List UserInfo → Answer → Type 0
  GivesNew users a =
      (r : Response) × (a ≡ answered r)
      × (r.has_raw ≡ true)
      × (r.status_code ≡ 200)
      × (decode r.body ≡ some users)
      × (r.etag ≡ etag users)

  abbrev pub Serves : Panel → List UserInfo → Type 0
  Serves panel users =
      (sent : List Request) (path known : Str)
      → let a = panel sent (record { path = path; body = get_unless known }) in
        (str_beq known (etag users) ≡ true → GivesKnown a)
        × (str_beq known (etag users) ≡ false → GivesNew users a)

  -- The client has no list, or the list that its ETag names.
  abbrev pub Coherent : Client → Type 0
  Coherent c = c.user_etag ≢ [] → c.user_etag ≡ etag c.user_list

  -- The client has the list, and the call says so.
  abbrev pub Fetched :
      List UserInfo → Client → (Client × List Request) × Reply (List UserInfo) → Type 0
  Fetched users c done =
      (done.0.0.user_list ≡ users)
      × (done.0.0.user_etag ≡ etag users)
      × (done.1
          ≡ (if str_beq c.user_etag (etag users) then Reply.unchanged else Reply.answer users))

  -- (the panel serves a list of users, the client's list and ETag belong together, and the list's
  -- ETag is not empty and tells it from the client's list) GetUserList gives no error, the client
  -- then has the panel's list, with the ETag that belongs to it, and the call says that nothing
  -- changed exactly when the client's ETag was the list's.
  pub get_user_list-Coherent :
      (panel : Panel) (users : List UserInfo) (c : Client) (sent : List Request)
      → (etag c.user_list ≡ etag users → c.user_list ≡ users)
      → etag users ≢ []
      → Serves panel users
      → Coherent c
      → Fetched users c (get_user_list decode panel (c, sent))
  unfolding get_user_list read_user_list send check_response
  get_user_list-Coherent panel users c sent apart named serves coherent =
      elim (Bool-cases (str_beq c.user_etag (etag users))) [
        | inl q ↦ known q ((serves sent (user_path c) c.user_etag).0 q)
        | inr q ↦ new q ((serves sent (user_path c) c.user_etag).1 q)
      ]
    where
      asked : Answer
      asked = panel sent (record { path = user_path c; body = get_unless c.user_etag })

      known :
          str_beq c.user_etag (etag users) ≡ true
          → GivesKnown asked
          → Fetched users c (get_user_list decode panel (c, sent))
      known q (r, a, raw, s) =
          let same = (str_beq_iff c.user_etag (etag users)).0 q in
          rw (a, raw, s, q)
            (apart (sym (coherent (λ empty. named (sym same ∙ empty))) ∙ same), same, refl)

      new :
          str_beq c.user_etag (etag users) ≡ false
          → GivesNew users asked
          → Fetched users c (get_user_list decode panel (c, sent))
      new q (r, a, raw, s, d, e) =
          rw (a, raw, s, d, e, q) (rw (accepted _ r a s) (refl, refl, refl))
