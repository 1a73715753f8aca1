-- ===== src/Api/Attempts.antt =====
-- api/panel: requests that are tried in order until the panel accepts one. This is the description
-- that the reports of the client are measured against.
use yav2bx.Base.{
  ◌≡◌, refl, Bool, true, false, List, [], ◌∷◌, ◌++◌, if◌then◌else◌, Bool-cases, inl, inr,
}
use yav2bx.Api.{Request, Panel, request}

-- The requests in order, up to the first that the panel accepts; the flag says that it accepts none.
unfoldable pub first_accepted : Panel → List Request → List Request → List Request × Bool
first_accepted panel [] sent = (sent, true)
first_accepted panel (r ∷ rs) sent =
    let tried = request panel r sent in
    let rest = first_accepted panel rs tried.0 in if tried.1 then rest else (tried.0, false)

-- To try some requests and then others is to try them in one list.
pub first_accepted-append :
    (panel : Panel) (rs ts sent : List Request)
    → first_accepted panel (rs ++ ts) sent ≡ (
        let done = first_accepted panel rs sent in
        if done.1 then first_accepted panel ts done.0 else (done.0, false))
unfolding first_accepted
first_accepted-append panel [] ts sent = refl
first_accepted-append panel (r ∷ rs) ts sent = elim (Bool-cases (request panel r sent).1) [
  | inl q ↦ rw q (first_accepted-append panel rs ts (request panel r sent).0)
  | inr q ↦ rw q refl
]
