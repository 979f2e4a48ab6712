-- ===== src/Api/Spaces/Posted.antt =====
-- app/api/v1/routes/spaces.py: which requests make a space, and which space.
use mathlib.Core.Path.{subst₂}
use python_typescript_wiki_b.Base.{
  ℕ, suc, ◌<◌, ◌≤◌, ◌≡◌, ap, subst, ◌∙◌, Bool-cases, inl, inr, false, none, some, [], ◌∷◌, ◌++◌,
  arith, ◌==◌, any, length,
}
use python_typescript_wiki_b.Text.{Str, hex, codes, strip, is_empty}
use python_typescript_wiki_b.Errors.{ok}
use python_typescript_wiki_b.Db.{Db}
use python_typescript_wiki_b.Outside.{Env}
use python_typescript_wiki_b.App.{World, lift, pure, raise}
use python_typescript_wiki_b.App.Laws.{>>=-eq-ok, lift-eq-ok, pure-eq-ok}
use python_typescript_wiki_b.Repositories.Sessions.Rows.{row_of}
use python_typescript_wiki_b.Repositories.Spaces.Atomic.{with_space, Outcome, create_space_lem}
use python_typescript_wiki_b.Services.Sessions
use python_typescript_wiki_b.Services.Sessions.{SessionService}
use python_typescript_wiki_b.Services.Sessions.Held.{
  IsSessionAt, get_session-IsSessionAt, db-get_session,
}
use python_typescript_wiki_b.Services.Spaces
use python_typescript_wiki_b.Api.Http.{Request, Body, given, body_field}
use python_typescript_wiki_b.Api.Http.Checked.{body_field_sound}
use python_typescript_wiki_b.Api.Bearer.{extract_bearer_token}
use python_typescript_wiki_b.Api.Spaces.{SpaceCreateResponse, named, create_space}

named_sound :
    (name : Str) (w w' : World) {u : Unit {0}}
    → named name w ≡ (ok u, w')
    → (is_empty (strip name) ≡ false) × (w' ≡ w)
unfolding named raise pure
named_sound name w w' h = elim (Bool-cases (is_empty (strip name))) [
  | inl e ↦ absurd (ground (arith, e, h))
  | inr e ↦ (e, ground (arith, e, h))
]

-- A space that a request has made: its name came in the body, the request held a session, and the
-- tables gain the space and the membership of the session's user as its owner.
pub record IsPosted (env : Env) (request : Request) (body : Body) (w : World) (db : Db) (id : ℕ)
    : Type 0 where
  pub name : Str
  pub in_body : body ≡ given name
  pub not_empty : 1 ≤ length name
  pub not_long : length name ≤ 255
  pub not_blank : is_empty (strip name) ≡ false
  pub token : Str
  pub bearer : extract_bearer_token request.authorization ≡ ok token
  pub session : IsSessionAt env token (env.clock (suc (suc w.tick))) w.db
  pub is_new : any (λ s. s.id == id) w.db.spaces ≡ false
  pub gained : db ≡ record w.db {
    spaces =
        w.db.spaces
        ++ record { id = id; name = name; deleted_at = none; delete_scheduled_at = none } ∷ [];
    memberships =
        w.db.memberships
        ++ record { user_id = session.row.user_id; space_id = id; role = codes "owner" } ∷ [];
  }

-- `POST /spaces` that returns has found a name of 1 to 255 characters in the body, not of spaces
-- alone, and a bearer token whose digest has a row in the tables, not revoked and with an end later
-- than the clock's reading in this request. The id that it answers with is that of no space before;
-- the tables gain a space with this id and the name as it came, and a membership of the session's
-- user as its owner, and nothing else.
pub create_space-IsPosted :
    (env : Env) (service : SessionService) (request : Request) (body : Body) (w w' : World)
    {response : SpaceCreateResponse}
    → create_space env service request body w ≡ (ok response, w')
    → IsPosted env request body w w'.db response.id
unfolding create_space Spaces.create_space
create_space-IsPosted env service request body w w' {response} h =
    let (name, w1, accepted, h1) = >>=-eq-ok (body_field env 1 (some 255) body) _ w h in
    let (token, w2, extracted, h2) =
      >>=-eq-ok (lift (extract_bearer_token request.authorization)) _ w1 h1 in
    let (d, w3, active, h3) = >>=-eq-ok (Sessions.get_session env service token) _ w2 h2 in
    let (_, w4, checked, h4) = >>=-eq-ok (named name) _ w3 h3 in
    let (id, w5, stored, h5) = >>=-eq-ok (Spaces.create_space env name d.user.id) _ w4 h4 in
    let (in_body, low, high, db1, tick1) = body_field_sound env 1 255 body w w1 accepted in
    let (bearer, stay2) = lift-eq-ok _ w1 extracted in
    let (session, of_user) = get_session-IsSessionAt env service token w2 w3 active in
    let (visible, stay4) = named_sound name w3 w4 checked in
    let (made, stay6) = pure-eq-ok _ w5 h5 in
    let db2 : w2.db ≡ w.db = ap (λ x. x.db) stay2 ∙ db1 in
    let db4 : w4.db ≡ w.db =
      ap (λ x. x.db) stay4 ∙ db-get_session env service token w2 w3 active ∙ db2 in
    let same_id : id ≡ response.id = ap (λ r. r.id) made in
    let tick2 : w2.tick ≡ suc w.tick = ap (λ x. x.tick) stay2 ∙ tick1 in
    let (gained, unused, _) =
      subst (λ x. Outcome name d.user.id w4.db x.0 x.1.db) stored
        (create_space_lem env name d.user.id w4) in
    record {
      name = name;
      in_body = in_body;
      not_empty = low;
      not_long = high;
      not_blank = visible;
      token = token;
      bearer = bearer;
      session = record {
        bytes = session.bytes;
        encoded = session.encoded;
        row = session.row;
        found =
            subst (λ x. row_of (hex (env.crypto.sha256 session.bytes)) x ≡ some session.row) db2
              session.found;
        unrevoked = session.unrevoked;
        alive = subst (λ n. env.clock (suc n) < session.row.expires_at) tick2 session.alive;
      };
      is_new = subst₂ (λ i x. any (λ s. s.id == i) x.spaces ≡ false) same_id db4 unused;
      gained =
          ap (λ x. x.db) stay6
          ∙ gained
          ∙ ap (with_space name d.user.id id) db4
          ∙ ap (λ u. with_space name u id w.db) of_user
          ∙ ap (λ i. with_space name session.row.user_id i w.db) same_id;
    }
