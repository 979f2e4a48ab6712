-- ===== src/Services/Auth/Verified.antt =====
-- What `AuthService.verify_token` of app/services/auth_service.py makes of a token that it accepts.
use python_typescript_wiki_b.Base.{suc, ◌≡◌, sym, ap, ◌∙◌, subst, Bool}
use python_typescript_wiki_b.Text.{Str}
use python_typescript_wiki_b.Errors.{ok}
use python_typescript_wiki_b.Outside.{Env}
use python_typescript_wiki_b.App.{World, after, observe, internal}
use python_typescript_wiki_b.App.Laws.{>>=-eq-ok, observe-eq-ok, or_raise-eq-ok, run_sql-eq-ok}
use python_typescript_wiki_b.Token
use python_typescript_wiki_b.Token.{TokenPayload, TokenService}
use python_typescript_wiki_b.Token.Laws.{verify_token_sound}
use python_typescript_wiki_b.Repositories.Users.{
  UserProfile, UserFields, upsert_user, upsert_statement,
}
use python_typescript_wiki_b.Repositories.Users.Upsert.{IsUpsert, upsert_statement-IsUpsert}
use python_typescript_wiki_b.Repositories.WellFormed.{IsWellFormed}
use python_typescript_wiki_b.Services.Auth.{verify_token, fields_of}

-- What a login is to store: the payload's own fields, each under its name.
abbrev pub carried : TokenPayload → UserFields
carried payload = record {
  telegram_id = payload.telegram_id;
  username = payload.username;
  first_name = payload.first_name;
  last_name = payload.last_name;
  photo_url = payload.photo_url;
  permission = payload.permission;
}

module _ (env : Env) where
  upsert_user_lem :
      (f : UserFields) (w w' : World) {p : UserProfile} {created : Bool}
      → IsWellFormed w.db
      → upsert_user env f w ≡ (ok (p, created), w')
      → IsUpsert f (env.clock w.tick) w.db w'.db p created
  unfolding upsert_user
  upsert_user_lem f w w' {p} {created} v h =
      let (now, w1, reading, ran) = >>=-eq-ok (observe env.clock) _ w h in
      let (at_clock, moved) = observe-eq-ok env.clock w reading in
      let (done, _, _) = run_sql-eq-ok env (upsert_statement f now) w1 ran in
      let same_db : w1.db ≡ w.db = ap (λ x. x.db) moved in
      subst (λ n. IsUpsert f n w.db w'.db p created) (sym at_clock)
        (subst (λ db. IsUpsert f now db w'.db p created) same_db
          (upsert_statement-IsUpsert f now w1.db (subst IsWellFormed (sym same_db) v)
            (env.db_clock w1.tick) done))

  -- On well-formed tables, when `AuthService.verify_token` returns, `TokenService.verify_token` had
  -- accepted the token, and the payload's fields were upserted: the profile is that of the row in
  -- the table, and the flag says whether the telegram id was new.
  pub auth_lem :
      (service : TokenService) (token : Str) (w w' : World) {p : UserProfile} {created : Bool}
      → IsWellFormed w.db
      → verify_token env service token w ≡ (ok (p, created), w')
      → (payload : TokenPayload) × (Token.verify_token env service token w ≡ (ok payload, after w))
        × IsUpsert (carried payload) (env.clock (suc w.tick)) w.db w'.db p created
  unfolding verify_token fields_of
  auth_lem service token w w' {p} {created} v h =
      let (payload, w1, verified, upserting) =
        >>=-eq-ok (Token.verify_token env service token) _ w h in
      let (_, _, _, _, moved) = verify_token_sound env service token w w1 verified in
      (
        payload,
        verified ∙ ap (λ x. (ok payload, x)) moved,
        subst (λ x. IsUpsert (carried payload) (env.clock x.tick) x.db w'.db p created) moved
            (upsert_user_lem (carried payload) w1 w' (subst (λ x. IsWellFormed x.db) (sym moved) v)
              (or_raise-eq-ok internal _ w1 upserting)),
      )
