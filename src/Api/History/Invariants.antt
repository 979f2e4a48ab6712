-- ===== src/Api/History/Invariants.antt =====
-- What holds after every history of requests.
use python_typescript_wiki_b.Base.{◌≡◌, sym, ◌∙◌, subst, false, List, suc}
use python_typescript_wiki_b.Text.{Str}
use python_typescript_wiki_b.Errors.{ok, raised}
use python_typescript_wiki_b.Outside.{Env}
use python_typescript_wiki_b.App.{World}
use python_typescript_wiki_b.Repositories.WellFormed.{IsWellFormed, upsert-IsWellFormed}
use python_typescript_wiki_b.Repositories.WellFormed.Sessions.{
  insert_session-IsWellFormed, update_expiry-IsWellFormed, revoke-IsWellFormed,
}
use python_typescript_wiki_b.Repositories.WellFormed.Spaces.{
  insert_space-IsWellFormed, insert_membership-IsWellFormed,
}
use python_typescript_wiki_b.Services.Sessions.{
  SessionService, expired, get_session, revoke_session,
}
use python_typescript_wiki_b.Services.Sessions.View.{get_session-eq-view}
use python_typescript_wiki_b.Services.Sessions.Lifecycle.{IsRevoked, revoke_session_lem}
use python_typescript_wiki_b.Services.Sessions.Revoked.{IsStable-IsRevoked, view-IsRevoked}
use python_typescript_wiki_b.Services.Keeps.{IsStable}
use python_typescript_wiki_b.Api.Http.{Request}
use python_typescript_wiki_b.Api.History.{Call, run}
use python_typescript_wiki_b.Api.History.Keeps.{run-Keeps}

pub IsStable-IsWellFormed : IsStable IsWellFormed
IsStable-IsWellFormed = record {
  upserts = upsert-IsWellFormed;
  inserts = insert_session-IsWellFormed;
  renews = update_expiry-IsWellFormed;
  revokes = revoke-IsWellFormed;
  spaces = insert_space-IsWellFormed;
  members = insert_membership-IsWellFormed;
}

module _ (env : Env) (service : SessionService) where
  -- Tables that satisfy their constraints (distinct keys, telegram ids and token hashes; sessions and
  -- memberships of users and spaces that exist; user ids below the sequence) satisfy them after
  -- every history of requests, whichever of its requests fail and whichever database calls raise.
  pub run-IsWellFormed :
      (history : List (Request × Call)) (w : World)
      → IsWellFormed w.db
      → IsWellFormed (run env service history w).db
  run-IsWellFormed = run-Keeps IsStable-IsWellFormed env service

  -- After a logout that returned, `get_session` raises SESSION_EXPIRED for the token on the tables
  -- that any later history of requests leaves, while the database answers its two statements,
  -- whatever the clock reads.
  pub revoke_session-run :
      (token : Str) (w w' : World) {u : Unit {0}}
      → revoke_session env service token w ≡ (ok u, w')
      → (history : List (Request × Call)) (later : World)
      → later.db ≡ (run env service history w').db
      → env.fault later.tick ≡ false
      → env.fault (suc (suc later.tick)) ≡ false
      → (get_session env service token later).0 ≡ raised expired
  revoke_session-run token w w' gone history later same_db f g =
      let (hash, hashed, revoked, _, _) = revoke_session_lem env service token w w' gone in
      get_session-eq-view env service token later f g
      ∙ view-IsRevoked hash env token _ later.db hashed (
          subst (IsRevoked hash) (sym same_db)
            (run-Keeps (IsStable-IsRevoked hash) env service history w' revoked))
