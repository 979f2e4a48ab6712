-- ===== src/Interleave/Logout.antt =====
-- DELETE /api/v1/session among other tasks: a logout that was answered is final.
pub mod Final
use mathlib.Core.Option
use python_typescript_wiki_b.Base.{
  ℕ, ◌≡◌, refl, sym, ap, ◌∙◌, Bool-cases, Option, Option-cases, inl, inr, none, some, List, [], ◌∷◌,
  map, arith, if◌then◌else◌, find?, same,
}
use python_typescript_wiki_b.Base.Search.{find?-append_some, find?-map}
use python_typescript_wiki_b.Text.{Str}
use python_typescript_wiki_b.Errors.{
  Result, ok, raised, app_error, http_exception, request_validation_error, rate_limit_error,
  code_of_status, validation_error, rate_limit_exceeded, internal_error, ErrorCode,
}
use python_typescript_wiki_b.Db.{Session, Db}
use python_typescript_wiki_b.Outside.{Env}
use python_typescript_wiki_b.App.{World, internal}
use python_typescript_wiki_b.Repositories.Sessions.{
  SessionRecord, row_to_session, has_hash, new_session, admits_session, insert_session,
  update_where, set_expiry, set_revoked, update_expiry_statement, revoke_statement,
  get_by_token_hash, revoke,
}
use python_typescript_wiki_b.Repositories.Sessions.Rows.{
  row_of, row_of-update_where, get_by_token_hash-eq-ok, revoke-eq-ok,
}
use python_typescript_wiki_b.Services.Sessions.{SessionService, hash_token}
use python_typescript_wiki_b.Services.Sessions.Lifecycle.{IsRevoked}
use python_typescript_wiki_b.Services.Sessions.Revoked.{
  IsStable-IsRevoked, sessions-upsert, sessions-insert_space, sessions-insert_membership,
}
use python_typescript_wiki_b.Services.Keeps.{IsStable}
use python_typescript_wiki_b.Interleave.Prog
use python_typescript_wiki_b.Interleave.Prog.{find_session, read_clock, connect, Prog, act, done}
use python_typescript_wiki_b.Interleave.Programs as P
use python_typescript_wiki_b.Interleave.Ensures.Rules.{
  Ensures, OnOk, Anything, IsStable-Anything, Ensures-done, Ensures-act, Ensures-quiet,
  Ensures-bind, Ensures-or_raise, Ensures-fact,
}

-- The session table has a row for the hash.
record IsPresent (hash : Str) (db : Db) : Type 0 where
  row : Session
  found : row_of hash db ≡ some row

module _ (hash : Str) where
  IsPresent-same :
      (db db' : Db) → db'.sessions ≡ db.sessions → IsPresent hash db → IsPresent hash db'
  IsPresent-same db db' e v = record { row = v.row; found = ap (find? (has_hash hash)) e ∙ v.found }

  IsPresent-map :
      (g : Session → Session) (db : Db)
      → ((s : Session) → (g s).token_hash ≡ s.token_hash)
      → IsPresent hash db
      → IsPresent hash (record db { sessions = map g db.sessions })
  IsPresent-map g db hashes v = record {
    row = g v.row;
    found =
        find?-map (has_hash hash) g (λ s. ap (λ h. same h hash) (hashes s)) db.sessions
        ∙ ap (Option.map g) v.found;
  }

  IsPresent-insert :
      (id user_id : ℕ) (h : Str) (moment now : ℕ) (db : Db)
      → IsPresent hash db
      → IsPresent hash (insert_session id user_id h moment now db).1
  unfolding insert_session
  IsPresent-insert id user_id h moment now db v =
      elim (Bool-cases (admits_session id user_id h db)) [
        | inl e ↦ rw e (record {
          row = v.row;
          found =
              find?-append_some (has_hash hash) db.sessions
                (new_session id user_id h moment now ∷ []) v.row v.found;
        })
        | inr e ↦ rw e v
      ]

  IsStable-IsPresent : IsStable (IsPresent hash)
  unfolding update_expiry_statement revoke_statement update_where
  IsStable-IsPresent = record {
    upserts = λ f now server db v. IsPresent-same db _ (sessions-upsert f now server db) v;
    inserts = IsPresent-insert;
    renews = λ h moment now server db v.
        IsPresent-map (λ s. if has_hash h s then set_expiry moment now s else s) db
          (λ s. ground arith) v;
    revokes = λ h now server db v.
        IsPresent-map (λ s. if has_hash h s then set_revoked now s else s) db (λ s. ground arith) v;
    spaces = λ name id now db v. IsPresent-same db _ (sessions-insert_space name id now db) v;
    members =
        λ owner id now db v. IsPresent-same db _ (sessions-insert_membership owner id now db) v;
  }

  -- What a search for the hash has found is there.
  abbrev Found : Option SessionRecord → Db → Type 0
  Found none db = Unit
  Found (some r) db = IsPresent hash db

  IsStable-Found : (r : Result (Option SessionRecord)) → IsStable (OnOk Found r)
  IsStable-Found (ok none) = IsStable-Anything
  IsStable-Found (ok (some r)) = IsStable-IsPresent
  IsStable-Found (raised e) = IsStable-Anything

  IsStable-done : {A : Type 0} (r : Result A) → IsStable (OnOk (λ a. IsRevoked hash) r)
  IsStable-done (ok a) = IsStable-IsRevoked hash
  IsStable-done (raised e) = IsStable-Anything

  module _ (env : Env) where
    get_by_token_hash-Found :
        (w w' : World) (r : Result (Option SessionRecord))
        → get_by_token_hash env hash w ≡ (r, w')
        → OnOk Found r w'.db
    get_by_token_hash-Found w w' (raised e) h = tt
    get_by_token_hash-Found w w' (ok none) h = tt
    get_by_token_hash-Found w w' (ok (some r)) h =
        let (mapped, unchanged) = get_by_token_hash-eq-ok env hash w w' h in
        elim (Option-cases (row_of hash w.db)) [
          | inl e ↦ absurd (ground (arith, e))
          | inr (row, e) ↦ record { row = row; found = ap (row_of hash) unchanged ∙ e }
        ]

    find_session-Ensures : Ensures env Anything (act (find_session hash)) (OnOk Found)
    find_session-Ensures =
        Ensures-act env IsStable-Anything (find_session hash) IsStable-Found
          (λ w h. get_by_token_hash-Found w _ _ refl)

    revoke-IsRevoked :
        (w w' : World) (moment : ℕ) (r : Result (Unit {0}))
        → revoke env hash moment w ≡ (r, w')
        → IsPresent hash w.db
        → OnOk (λ (u : Unit {0}). IsRevoked hash) r w'.db
    revoke-IsRevoked w w' moment (raised e) h v = tt
    revoke-IsRevoked w w' moment (ok u) h v = record {
      row = set_revoked moment v.row;
      found =
          row_of-update_where hash (set_revoked moment) (λ r. refl) w.db w'.db
            (revoke-eq-ok env hash w w' moment h) v.row v.found;
      moment = moment;
      revoked = refl;
    }

    revoke-Ensures :
        (moment : ℕ)
        → Ensures env
            (IsPresent hash)
            (act (Prog.revoke_session hash moment))
            (OnOk (λ (u : Unit {0}). IsRevoked hash))
    revoke-Ensures moment =
        Ensures-act env IsStable-IsPresent (Prog.revoke_session hash moment) IsStable-done
          (λ w h. revoke-IsRevoked w _ moment _ refl h)

    found_active-Ensures :
        (o : Option SessionRecord)
        → Ensures env (Found o) (P.found_active env o) (OnOk (λ r. IsPresent hash))
    found_active-Ensures none = Ensures-done env IsStable-Anything _ (λ db h. tt)
    found_active-Ensures (some r) = Ensures-quiet env IsStable-IsPresent _

    -- The hash of the token, among tables with `Pre`.
    hash_token-Ensures :
        (token : Str) {Pre : Db → Type 0}
        → hash_token env token ≡ ok hash
        → IsStable Pre
        → Ensures env Pre (Prog.lift (hash_token env token)) (OnOk (λ h db. (h ≡ hash) × Pre db))
    hash_token-Ensures token hashed stable =
        Ensures-done env stable (hash_token env token) (λ db h. rw hashed (refl, h))

    get_session_record-Ensures :
        (token : Str)
        → hash_token env token ≡ ok hash
        → Ensures env Anything (P.get_session_record env token) (OnOk (λ r. IsPresent hash))
    unfolding P.get_session_record
    get_session_record-Ensures token hashed =
        Ensures-bind env (hash_token-Ensures token hashed IsStable-Anything) λ h.
          Ensures-fact env (h ≡ hash)
            λ e. Ensures-bind env (rw e find_session-Ensures) found_active-Ensures

    -- The service: a return leaves the row revoked.
    pub revoke_session-Ensures :
        (service : SessionService) (token : Str)
        → hash_token env token ≡ ok hash
        → Ensures env Anything
            (P.revoke_session env service token)
            (OnOk (λ (u : Unit {0}). IsRevoked hash))
    unfolding P.revoke_session
    revoke_session-Ensures service token hashed =
        Ensures-bind env (get_session_record-Ensures token hashed) λ r.
          Ensures-bind env (Ensures-quiet env IsStable-IsPresent (act read_clock)) λ now.
            Ensures-or_raise env internal (λ u. IsStable-IsRevoked hash)
              (Ensures-bind env (hash_token-Ensures token hashed IsStable-IsPresent)
                λ h. Ensures-fact env (h ≡ hash) λ e. rw e (revoke-Ensures now))
