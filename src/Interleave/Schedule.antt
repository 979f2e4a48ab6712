-- ===== src/Interleave/Schedule.antt =====
-- Tasks that take turns: a schedule names, for each turn, the task that runs its next atom.
pub mod Invariants
use python_typescript_wiki_b.Base.{ℕ, zero, suc, List, [], ◌∷◌, Option, none, some}
use python_typescript_wiki_b.Outside.{Env}
use python_typescript_wiki_b.App.{World}
use python_typescript_wiki_b.Db.{Db}
use python_typescript_wiki_b.App.Laws.{Keeps, Keeps-observe, Keeps-run_sql}
use python_typescript_wiki_b.App.{nothing}
use python_typescript_wiki_b.Repositories.Users.{upsert_statement}
use python_typescript_wiki_b.Repositories.Sessions.{update_expiry_statement}
use python_typescript_wiki_b.Services.Spaces as Spaces
use python_typescript_wiki_b.Services.Users as Users
use python_typescript_wiki_b.Services.Keeps.{
  IsStable, get_by_id-Keeps, get_by_token_hash-Keeps, users-Keeps, insert-Keeps, revoke-Keeps,
  spaces-Keeps,
}
use python_typescript_wiki_b.Api.Health.{select_one}
use python_typescript_wiki_b.Interleave.Prog.{
  Atom, read_clock, draw_uuid, draw_secret, connect, probe, upsert, find_user, search,
  insert_session, find_session, renew, revoke_session, create_space, perform, Prog, done, await,
}

module _ {A : Type 0} (env : Env) where
  -- One turn of a task; a finished task stays as it is.
  unfoldable pub resume : Prog A → World → Prog A × World
  resume (done r) w = (done r, w)
  resume (await a k) w = let (r, w') = perform env a w in (k r, w')

  -- One turn of the task with a number, if there is one.
  unfoldable pub turn : ℕ → List (Prog A) → World → List (Prog A) × World
  unfolding resume
  turn n [] w = ([], w)
  turn zero (p ∷ ps) w = let (p', w') = resume p w in (p' ∷ ps, w')
  turn (suc n) (p ∷ ps) w = let (ps', w') = turn n ps w in (p ∷ ps', w')

  unfoldable pub run_schedule : List ℕ → List (Prog A) → World → List (Prog A) × World
  unfolding turn
  run_schedule [] tasks w = (tasks, w)
  run_schedule (n ∷ ns) tasks w = let (tasks', w') = turn n tasks w in run_schedule ns tasks' w'

-- What every statement keeps, every atom keeps.
pub perform-Keeps :
    {P : Db → Type 0} → IsStable P → (env : Env) (a : Atom) → Keeps P (perform env a)
unfolding Spaces.create_space Users.search_users
perform-Keeps stable env read_clock = Keeps-observe env.clock
perform-Keeps stable env draw_uuid = Keeps-observe env.uuid
perform-Keeps stable env draw_secret = Keeps-observe env.secret
perform-Keeps stable env connect = Keeps-run_sql env nothing (λ now db h. h)
perform-Keeps stable env probe = Keeps-run_sql env select_one (λ now db h. h)
perform-Keeps stable env (upsert f now) =
    Keeps-run_sql env (upsert_statement f now) (stable.upserts f now)
perform-Keeps stable env (find_user id) = get_by_id-Keeps env id
perform-Keeps stable env (search q n) = users-Keeps env q n
perform-Keeps stable env (insert_session id user_id h m) = insert-Keeps stable env id user_id h m
perform-Keeps stable env (find_session h) = get_by_token_hash-Keeps env h
perform-Keeps stable env (renew h m now) =
    Keeps-run_sql env (update_expiry_statement h m now) (stable.renews h m now)
perform-Keeps stable env (revoke_session h m) = revoke-Keeps stable env h m
perform-Keeps stable env (create_space name owner) = spaces-Keeps stable env name owner
