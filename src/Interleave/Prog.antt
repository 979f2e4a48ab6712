-- ===== src/Interleave/Prog.antt =====
-- A request as the sequence of what it awaits: each atom is one reading of the outside world, one
-- statement, or one transaction, whose rows others see when it commits.
use python_typescript_wiki_b.Base.{
  ℕ, ◌≡◌, refl, ap, ◌∙◌, Bool, Option, List, true, false, if◌then◌else◌,
}
use python_typescript_wiki_b.Text.{Str}
use python_typescript_wiki_b.Errors.{Exc, Result, ok, raised}
use python_typescript_wiki_b.Outside.{Env}
use python_typescript_wiki_b.App
use python_typescript_wiki_b.App.{World, App, observe, run_sql, nothing, replace}
use python_typescript_wiki_b.Repositories.Users.{
  UserFields, UserProfile, upsert_statement, get_by_id, search_by_username,
}
use python_typescript_wiki_b.Repositories.Sessions as SessionRepo
use python_typescript_wiki_b.Repositories.Sessions.{
  SessionRecord, get_by_token_hash, update_expiry_statement, revoke,
}
use python_typescript_wiki_b.Repositories.Spaces as SpaceRepo
use python_typescript_wiki_b.Api.Health.{select_one}

pub data Atom : Type 0 where
  read_clock draw_uuid draw_secret connect probe : Atom
  upsert : UserFields → ℕ → Atom
  find_user : ℕ → Atom
  search : Str → ℕ → Atom
  insert_session : ℕ → ℕ → Str → ℕ → Atom
  find_session : Str → Atom
  renew : Str → ℕ → ℕ → Atom
  revoke_session : Str → ℕ → Atom
  create_space : Str → ℕ → Atom

abbrev pub Answer : Atom → Type 0
Answer read_clock = ℕ
Answer draw_uuid = ℕ
Answer draw_secret = Str
Answer connect = Unit
Answer probe = ℕ
Answer (upsert f now) = UserProfile × Bool
Answer (find_user id) = Option UserProfile
Answer (search q n) = List UserProfile
Answer (insert_session id user_id h moment) = SessionRecord
Answer (find_session h) = Option SessionRecord
Answer (renew h moment now) = Option SessionRecord
Answer (revoke_session h moment) = Unit
Answer (create_space name owner) = ℕ

abbrev pub perform : Env → (a : Atom) → App (Answer a)
perform env read_clock = observe env.clock
perform env draw_uuid = observe env.uuid
perform env draw_secret = observe env.secret
perform env connect = run_sql env nothing
perform env probe = run_sql env select_one
perform env (upsert f now) = run_sql env (upsert_statement f now)
perform env (find_user id) = get_by_id env id
perform env (search q n) = search_by_username env q n
perform env (insert_session id user_id h moment) =
    SessionRepo.create_session env id user_id h moment
perform env (find_session h) = get_by_token_hash env h
perform env (renew h moment now) = run_sql env (update_expiry_statement h moment now)
perform env (revoke_session h moment) = revoke env h moment
perform env (create_space name owner) = SpaceRepo.create_space env name owner

-- What is left of a request: its outcome, or an atom and what follows each outcome of it.
pub data Prog (A : Type 0) : Type 0 where
  done : Result A → Prog A
  await : (a : Atom) → (Result (Answer a) → Prog A) → Prog A

-- The request alone, from here to its end.
unfoldable pub exec : {A : Type 0} → Env → Prog A → App A
exec env (done r) w = (r, w)
exec env (await a k) w = let (r, w') = perform env a w in exec env (k r) w'

unfoldable pub act : (a : Atom) → Prog (Answer a)
act a = await a done

module _ {A B : Type 0} where
  unfoldable pub follow : Prog A → (Result A → Prog B) → Prog B
  follow (done r) f = f r
  follow (await a k) f = await a (λ r. follow (k r) f)

  abbrev pub on_value : (A → Prog B) → Result A → Prog B
  on_value f (ok a) = f a
  on_value f (raised e) = done (raised e)

  infixl 10 ◌>>=◌ ◌>>◌
  unfoldable pub ◌>>=◌ : Prog A → (A → Prog B) → Prog B
  unfolding follow
  m >>= f = follow m (on_value f)

  abbrev pub ◌>>◌ : Prog A → Prog B → Prog B
  m >> n = m >>= λ _. n

module _ {A : Type 0} where
  abbrev pub lift : Result A → Prog A
  lift r = done r

  abbrev pub pure : A → Prog A
  pure a = done (ok a)

  abbrev pub raise : Exc → Prog A
  raise e = done (raised e)

  unfoldable pub or_raise : Exc → Prog A → Prog A
  unfolding follow
  or_raise error m = follow m (λ r. done (replace error r))

-- Running a program is running its parts in turn.
module _ {A B : Type 0} (env : Env) where
  pub exec-follow :
      (m : Prog A) (f : Result A → Prog B) (w : World)
      → exec env (follow m f) w ≡ (let (r, w') = exec env m w in exec env (f r) w')
  unfolding exec follow
  exec-follow (done r) f w = refl
  exec-follow (await a k) f w = let (r, w') = perform env a w in exec-follow (k r) f w'

  continue-on_value :
      (r : Result A) (f : A → Prog B) (w : World)
      → exec env (on_value f r) w ≡ App.continue r (λ a. exec env (f a)) w
  unfolding exec
  continue-on_value (ok a) f w = refl
  continue-on_value (raised e) f w = refl

  pub exec->>= :
      (m : Prog A) (f : A → Prog B)
      → exec env (m >>= f) ≡ App.◌>>=◌ (exec env m) (λ a. exec env (f a))
  unfolding ◌>>=◌ App.◌>>=◌
  exec->>= m f = λ i w.
      (exec-follow m (on_value f) w ∙ continue-on_value (exec env m w).0 f (exec env m w).1) i

-- The program, run alone, is the action.
pub record Runs {A : Type 0} (env : Env) (m : Prog A) (action : App A) : Type 0 where
  pub eq : exec env m ≡ action

pub Runs-act : (env : Env) (a : Atom) → Runs env (act a) (perform env a)
unfolding exec act
Runs-act env a = record { eq = refl }

module _ {A : Type 0} (env : Env) where
  pub Runs-lift : (r : Result A) → Runs env (lift r) (App.lift r)
  unfolding exec App.lift
  Runs-lift r = record { eq = refl }

  pub Runs-pure : (a : A) → Runs env (pure a) (App.pure a)
  unfolding exec App.pure
  Runs-pure a = record { eq = refl }

  pub Runs-raise : (e : Exc) → Runs env (raise {A = A} e) (App.raise e)
  unfolding exec App.raise
  Runs-raise e = record { eq = refl }

  pub Runs-if :
      (b : Bool) {p q : Prog A} {p' q' : App A}
      → Runs env p p'
      → Runs env q q'
      → Runs env (if b then p else q) (if b then p' else q')
  Runs-if true h k = h
  Runs-if false h k = k

  pub Runs-or_raise :
      (error : Exc) {m : Prog A} {m' : App A}
      → Runs env m m'
      → Runs env (or_raise error m) (App.or_raise error m')
  unfolding exec or_raise App.or_raise
  Runs-or_raise error {m} h = record {
    eq =
        (λ i w. exec-follow env m (λ r. done (replace error r)) w i) ∙ ap (App.or_raise error) h.eq;
  }

module _ {A B : Type 0} (env : Env) where
  pub Runs-bind :
      {m : Prog A} {m' : App A} {f : A → Prog B} {f' : A → App B}
      → Runs env m m'
      → ((a : A) → Runs env (f a) (f' a))
      → Runs env (m >>= f) (App.◌>>=◌ m' f')
  Runs-bind {m} {f = f} h k = record {
    eq = exec->>= env m f ∙ (λ i. App.◌>>=◌ (h.eq i) (λ a. (k a).eq i));
  }
