-- ===== src/Interleave/Ensures/Rules.antt =====
-- Rules for what programs ensure, by their parts.
use python_typescript_wiki_b.Errors.{Exc, Result, ok, raised}
use python_typescript_wiki_b.Outside.{Env}
use python_typescript_wiki_b.Db.{Db}
use python_typescript_wiki_b.App.{World, replace}
use python_typescript_wiki_b.Services.Keeps.{IsStable}
use python_typescript_wiki_b.Interleave.Prog.{
  Atom, Answer, perform, Prog, done, await, act, follow, ◌>>=◌, on_value, or_raise,
}
use python_typescript_wiki_b.Interleave.Schedule.{perform-Keeps}
use python_typescript_wiki_b.Interleave.Ensures.{Holds}

-- From tables with `Pre` the program ends in `Post`, whatever others do meanwhile.
pub record Ensures {A : Type 0} (env : Env) (Pre : Db → Type 0) (m : Prog A)
    (Post : Result A → Db → Type 0) : Type 1 where
  pub at : (db : Db) → Pre db → Holds env Post m db

-- Nothing is said of an exception.
abbrev pub OnOk : {A : Type 0} → (A → Db → Type 0) → Result A → Db → Type 0
OnOk X (ok a) db = X a db
OnOk X (raised e) db = Unit

abbrev pub Anything : Db → Type 0
Anything db = Unit

pub IsStable-Anything : IsStable Anything
IsStable-Anything = record {
  upserts = λ f now server db h. tt;
  inserts = λ id user_id h moment now db k. tt;
  renews = λ h moment now server db k. tt;
  revokes = λ h now server db k. tt;
  spaces = λ name id now db k. tt;
  members = λ owner id now db k. tt;
}

module _ {A : Type 0} (env : Env) {Pre : Db → Type 0} (stable : IsStable Pre) where
  pub Ensures-done :
      (r : Result A) {Post : Result A → Db → Type 0}
      → ((db : Db) → Pre db → Post r db)
      → Ensures env Pre (done r) Post
  Ensures-done r k = record { at = λ db h. (Pre, stable, h, k) }

  Holds-keep : (m : Prog A) (db : Db) → Pre db → Holds env (λ r. Pre) m db
  Holds-keep (done r) db h = (Pre, stable, h, λ db' k. k)
  Holds-keep (await a k) db h = (
    Pre,
    stable,
    h,
    λ w h'.
        Holds-keep (k (perform env a w).0) (perform env a w).1.db
          ((perform-Keeps stable env a).at w h'),
  )

  -- What all statements keep, a program keeps.
  pub Ensures-keep : (m : Prog A) → Ensures env Pre m (λ r. Pre)
  Ensures-keep m = record { at = Holds-keep m }

pub Ensures-act :
    (env : Env) {Pre : Db → Type 0} (stable : IsStable Pre) (a : Atom)
    {Post : Result (Answer a) → Db → Type 0}
    → ((r : Result (Answer a)) → IsStable (Post r))
    → ((w : World) → Pre w.db → Post (perform env a w).0 (perform env a w).1.db)
    → Ensures env Pre (act a) Post
unfolding act
Ensures-act env {Pre} stable a {Post} stays k = record {
  at = λ db h. (
    Pre,
    stable,
    h,
    λ w h'. (Post (perform env a w).0, stays (perform env a w).0, k w h', λ db' q. q),
  );
}

module _ {A : Type 0} (env : Env) where
  Holds-weaken :
      (Post Post' : Result A → Db → Type 0)
      → ((r : Result A) (db : Db) → Post r db → Post' r db)
      → (m : Prog A) (db : Db) → Holds env Post m db
      → Holds env Post' m db
  Holds-weaken Post Post' f (done r) db (rely, stable, now, rest) =
      (rely, stable, now, λ db' h. f r db' (rest db' h))
  Holds-weaken Post Post' f (await a k) db (rely, stable, now, rest) = (
    rely,
    stable,
    now,
    λ w h. Holds-weaken Post Post' f (k (perform env a w).0) (perform env a w).1.db (rest w h),
  )

  pub Ensures-weaken :
      {Pre : Db → Type 0} {m : Prog A} {Post Post' : Result A → Db → Type 0}
      → ((r : Result A) (db : Db) → Post r db → Post' r db)
      → Ensures env Pre m Post
      → Ensures env Pre m Post'
  Ensures-weaken {m = m} {Post} {Post'} f e = record {
    at = λ db h. Holds-weaken Post Post' f m db (e.at db h);
  }

module _ {A B : Type 0} (env : Env) where
  Holds-follow :
      (Mid : Result A → Db → Type 0) (Post : Result B → Db → Type 0) (f : Result A → Prog B)
      → ((r : Result A) (db : Db) → Mid r db → Holds env Post (f r) db)
      → (m : Prog A) (db : Db) → Holds env Mid m db
      → Holds env Post (follow m f) db
  unfolding follow
  Holds-follow Mid Post f k (done r) db (rely, stable, now, rest) = k r db (rest db now)
  Holds-follow Mid Post f k (await a c) db (rely, stable, now, rest) = (
    rely,
    stable,
    now,
    λ w h. Holds-follow Mid Post f k (c (perform env a w).0) (perform env a w).1.db (rest w h),
  )

  pub Ensures-follow :
      {Pre : Db → Type 0} {m : Prog A} {Mid : Result A → Db → Type 0} {f : Result A → Prog B}
      {Post : Result B → Db → Type 0}
      → Ensures env Pre m Mid
      → ((r : Result A) → Ensures env (Mid r) (f r) Post)
      → Ensures env Pre (follow m f) Post
  Ensures-follow {m = m} {Mid} {f} {Post} e k = record {
    at = λ db h. Holds-follow Mid Post f (λ r. (k r).at) m db (e.at db h);
  }

  on_value-Ensures :
      {X : A → Db → Type 0} {Y : B → Db → Type 0} (f : A → Prog B)
      → ((a : A) → Ensures env (X a) (f a) (OnOk Y))
      → (r : Result A) → Ensures env (OnOk X r) (on_value f r) (OnOk Y)
  on_value-Ensures f k (ok a) = k a
  on_value-Ensures f k (raised e) = Ensures-done env IsStable-Anything (raised e) (λ db h. tt)

  pub Ensures-bind :
      {Pre : Db → Type 0} {m : Prog A} {X : A → Db → Type 0} {f : A → Prog B} {Y : B → Db → Type 0}
      → Ensures env Pre m (OnOk X)
      → ((a : A) → Ensures env (X a) (f a) (OnOk Y))
      → Ensures env Pre (m >>= f) (OnOk Y)
  unfolding ◌>>=◌
  Ensures-bind {f = f} e k = Ensures-follow e (on_value-Ensures f k)

-- Programs that keep `Pre`, and what is left of it when they return.
pub Ensures-quiet :
    {A : Type 0} (env : Env) {Pre : Db → Type 0}
    → IsStable Pre
    → (m : Prog A) → Ensures env Pre m (OnOk (λ a. Pre))
Ensures-quiet {A} env {Pre} stable m =
    Ensures-weaken env (λ r db h. kept r db h) (Ensures-keep env stable m)
  where
    kept : (r : Result A) (db : Db) → Pre db → OnOk (λ a. Pre) r db
    kept (ok a) db h = h
    kept (raised e) db h = tt

pub Ensures-or_raise :
    {A : Type 0} (env : Env) (error : Exc) {Pre : Db → Type 0} {m : Prog A} {X : A → Db → Type 0}
    → ((a : A) → IsStable (X a))
    → Ensures env Pre m (OnOk X)
    → Ensures env Pre (or_raise error m) (OnOk X)
unfolding or_raise
Ensures-or_raise {A} env error {X = X} stable e = Ensures-follow env e outcome
  where
    outcome : (r : Result A) → Ensures env (OnOk X r) (done (replace error r)) (OnOk X)
    outcome (ok a) = Ensures-done env (stable a) (ok a) (λ db h. h)
    outcome (raised e') = Ensures-done env IsStable-Anything (raised error) (λ db h. tt)

-- A fact that does not depend on the tables.
pub Ensures-fact :
    {A : Type 0} (env : Env) (Fact : Type 0) {Pre : Db → Type 0} {m : Prog A}
    {Post : Result A → Db → Type 0}
    → (Fact → Ensures env Pre m Post)
    → Ensures env (λ db. Fact × Pre db) m Post
Ensures-fact env Fact k = record { at = λ db h. (k h.0).at db h.1 }
