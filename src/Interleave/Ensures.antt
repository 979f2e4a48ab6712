-- ===== src/Interleave/Ensures.antt =====
-- What a task ensures when others take turns between its atoms: at each point it relies on a property
-- of the tables that every statement of every task keeps.
pub mod Rules
use python_typescript_wiki_b.Base.{
  ℕ, zero, suc, ◌≡◌, refl, sym, subst, Option, none, some, List, [], ◌∷◌,
}
use python_typescript_wiki_b.Errors.{Result, ok, raised}
use python_typescript_wiki_b.Outside.{Env}
use python_typescript_wiki_b.Db.{Db}
use python_typescript_wiki_b.App.{World}
use python_typescript_wiki_b.App.Laws.{Keeps}
use python_typescript_wiki_b.Services.Keeps.{IsStable}
use python_typescript_wiki_b.Interleave.Prog.{
  Atom, Answer, perform, Prog, done, await, act, follow, ◌>>=◌, on_value,
}
use python_typescript_wiki_b.Interleave.Schedule.{resume, turn, run_schedule, perform-Keeps}
use python_typescript_wiki_b.Interleave.Schedule.Invariants.{turn-Keeps}

-- The task with a number.
abbrev pub task_at : {A : Type 0} → ℕ → List (Prog A) → Option (Prog A)
task_at n [] = none
task_at zero (p ∷ ps) = some p
task_at (suc n) (p ∷ ps) = task_at n ps

module _ {A : Type 0} (env : Env) where
  -- The rest of a task ends in `Q`, from these tables and from any that others make of them.
  abbrev pub Holds : (Result A → Db → Type 0) → Prog A → Db → Type 1
  Holds Q (done r) db =
      (rely : Db → Type 0) × IsStable rely × rely db × ((db' : Db) → rely db' → Q r db')
  Holds Q (await a k) db =
      (rely : Db → Type 0) × IsStable rely
      × rely db
      × ((w : World) → rely w.db → Holds Q (k (perform env a w).0) (perform env a w).1.db)

  -- Turns of others do not spoil it, and an own turn keeps it.
  Holds-others :
      (Q : Result A → Db → Type 0) (p : Prog A) (db db' : Db)
      → ((P : Db → Type 0) → IsStable P → P db → P db')
      → Holds Q p db
      → Holds Q p db'
  Holds-others Q (done r) db db' kept (rely, stable, now, rest) =
      (rely, stable, kept rely stable now, rest)
  Holds-others Q (await a k) db db' kept (rely, stable, now, rest) =
      (rely, stable, kept rely stable now, rest)

  Holds-resume :
      (Q : Result A → Db → Type 0) (p : Prog A) (w : World)
      → Holds Q p w.db
      → Holds Q (resume env p w).0 (resume env p w).1.db
  unfolding resume
  Holds-resume Q (done r) w h = h
  Holds-resume Q (await a k) w (rely, stable, now, rest) = rest w now

  -- The task with a number, if there is one, has the property.
  abbrev pub HoldsAt : (Result A → Db → Type 0) → ℕ → List (Prog A) → Db → Type 1
  HoldsAt Q n [] db = Unit
  HoldsAt Q zero (p ∷ ps) db = Holds Q p db
  HoldsAt Q (suc n) (p ∷ ps) db = HoldsAt Q n ps db

  HoldsAt-others :
      (Q : Result A → Db → Type 0) (n : ℕ) (ps : List (Prog A)) (db db' : Db)
      → ((P : Db → Type 0) → IsStable P → P db → P db')
      → HoldsAt Q n ps db
      → HoldsAt Q n ps db'
  HoldsAt-others Q n [] db db' kept h = tt
  HoldsAt-others Q zero (p ∷ ps) db db' kept h = Holds-others Q p db db' kept h
  HoldsAt-others Q (suc n) (p ∷ ps) db db' kept h = HoldsAt-others Q n ps db db' kept h

  turn-HoldsAt :
      (Q : Result A → Db → Type 0) (n m : ℕ) (ps : List (Prog A)) (w : World)
      → HoldsAt Q n ps w.db
      → HoldsAt Q n (turn env m ps w).0 (turn env m ps w).1.db
  unfolding turn
  turn-HoldsAt Q n m [] w h = tt
  turn-HoldsAt Q zero zero (p ∷ ps) w h = Holds-resume Q p w h
  turn-HoldsAt Q zero (suc m) (p ∷ ps) w h =
      Holds-others Q p w.db (turn env m ps w).1.db (λ P stable k. turn-Keeps stable env m ps w k) h
  turn-HoldsAt Q (suc n) zero (p ∷ ps) w h =
      HoldsAt-others Q n ps w.db (resume env p w).1.db
        (λ P stable k. turn-Keeps stable env zero (p ∷ []) w k) h
  turn-HoldsAt Q (suc n) (suc m) (p ∷ ps) w h = turn-HoldsAt Q n m ps w h

  pub run_schedule-HoldsAt :
      (Q : Result A → Db → Type 0) (schedule : List ℕ) (n : ℕ) (ps : List (Prog A)) (w : World)
      → HoldsAt Q n ps w.db
      → HoldsAt Q n (run_schedule env schedule ps w).0 (run_schedule env schedule ps w).1.db
  unfolding run_schedule
  run_schedule-HoldsAt Q [] n ps w h = h
  run_schedule-HoldsAt Q (m ∷ ms) n ps w h =
      run_schedule-HoldsAt Q ms n (turn env m ps w).0 (turn env m ps w).1
        (turn-HoldsAt Q n m ps w h)

  HoldsOption : (Result A → Db → Type 0) → Option (Prog A) → Db → Type 1
  HoldsOption Q none db = Unit
  HoldsOption Q (some p) db = Holds Q p db

  option_of_HoldsAt :
      (Q : Result A → Db → Type 0) (n : ℕ) (ps : List (Prog A)) (db : Db)
      → HoldsAt Q n ps db
      → HoldsOption Q (task_at n ps) db
  unfolding HoldsOption
  option_of_HoldsAt Q n [] db h = h
  option_of_HoldsAt Q zero (p ∷ ps) db h = h
  option_of_HoldsAt Q (suc n) (p ∷ ps) db h = option_of_HoldsAt Q n ps db h

  HoldsAt-of_option :
      (Q : Result A → Db → Type 0) (n : ℕ) (ps : List (Prog A)) (db : Db)
      → HoldsOption Q (task_at n ps) db
      → HoldsAt Q n ps db
  unfolding HoldsOption
  HoldsAt-of_option Q n [] db h = h
  HoldsAt-of_option Q zero (p ∷ ps) db h = h
  HoldsAt-of_option Q (suc n) (p ∷ ps) db h = HoldsAt-of_option Q n ps db h

  -- A task that ends in `Q` from the tables where it is, ends in `Q` under every schedule.
  pub ends_in :
      (Q : Result A → Db → Type 0) (schedule : List ℕ) (n : ℕ) (tasks : List (Prog A)) (w : World)
      {p : Prog A} {r : Result A}
      → task_at n tasks ≡ some p
      → Holds Q p w.db
      → task_at n (run_schedule env schedule tasks w).0 ≡ some (done r)
      → Q r (run_schedule env schedule tasks w).1.db
  unfolding HoldsOption
  ends_in Q schedule n tasks w e h ended =
      let (tasks', w') = run_schedule env schedule tasks w in
      let start : HoldsOption Q (task_at n tasks) w.db = rw e h in
      let (rely, stable, now, rest) =
        subst (λ o. HoldsOption Q o w'.db) ended
          (option_of_HoldsAt Q n tasks' w'.db
            (run_schedule-HoldsAt Q schedule n tasks w (HoldsAt-of_option Q n tasks w.db start))) in
      rest w'.db now
