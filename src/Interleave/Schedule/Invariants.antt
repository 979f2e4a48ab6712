-- ===== src/Interleave/Schedule/Invariants.antt =====
-- What every statement keeps holds at each point of every interleaving.
use python_typescript_wiki_b.Base.{ℕ, zero, suc, List, [], ◌∷◌}
use python_typescript_wiki_b.Outside.{Env}
use python_typescript_wiki_b.Db.{Db}
use python_typescript_wiki_b.App.{World}
use python_typescript_wiki_b.Repositories.WellFormed.{IsWellFormed}
use python_typescript_wiki_b.Repositories.Limits.{IsFitting, IsStable-IsFitting}
use python_typescript_wiki_b.Services.Keeps.{IsStable}
use python_typescript_wiki_b.Api.History.Invariants.{IsStable-IsWellFormed}
use python_typescript_wiki_b.Interleave.Prog.{Prog, done, await}
use python_typescript_wiki_b.Interleave.Schedule.{resume, turn, run_schedule, perform-Keeps}

module _ {A : Type 0} {P : Db → Type 0} (stable : IsStable P) (env : Env) where
  resume-Keeps : (p : Prog A) (w : World) → P w.db → P (resume env p w).1.db
  unfolding resume
  resume-Keeps (done r) w h = h
  resume-Keeps (await a k) w h = (perform-Keeps stable env a).at w h

  pub turn-Keeps :
      (n : ℕ) (tasks : List (Prog A)) (w : World) → P w.db → P (turn env n tasks w).1.db
  unfolding turn
  turn-Keeps n [] w h = h
  turn-Keeps zero (p ∷ ps) w h = resume-Keeps p w h
  turn-Keeps (suc n) (p ∷ ps) w h = turn-Keeps n ps w h

  pub run_schedule-Keeps :
      (schedule : List ℕ) (tasks : List (Prog A)) (w : World)
      → P w.db
      → P (run_schedule env schedule tasks w).1.db
  unfolding run_schedule
  run_schedule-Keeps [] tasks w h = h
  run_schedule-Keeps (n ∷ ns) tasks w h =
      run_schedule-Keeps ns (turn env n tasks w).0 (turn env n tasks w).1 (turn-Keeps n tasks w h)

module _ {A : Type 0} (env : Env) where
  -- Whatever tasks are in flight, each at any point of its work, and however a schedule lets them take
  -- turns, tables that satisfy their constraints and whose values fit their columns still do.
  pub run_schedule-IsWellFormed :
      (schedule : List ℕ) (tasks : List (Prog A)) (w : World)
      → IsWellFormed w.db
      → IsFitting w.db
      → IsWellFormed (run_schedule env schedule tasks w).1.db
        × IsFitting (run_schedule env schedule tasks w).1.db
  run_schedule-IsWellFormed schedule tasks w v f = (
    run_schedule-Keeps IsStable-IsWellFormed env schedule tasks w v,
    run_schedule-Keeps IsStable-IsFitting env schedule tasks w f,
  )
