-- ===== src/Interleave/Ends.antt =====
-- How many turns a task needs: a bound on the atoms of a program, whatever they meet.
pub mod Rules
pub mod Answers
pub mod Routes
pub mod Replies
use mathlib.Core.Option
use python_typescript_wiki_b.Base.{
  Bool-cases, true, false, ==_iff, ℕ, zero, suc, ◌≤◌, ◌≡◌, refl, sym, ap, subst, ◌∙◌, arith, Option,
  none, some, List, [], ◌∷◌, inl, inr, ◌==◌, if◌then◌else◌,
}
use python_typescript_wiki_b.Errors.{Result, ok, raised}
use python_typescript_wiki_b.Outside.{Env}
use python_typescript_wiki_b.App.{World}
use python_typescript_wiki_b.Interleave.Prog.{Atom, Answer, perform, Prog, done, await}
use python_typescript_wiki_b.Interleave.Schedule.{resume, turn, run_schedule}
use python_typescript_wiki_b.Interleave.Ensures.{task_at}

-- How many turns a schedule gives to the task with a number.
abbrev pub turns_of : ℕ → List ℕ → ℕ
turns_of n [] = 0
turns_of n (m ∷ ms) = let rest = turns_of n ms in if m == n then suc rest else rest

abbrev pred : ℕ → ℕ
pred zero = zero
pred (suc k) = k

pred_le : (k : ℕ) {n : ℕ} → k ≤ suc n → pred k ≤ n
pred_le zero h = omega arith
pred_le (suc k) h = omega arith

module _ {A : Type 0} (env : Env) (Q : Result A → Type 0) where
  -- At most n atoms are left, whatever they meet, and the outcome satisfies `Q`.
  abbrev pub Ends : ℕ → Prog A → Type 0
  Ends n (done r) = Q r
  Ends zero (await a k) = ⊥
  Ends (suc n) (await a k) = (w : World) → Ends n (k (perform env a w).0)

  pub Ends-suc : (n : ℕ) (p : Prog A) → Ends n p → Ends (suc n) p
  Ends-suc n (done r) h = h
  Ends-suc zero (await a k) h = absurd h
  Ends-suc (suc n) (await a k) h = λ w. Ends-suc n (k (perform env a w).0) (h w)

  Ends-resume : (n : ℕ) (p : Prog A) (w : World) → Ends (suc n) p → Ends n (resume env p w).0
  unfolding resume
  Ends-resume n (done r) w h = h
  Ends-resume n (await a k) w h = h w

  Ends-pred : (k : ℕ) (p : Prog A) (w : World) → Ends k p → Ends (pred k) (resume env p w).0
  Ends-pred zero p w h = Ends-resume 0 p w (Ends-suc 0 p h)
  Ends-pred (suc k) p w h = Ends-resume k p w h

  task_at_other :
      (n m : ℕ) (ps : List (Prog A)) (w : World)
      → (m == n) ≡ false
      → task_at n (turn env m ps w).0 ≡ task_at n ps
  unfolding turn
  task_at_other n m [] w h = refl
  task_at_other zero zero (p ∷ ps) w h = absurd (ground (arith, h))
  task_at_other zero (suc m) (p ∷ ps) w h = refl
  task_at_other (suc n) zero (p ∷ ps) w h = refl
  task_at_other (suc n) (suc m) (p ∷ ps) w h = task_at_other n m ps w (ground (arith, h))

  task_at_own :
      (n : ℕ) (ps : List (Prog A)) (w : World) {p : Prog A}
      → task_at n ps ≡ some p
      → task_at n (turn env n ps w).0 ≡ some (resume env p w).0
  unfolding turn
  task_at_own n [] w h = absurd (cc)
  task_at_own zero (q ∷ ps) w h = ap (λ o. Option.map (λ x. (resume env x w).0) o) h
  task_at_own (suc n) (q ∷ ps) w h = task_at_own n ps w h

  ended : (p : Prog A) → Ends 0 p → (r : Result A) × (p ≡ done r) × Q r
  ended (done r) h = (r, refl, h)
  ended (await a k) h = absurd h

  -- A task with at most k atoms left has ended after k turns of its own.
  pub run_schedule-Ends :
      (schedule : List ℕ) (n k : ℕ) (tasks : List (Prog A)) (w : World) (p : Prog A)
      → task_at n tasks ≡ some p
      → Ends k p
      → k ≤ turns_of n schedule
      → (r : Result A) × (task_at n (run_schedule env schedule tasks w).0 ≡ some (done r)) × Q r
  unfolding run_schedule
  run_schedule-Ends [] n zero tasks w p e h le =
      let (r, q, holds) = ended p h in (r, e ∙ ap some q, holds)
  run_schedule-Ends [] n (suc k) tasks w p e h le = absurd (omega arith)
  run_schedule-Ends (m ∷ ms) n k tasks w p e h le = elim (Bool-cases (m == n)) [
    | inl own ↦
        run_schedule-Ends ms n (pred k) (turn env m tasks w).0 (turn env m tasks w).1
          (resume env p w).0
          (subst (λ x. task_at n (turn env x tasks w).0 ≡ some (resume env p w).0)
            (sym ((==_iff m n).0 own)) (task_at_own n tasks w e))
          (Ends-pred k p w h) (pred_le k (ground (arith, own, le)))
    | inr other ↦
        run_schedule-Ends ms n k (turn env m tasks w).0 (turn env m tasks w).1 p
          (task_at_other n m tasks w other ∙ e) h (ground (arith, other, le))
  ]
