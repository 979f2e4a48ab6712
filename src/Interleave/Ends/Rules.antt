-- ===== src/Interleave/Ends/Rules.antt =====
-- Rules for how many atoms programs need, by their parts.
use python_typescript_wiki_b.Base.{ℕ, zero, suc, Bool, true, false, if◌then◌else◌}
use python_typescript_wiki_b.Errors.{Exc, Result, ok, raised}
use python_typescript_wiki_b.Outside.{Env}
use python_typescript_wiki_b.App.{replace}
use python_typescript_wiki_b.Interleave.Prog.{
  Atom, perform, Prog, done, await, act, follow, ◌>>=◌, on_value, or_raise,
}
use python_typescript_wiki_b.Interleave.Ends.{Ends, Ends-suc}

-- m + n, which computes by m.
abbrev pub more : ℕ → ℕ → ℕ
more zero n = n
more (suc m) n = suc (more m n)

abbrev pub Ended : {A : Type 0} → Result A → Type 0
Ended r = Unit

abbrev pub Returned : {A : Type 0} → Result A → Type 0
Returned (ok a) = Unit
Returned (raised e) = ⊥

-- The program needs at most n atoms.
pub record Takes {A : Type 0} (env : Env) (Q : Result A → Type 0) (n : ℕ) (p : Prog A)
    : Type 0 where
  pub ends : Ends env Q n p

module _ {A : Type 0} (env : Env) (Q : Result A → Type 0) where
  Ends-more : (m n : ℕ) (p : Prog A) → Ends env Q n p → Ends env Q (more m n) p
  Ends-more zero n p h = h
  Ends-more (suc m) n p h = Ends-suc env Q (more m n) p (Ends-more m n p h)

module _ {A : Type 0} (env : Env) {Q : Result A → Type 0} where
  pub Takes-more : (m : ℕ) {n : ℕ} {p : Prog A} → Takes env Q n p → Takes env Q (more m n) p
  Takes-more m {n} {p} h = record { ends = Ends-more env Q m n p h.ends }

  pub Takes-done : (r : Result A) → Q r → Takes env Q 0 (done r)
  Takes-done r h = record { ends = h }

  pub Takes-if :
      (b : Bool) {n : ℕ} {p q : Prog A}
      → Takes env Q n p
      → Takes env Q n q
      → Takes env Q n (if b then p else q)
  Takes-if true h k = h
  Takes-if false h k = k

pub Takes-act : (env : Env) (a : Atom) → Takes env Ended 1 (act a)
unfolding act
Takes-act env a = record { ends = λ w. tt }

module _ {A B : Type 0} (env : Env) (Q : Result A → Type 0) (R : Result B → Type 0) where
  Ends-follow :
      (m n : ℕ) (p : Prog A) (f : Result A → Prog B)
      → Ends env Q m p
      → ((r : Result A) → Q r → Ends env R n (f r))
      → Ends env R (more m n) (follow p f)
  unfolding follow
  Ends-follow m n (done r) f h k = Ends-more env R m n (f r) (k r h)
  Ends-follow zero n (await a c) f h k = absurd h
  Ends-follow (suc m) n (await a c) f h k = λ w. Ends-follow m n (c (perform env a w).0) f (h w) k

module _ {A B : Type 0} (env : Env) {Q : Result A → Type 0} {R : Result B → Type 0} where
  pub Takes-follow :
      {m n : ℕ} {p : Prog A} {f : Result A → Prog B}
      → Takes env Q m p
      → ((r : Result A) → Q r → Takes env R n (f r))
      → Takes env R (more m n) (follow p f)
  Takes-follow {m} {n} {p} {f} h k = record {
    ends = Ends-follow env Q R m n p f h.ends (λ r q. (k r q).ends);
  }

module _ {A B : Type 0} (env : Env) where
  on_value-Takes :
      {n : ℕ} (f : A → Prog B)
      → ((a : A) → Takes env Ended n (f a))
      → (r : Result A) → Takes env Ended n (on_value f r)
  on_value-Takes f k (ok a) = k a
  on_value-Takes f k (raised e) = record { ends = tt }

  pub Takes-bind :
      {m n : ℕ} {p : Prog A} {f : A → Prog B}
      → Takes env Ended m p
      → ((a : A) → Takes env Ended n (f a))
      → Takes env Ended (more m n) (p >>= f)
  unfolding ◌>>=◌
  Takes-bind {f = f} h k = Takes-follow env h (λ r q. on_value-Takes f k r)

pub Takes-or_raise :
    {A : Type 0} (env : Env) (error : Exc) {n : ℕ} {p : Prog A}
    → Takes env Ended n p
    → Takes env Ended (more n 0) (or_raise error p)
unfolding or_raise
Takes-or_raise env error h = Takes-follow env h (λ r q. Takes-done env (replace error r) tt)
