-- ===== src/Migrations/Walk/RoundTrip.antt =====
-- alembic/versions/: the downgrades undo the upgrades.
use mathlib.Core.List.{Perm}
use mathlib.Core.List.Perm
use python_typescript_wiki_b.Base.{
  ℕ, zero, suc, ◌+◌, ◌≤◌, ◌<◌, ◌≡◌, refl, sym, ap, ◌∙◌, subst, ◌⊎◌, inl, inr, some, same, find?,
  arith,
}
use python_typescript_wiki_b.Text.{codes}
use python_typescript_wiki_b.Errors.{ok, ok-injective}
use python_typescript_wiki_b.Migrations.Ddl.{Schema}
use python_typescript_wiki_b.Migrations.States.{IsFresh}
use python_typescript_wiki_b.Migrations.Undo.{
  back_at_0004, downgrade_0001_lem, downgrade_0002_lem, downgrade_0003_lem, downgrade_0004_lem,
  downgrade_0004_back, downgrade_0005_lem,
}
use python_typescript_wiki_b.Migrations.Walk.{Database, step_down, upgrade_by, downgrade_by}
use python_typescript_wiki_b.Migrations.Walk.Head.{at_base, reached, upgrade_by-reached}

-- Revision 0004 as the downgrade of 0005 leaves it.
abbrev back : Schema → Database
back s = record { schema = back_at_0004 s; version = some (codes "0004_create_sessions_table") }

abbrev IsLike : Schema → ℕ → Database → Type 0
IsLike s n d = (d ≡ reached s n) ⊎ ((n ≡ 4) × (d ≡ back s))

-- The same revision, tables and indexes.
pub record IsSame (d e : Database) : Type 0 where
  pub version : d.version ≡ e.version
  pub tables : d.schema.tables ≡ e.schema.tables
  pub indexes : Perm d.schema.indexes e.schema.indexes

module _ (s : Schema) (f : IsFresh s) where
  step_down-reached :
      (n : ℕ) → n < 5 → (d : Database) × (step_down (reached s (suc n)) ≡ ok d) × IsLike s n d
  unfolding step_down find? same
  step_down-reached zero h = (reached s 0, rw (downgrade_0001_lem s f) refl, inl refl)
  step_down-reached (suc zero) h = (reached s 1, rw (downgrade_0002_lem s f) refl, inl refl)
  step_down-reached (suc (suc zero)) h = (reached s 2, rw (downgrade_0003_lem s f) refl, inl refl)
  step_down-reached (suc (suc (suc zero))) h =
      (reached s 3, rw (downgrade_0004_lem s f) refl, inl refl)
  step_down-reached (suc (suc (suc (suc zero)))) h =
      (back s, rw (downgrade_0005_lem s f) refl, inr (refl, refl))
  step_down-reached (suc (suc (suc (suc (suc n))))) h = absurd (omega arith)

  step_down-back : step_down (back s) ≡ ok (reached s 3)
  unfolding step_down find? same
  step_down-back = rw (downgrade_0004_back s f) refl

  step_down-IsLike :
      (n : ℕ) (d : Database)
      → n < 5
      → IsLike s (suc n) d
      → (d' : Database) × (step_down d ≡ ok d') × IsLike s n d'
  step_down-IsLike n d h (inl e) = rw e (step_down-reached n h)
  step_down-IsLike n d h (inr (four, e)) =
      subst (λ k. (d' : Database) × (step_down d ≡ ok d') × IsLike s k d') {x = 3} {y = n}
        (omega arith) (reached s 3, rw e step_down-back, inl refl)

  downgrade_by-IsLike :
      (k n : ℕ) (d : Database)
      → n + k ≤ 5
      → IsLike s (n + k) d
      → (d' : Database) × (downgrade_by k d ≡ ok d') × IsLike s n d'
  unfolding downgrade_by
  downgrade_by-IsLike zero n d h l =
      (d, refl, subst (λ m. IsLike s m d) {x = n + 0} {y = n} (omega arith) l)
  downgrade_by-IsLike (suc k) n d h l =
      let (d1, down, l1) =
        step_down-IsLike (n + k) d (omega arith)
          (subst (λ m. IsLike s m d) {x = n + suc k} {y = suc (n + k)} (omega arith) l) in
      let (d2, rest, l2) = downgrade_by-IsLike k n d1 (omega arith) l1 in (d2, rw down rest, l2)

  IsLike-IsSame : (n : ℕ) (d : Database) → IsLike s n d → IsSame d (reached s n)
  IsLike-IsSame n d (inl e) = rw e (record { version = refl; tables = refl; indexes = Perm.rfl })
  IsLike-IsSame n d (inr (four, e)) =
      rw (four, e) (record { version = refl; tables = refl; indexes = Perm.swap _ _ _ })

  -- From a database without a revision in which nothing has a name that the revisions use or refers
  -- to one of their tables: if m steps up reach a database and k further steps reach another, with at
  -- most five steps in all, then k steps down from there succeed and come back to the revision, the
  -- tables and, in some order, the indexes of the first.
  pub downgrade_by-upgrade_by :
      (m k : ℕ) (d e : Database)
      → m + k ≤ 5
      → upgrade_by m (at_base s) ≡ ok d
      → upgrade_by k d ≡ ok e
      → (d' : Database) × (downgrade_by k e ≡ ok d') × IsSame d' d
  downgrade_by-upgrade_by m k d e h up_m up_k =
      let d_eq : reached s m ≡ d =
        ap (reached s) {x = m} {y = 0 + m} (omega arith)
        ∙ ok-injective (sym (upgrade_by-reached s f m 0 (omega arith)) ∙ up_m) in
      let e_eq : reached s (m + k) ≡ e =
        ok-injective
          (sym (upgrade_by-reached s f k m (omega arith)) ∙ ap (upgrade_by k) d_eq ∙ up_k) in
      let (d', down, l) = downgrade_by-IsLike k m e h (inl (sym e_eq)) in
      (d', down, subst (IsSame d') d_eq (IsLike-IsSame m d' l))
