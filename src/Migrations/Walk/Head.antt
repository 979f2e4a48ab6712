-- ===== src/Migrations/Walk/Head.antt =====
-- alembic/: what `alembic upgrade head` reaches is what app/models.py declares.
use python_typescript_wiki_b.Base.{
  ℕ, zero, suc, ◌+◌, ◌≤◌, ◌<◌, ◌≡◌, refl, ap, ◌∙◌, true, false, none, some, List, [], ◌∷◌, ◌++◌,
  any, all, find?, same, All, arith,
}
use python_typescript_wiki_b.Text.{Str, codes}
use python_typescript_wiki_b.Errors.{value_error, ok, raised}
use python_typescript_wiki_b.Migrations.Ddl.{Schema, Index, Table, indexed_by}
use python_typescript_wiki_b.Migrations.Metadata.{
  agrees, metadata, same_set, indexes_of, tmp_model, user_model, session_model, space_model,
  space_membership_model,
}
use python_typescript_wiki_b.Migrations.States.{
  IsFresh, at_0001, at_0002, at_0003, at_0004, at_0005, upgrade_0001_lem, upgrade_0002_lem,
  upgrade_0003_lem, upgrade_0004_lem, upgrade_0005_lem,
}
use python_typescript_wiki_b.Migrations.Walk.{Database, step_up, upgrade_by}

indexes_of-none :
    (table : Str) (is : List Index) → indexed_by table is ≡ false → indexes_of table is ≡ []
unfolding indexed_by indexes_of any
indexes_of-none table [] h = refl
indexes_of-none table (i ∷ is) h = ground (arith, indexes_of-none table is)

module _ (s : Schema) (f : IsFresh s) where
  agrees-tmp : agrees tmp_model (at_0005 s) ≡ true
  unfolding agrees find? same same_set any all indexes_of
  agrees-tmp = rw (indexes_of-none (codes "tmp") s.indexes f.unused.0.1) refl

  agrees-users : agrees user_model (at_0005 s) ≡ true
  unfolding agrees find? same same_set any all indexes_of
  agrees-users = rw (indexes_of-none (codes "users") s.indexes f.unused.1.0.1) refl

  agrees-sessions : agrees session_model (at_0005 s) ≡ true
  unfolding agrees find? same same_set any all indexes_of
  agrees-sessions = rw (indexes_of-none (codes "sessions") s.indexes f.unused.1.1.0.1) refl

  agrees-spaces : agrees space_model (at_0005 s) ≡ true
  unfolding agrees find? same same_set any all indexes_of
  agrees-spaces = rw (indexes_of-none (codes "spaces") s.indexes f.unused.1.1.1.0.1) refl

  agrees-memberships : agrees space_membership_model (at_0005 s) ≡ true
  unfolding agrees find? same same_set any all indexes_of
  agrees-memberships =
      rw (indexes_of-none (codes "space_memberships") s.indexes f.unused.1.1.1.1.0.1) refl

abbrev pub at_base : Schema → Database
at_base s = record { schema = s; version = none }

-- What n steps from the base reach.
abbrev pub reached : Schema → ℕ → Database
reached s zero = at_base s
reached s (suc zero) = record { schema = at_0001 s; version = some (codes "0001_create_tmp_table") }
reached s (suc (suc zero)) = record {
  schema = at_0002 s;
  version = some (codes "0002_create_users_table");
}
reached s (suc (suc (suc zero))) = record {
  schema = at_0003 s;
  version = some (codes "0003_add_last_login_at");
}
reached s (suc (suc (suc (suc zero)))) = record {
  schema = at_0004 s;
  version = some (codes "0004_create_sessions_table");
}
reached s n = record { schema = at_0005 s; version = some (codes "0005_create_spaces") }

module _ (s : Schema) (f : IsFresh s) where
  step_up-reached : (n : ℕ) → n < 5 → step_up (reached s n) ≡ ok (reached s (suc n))
  unfolding step_up find? same
  step_up-reached zero h = rw (upgrade_0001_lem s f) refl
  step_up-reached (suc zero) h = rw (upgrade_0002_lem s f) refl
  step_up-reached (suc (suc zero)) h = rw (upgrade_0003_lem s f) refl
  step_up-reached (suc (suc (suc zero))) h = rw (upgrade_0004_lem s f) refl
  step_up-reached (suc (suc (suc (suc zero)))) h = rw (upgrade_0005_lem s f) refl
  step_up-reached (suc (suc (suc (suc (suc n))))) h = absurd (omega arith)

  pub upgrade_by-reached :
      (n k : ℕ) → n + k ≤ 5 → upgrade_by n (reached s k) ≡ ok (reached s (k + n))
  unfolding upgrade_by
  upgrade_by-reached zero k h = ap (λ n. ok (reached s n)) (omega arith)
  upgrade_by-reached (suc n) k h =
      rw (step_up-reached k (omega arith))
        (upgrade_by-reached n (suc k) (omega arith) ∙ ap (λ m. ok (reached s m)) (omega arith))

  -- From a database without a revision in which nothing has a name that the revisions use or refers to
  -- one of their tables, five steps up succeed and reach revision 0005, behind which there is no
  -- further step. The schema then agrees with every model of app/models.py, and the tables and
  -- indexes that were there before are still there, unchanged.
  pub upgrade-head :
      (d : Database) × (upgrade_by 5 (at_base s) ≡ ok d)
      × (d.version ≡ some (codes "0005_create_spaces"))
      × (step_up d ≡ raised value_error)
      × All (λ m. agrees m d.schema ≡ true) metadata
      × ((tables : List Table) × (d.schema.tables ≡ tables ++ s.tables))
      × ((indexes : List Index) × (d.schema.indexes ≡ indexes ++ s.indexes))
  unfolding step_up find? same
  upgrade-head = (
    reached s 5,
    upgrade_by-reached 5 0 (omega arith),
    refl,
    refl,
    (
      agrees-tmp s f,
      (agrees-users s f, (agrees-sessions s f, (agrees-spaces s f, (agrees-memberships s f, tt)))),
    ),
    (_ ∷ _ ∷ _ ∷ _ ∷ _ ∷ [], refl),
    (_ ∷ _ ∷ [], refl),
  )
