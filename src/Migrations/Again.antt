-- ===== src/Migrations/Again.antt =====
-- src/model/table/VersionsManager.cpp: migrating a database twice.
use mathlib.Core.List.{append-nil, append_assoc}
use gradido_blockchain_conne.Base.{
  ℕ, String, true, false, List, [], ◌∷◌, ◌++◌, str_eq, ltb, if◌then◌else◌, ◌≡◌, refl, sym, ap, ◌∙◌,
  subst, arith, eq_iff, Bool-cases, ◌⊎◌, inl, inr,
}
use gradido_blockchain_conne.Platform.{Reply, answer, fails}
use gradido_blockchain_conne.Exec.{
  Exec, Result, ok, returned, thrown, aborted, resume, pure, ◌>>=◌, ◌>>◌, lift,
}
use gradido_blockchain_conne.Exec.Rules.{bind-ok}
use gradido_blockchain_conne.Migrations.{
  Connector, Db, create_table, select_migrations, executed, connect, run_statement, all_rows,
  load_all, contains, create_table_if_not_exist, last_schema_version, save_migration,
  existing_tables, create_missing, required_tables, migrate,
}
use gradido_blockchain_conne.Migrations.Rounds.{
  Names, named, none_named, Names-append, Names-existing, existing-Names, contains-left,
  contains-right, contains-insert, contains_self, Completes, create_missing-none, skipped, created,
  round-Round, create_table-ok, run_statement-ok,
}

contains-cons :
    (t name : String) (names : List String)
    → contains t (name ∷ names) ≡ true
    → (name ≡ t) ⊎ (contains t names ≡ true)
unfolding contains
contains-cons t name names h = elim (Bool-cases (str_eq name t)) [
  | inl e ↦ inl ((eq_iff name t).0 e)
  | inr e ↦ inr (ground arith)
]

current : (n : ℕ) → ltb n n ≡ false
current n = ground arith

module _ (C : Connector) where
  create_missing-Completes :
      (session : C.Session) (existing names : List String) (d d' : Db C) (u : Unit {0})
      → create_missing C session existing names d ≡ (ok u, d')
      → Completes C existing names d d'
  unfolding create_missing
  create_missing-Completes session existing [] d d' u h =
      let same : d ≡ d' = ap (λ p. p.1) h in
      record {
        rows = [];
        added = [];
        recorded = ap (λ x. x.migrations) (sym same) ∙ sym (append-nil d.migrations);
        valid = none_named;
        complete = λ t k. contains-right t existing [] k;
        kept = λ t k. subst (λ x. contains t x.tables ≡ true) same k;
      }
  create_missing-Completes session existing (name ∷ names) d d' u h =
      let (v, d₁, stepped, rest) =
        bind-ok
          (if contains name existing
            then pure tt
            else lift (last_schema_version name) >>= λ last.
                create_table_if_not_exist C session name >> save_migration C session name last)
          (λ v. create_missing C session existing names) d h in
      let ih = create_missing-Completes session existing names d₁ d' u rest in
      elim (round-Round C session (contains name existing) existing name d d₁ v refl stepped) [
        | skipped e same ↦ record {
          rows = ih.rows;
          added = ih.added;
          recorded = ih.recorded ∙ ap (λ x. x.migrations ++ ih.rows) same;
          valid = ih.valid;
          complete = λ t k. elim (contains-cons t name names k) [
            | inl p ↦
                contains-left t existing ih.added (subst (λ x. contains x existing ≡ true) p e)
            | inr q ↦ ih.complete t q
          ];
          kept = λ t k. ih.kept t (subst (λ x. contains t x.tables ≡ true) (sym same) k);
        }
        | created last known recorded kept ↦ record {
          rows = (name, last) ∷ ih.rows;
          added = name ∷ ih.added;
          recorded =
              ih.recorded
              ∙ ap (λ l. l ++ ih.rows) recorded
              ∙ append_assoc d.migrations ((name, last) ∷ []) ih.rows;
          valid = named name last last known (current last) ih.valid;
          complete = λ t k. elim (contains-cons t name names k) [
            | inl p ↦
                contains-right t existing (name ∷ ih.added)
                  (subst (λ x. contains x (name ∷ ih.added) ≡ true) p (contains_self name ih.added))
            | inr q ↦ contains-insert t name existing ih.added (ih.complete t q)
          ];
          kept = λ t k. ih.kept t (kept t k);
        }
      ]

  -- What a migration asks of a database that is up to date.
  abbrev pub checks : Exec (Db C) (Unit {0})
  checks = connect C >>= λ session.
      create_table_if_not_exist C session "migration"
      >> (connect C >>= λ own. run_statement C own select_migrations)

  -- The tables and the rows say that all required tables are there.
  record Current (tables : List String) (migrations : List (String × ℕ)) : Type 0 where
    table : contains "migration" tables ≡ true
    names : List String
    named_by : Names migrations names
    complete : (t : String) → contains t required_tables ≡ true → contains t names ≡ true

  -- The two calls end alike, and leave the tables and the rows.
  abbrev pub Alike : Db C → Result (Unit {0}) × Db C → Result (Unit {0}) × Db C → Type 0
  Alike d l r = (l ≡ r) × (r.1.tables ≡ d.tables) × (r.1.migrations ≡ d.migrations)

  abbrev rest : C.Session → List (String × ℕ) → Exec (Db C) (Unit {0})
  rest session rows =
      existing_tables C rows >>= λ existing. create_missing C session existing required_tables

  module _ (session : C.Session) where
    rest-Current :
        (d : Db C) → Current d.tables d.migrations → rest session d.migrations d ≡ (ok tt, d)
    rest-Current d c = rw (
      Names-existing C c.named_by d,
      create_missing-none C session c.names required_tables d c.complete,
    )

    select-Alike :
        (d : Db C) (r : Reply (Unit {0}) × C.Connections)
        → Current d.tables d.migrations
        → Alike d
            (resume (resume (executed select_migrations d r) (λ u. all_rows C)) (rest session))
            (executed select_migrations d r)
    select-Alike d (answer u, w) c = (rest-Current (record d { connections = w }) c, refl, refl)
    select-Alike d (fails e, w) c = (refl, refl, refl)

    load-Alike :
        (d : Db C) (o : Result C.Session)
        → Current d.tables d.migrations
        → Alike d
            (resume
              (resume (o, d) (λ own. run_statement C own select_migrations >> all_rows C))
              (rest session))
            (resume (o, d) (λ own. run_statement C own select_migrations))
    load-Alike d (ok own) c = select-Alike d (C.execute own select_migrations d.connections) c
    load-Alike d (returned x) c = (refl, refl, refl)
    load-Alike d (thrown e) c = (refl, refl, refl)
    load-Alike d aborted c = (refl, refl, refl)

    loaded-Alike :
        (d : Db C)
        → Current d.tables d.migrations
        → Alike d
            ((load_all C >>= rest session) d)
            ((connect C >>= λ own. run_statement C own select_migrations) d)
    loaded-Alike d c =
        load-Alike (record d { connections = (C.get_connection d.connections).1 })
          (C.get_connection d.connections).0 c

    create-Alike :
        (d : Db C) (r : Reply (Unit {0}) × C.Connections)
        → Current d.tables d.migrations
        → Alike d
            (resume (executed (create_table "migration") d r) (λ u. load_all C >>= rest session))
            (resume
              (executed (create_table "migration") d r)
              (λ u. connect C >>= λ own. run_statement C own select_migrations))
    create-Alike d (answer u, w) c = rw c.table (loaded-Alike (record d { connections = w }) c)
    create-Alike d (fails e, w) c = (refl, refl, refl)

  migrate-Alike :
      (d : Db C) (o : Result C.Session)
      → Current d.tables d.migrations
      → Alike d
          (resume
            (o, d)
            (λ session.
              create_table_if_not_exist C session "migration" >> (load_all C >>= rest session)))
          (resume
            (o, d)
            (λ session.
              create_table_if_not_exist C session "migration"
              >> (connect C >>= λ own. run_statement C own select_migrations)))
  migrate-Alike d (ok session) c =
      create-Alike session d (C.execute session (create_table "migration") d.connections) c
  migrate-Alike d (returned x) c = (refl, refl, refl)
  migrate-Alike d (thrown e) c = (refl, refl, refl)
  migrate-Alike d aborted c = (refl, refl, refl)

  load_all-ok :
      (d d' : Db C) (rows : List (String × ℕ))
      → load_all C d ≡ (ok rows, d')
      → (rows ≡ d'.migrations) × (d.tables ≡ d'.tables)
  load_all-ok d d' rows h =
      let (own, d₁, entered, h₁) =
        bind-ok (connect C) (λ own. run_statement C own select_migrations >> all_rows C) d h in
      let (u, d₂, selected, read) =
        bind-ok (run_statement C own select_migrations) (λ u. all_rows C) d₁ h₁ in
      let (w, e) = run_statement-ok C own select_migrations d₁ d₂ u selected in
      let same : d₂ ≡ d' = ap (λ p. p.1) read in
      let listed : d₂.migrations ≡ rows = cc read in
      (
        sym listed ∙ ap (λ x. x.migrations) same,
        ap (λ p. p.1.tables) entered ∙ ap (λ x. x.tables) (e ∙ same),
      )

  -- A migration that succeeds leaves a database that is up to date.
  migrate-Current : (d d' : Db C) → migrate C d ≡ (ok tt, d') → Current d'.tables d'.migrations
  unfolding migrate
  migrate-Current d d' h =
      let (session, d₁, entered, h₁) =
        bind-ok (connect C)
          (λ session.
            create_table_if_not_exist C session "migration" >> (load_all C >>= rest session))
          d h in
      let (u, d₂, made, h₂) =
        bind-ok (create_table_if_not_exist C session "migration") (λ u. load_all C >>= rest session)
          d₁ h₁ in
      let (rows, d₃, loaded, h₃) = bind-ok (load_all C) (rest session) d₂ h₂ in
      let (existing, d₄, found, h₄) =
        bind-ok (existing_tables C rows)
          (λ existing. create_missing C session existing required_tables) d₃ h₃ in
      let (kept_migrations, there, kept) = create_table-ok C session "migration" d₁ d₂ u made in
      let (are, tables) = load_all-ok d₂ d₃ rows loaded in
      let (names, same) = existing-Names C rows d₃ d₄ existing found in
      let c = create_missing-Completes session existing required_tables d₄ d' tt h₄ in
      let recorded : d'.migrations ≡ rows ++ c.rows =
        c.recorded ∙ ap (λ l. l ++ c.rows) (ap (λ x. x.migrations) (sym same) ∙ sym are) in
      record {
        table =
            c.kept "migration"
              (subst (λ l. contains "migration" l ≡ true) (tables ∙ ap (λ x. x.tables) same) there);
        names = existing ++ c.added;
        named_by =
            subst (λ l. Names l (existing ++ c.added)) (sym recorded) (Names-append names c.valid);
        complete = c.complete;
      }

  -- Where a migration succeeds, a second one does nothing but to connect, to create the table of the
  -- migrations if it does not exist, and to connect and select all rows. It ends as these calls end,
  -- with success or with what one of them throws, and leaves the tables and the rows as they are.
  pub migrate_again :
      (d d' : Db C) → migrate C d ≡ (ok tt, d') → Alike d' (migrate C d') (checks d')
  unfolding migrate
  migrate_again d d' h =
      migrate-Alike (record d' { connections = (C.get_connection d'.connections).1 })
        (C.get_connection d'.connections).0 (migrate-Current d d' h)
