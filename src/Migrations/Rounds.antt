-- ===== src/Migrations/Rounds.antt =====
-- src/model/table/VersionsManager.cpp: what the two loops of migrate do.
use gradido_blockchain_conne.Base.{
  ℕ, String, Bool, true, false, List, [], ◌∷◌, ◌++◌, ltb, if◌then◌else◌, ◌≡◌, refl, sym, ap, ◌∙◌,
  subst, arith, eq_refl,
}
use gradido_blockchain_conne.Platform.{Reply, answer, fails}
use gradido_blockchain_conne.Exec.{
  Exception, Result, ok, pure, throw, ◌>>=◌, ◌>>◌, lift, missing_migration_exception,
}
use gradido_blockchain_conne.Exec.Rules.{bind-ok}
use gradido_blockchain_conne.Migrations.{
  Connector, Db, Statement, create_table, insert_migration, effect, executed, run_statement,
  contains, create_table_if_not_exist, last_schema_version, save_migration, existing_tables,
  create_missing,
}

-- The rows are up to date and name these tables.
pub data Names : List (String × ℕ) → List String → Type 0 where
  none_named : Names [] []
  named :
      {rows : List (String × ℕ)} {names : List String} (name : String) (version last : ℕ)
      → last_schema_version name ≡ ok last
      → ltb version last ≡ false
      → Names rows names
      → Names ((name, version) ∷ rows) (name ∷ names)

pub Names-append :
    {xs ys : List (String × ℕ)} {a b : List String}
    → Names xs a
    → Names ys b
    → Names (xs ++ ys) (a ++ b)
Names-append none_named k = k
Names-append (named n v l known new h) k = named n v l known new (Names-append h k)

pub contains-left :
    (t : String) (xs ys : List String) → contains t xs ≡ true → contains t (xs ++ ys) ≡ true
unfolding contains
contains-left t [] ys h = ground arith
contains-left t (x ∷ xs) ys h = ground (arith, contains-left t xs ys)

pub contains-right :
    (t : String) (xs ys : List String) → contains t ys ≡ true → contains t (xs ++ ys) ≡ true
unfolding contains
contains-right t [] ys h = h
contains-right t (x ∷ xs) ys h = ground (arith, contains-right t xs ys h)

pub contains-insert :
    (t z : String) (xs ys : List String)
    → contains t (xs ++ ys) ≡ true
    → contains t (xs ++ z ∷ ys) ≡ true
unfolding contains
contains-insert t z [] ys h = ground arith
contains-insert t z (x ∷ xs) ys h = ground (arith, contains-insert t z xs ys)

pub contains_self : (t : String) (ys : List String) → contains t (t ∷ ys) ≡ true
unfolding contains
contains_self t ys = rw (eq_refl t)

module _ (C : Connector) where
  pub Names-existing :
      {rows : List (String × ℕ)} {names : List String}
      → Names rows names
      → (d : Db C) → existing_tables C rows d ≡ (ok names, d)
  unfolding existing_tables
  Names-existing none_named d = refl
  Names-existing (named n v l known new h) d = rw (known, new, Names-existing h d)

  pub lift-ok :
      {A : Type 0} (r : Result A) (d d' : Db C) (a : A)
      → lift r d ≡ (ok a, d')
      → (r ≡ ok a) × (d ≡ d')
  lift-ok r d d' a h = (ap (λ p. p.0) h, ap (λ p. p.1) h)

  guard-ok :
      (b : Bool) (e : Exception) (d d' : Db C) (u : Unit {0})
      → (if b then throw {S = Db C} {A = Unit {0}} e else pure tt) d ≡ (ok u, d')
      → (b ≡ false) × (d ≡ d')
  guard-ok true e d d' u h = cc
  guard-ok false e d d' u h = (refl, ap (λ p. p.1) h)

  pub existing-Names :
      (rows : List (String × ℕ)) (d d' : Db C) (names : List String)
      → existing_tables C rows d ≡ (ok names, d')
      → Names rows names × (d ≡ d')
  unfolding existing_tables
  existing-Names [] d d' names h =
      let e : Path (List String) [] names = cc h in (subst (Names []) e none_named, ap (λ p. p.1) h)
  existing-Names ((name, version) ∷ rest) d d' names h =
      let (last, d₁, known, h₁) = bind-ok (lift (last_schema_version name)) _ d h in
      let (u, d₂, new, h₂) =
        bind-ok
          (if ltb version last
            then throw (missing_migration_exception "migration missing" name version)
            else pure tt)
          _ d₁ h₁ in
      let (more, d₃, others, h₃) = bind-ok (existing_tables C rest) _ d₂ h₂ in
      let (others_named, same) = existing-Names rest d₂ d₃ more others in
      let e : name ∷ more ≡ names = cc h₃ in
      let read = lift-ok (last_schema_version name) d d₁ last known in
      let passed = guard-ok (ltb version last) _ d₁ d₂ u new in
      (
        subst (Names ((name, version) ∷ rest)) e
            (named name version last read.0 passed.0 others_named),
        read.1 ∙ passed.1 ∙ same ∙ ap (λ p. p.1) h₃,
      )

  -- What the loop over the required tables has added.
  pub record Completes (existing names : List String) (d d' : Db C) : Type 0 where
    pub rows : List (String × ℕ)
    pub added : List String
    pub recorded : d'.migrations ≡ d.migrations ++ rows
    pub valid : Names rows added
    pub complete : (t : String) → contains t names ≡ true → contains t (existing ++ added) ≡ true
    pub kept : (t : String) → contains t d.tables ≡ true → contains t d'.tables ≡ true

  pub create_missing-none :
      (session : C.Session) (existing names : List String) (d : Db C)
      → ((t : String) → contains t names ≡ true → contains t existing ≡ true)
      → create_missing C session existing names d ≡ (ok tt, d)
  unfolding create_missing contains
  create_missing-none session existing [] d h = refl
  create_missing-none session existing (name ∷ names) d h =
      let there : contains name existing ≡ true = h name (contains_self name names) in
      rw there (
        create_missing-none session existing names d
          (λ t k. h t (contains-right t (name ∷ []) names k)))

  -- One round of that loop: the table is there, or it is created and recorded.
  pub data Round (existing : List String) (name : String) (d d' : Db C) : Type 0 where
    skipped : contains name existing ≡ true → d' ≡ d → Round existing name d d'
    created :
        (last : ℕ)
        → last_schema_version name ≡ ok last
        → d'.migrations ≡ d.migrations ++ (name, last) ∷ []
        → ((t : String) → contains t d.tables ≡ true → contains t d'.tables ≡ true)
        → Round existing name d d'

  effect-kept :
      (b : Bool) (name t : String) (d : Db C)
      → contains t d.tables ≡ true
      → contains t (if b then d else record d { tables = d.tables ++ name ∷ [] }).tables ≡ true
  effect-kept true name t d h = h
  effect-kept false name t d h = contains-left t d.tables (name ∷ []) h

  effect-migrations :
      (b : Bool) (name : String) (d : Db C)
      → (if b then d else record d { tables = d.tables ++ name ∷ [] }).migrations ≡ d.migrations
  effect-migrations true name d = refl
  effect-migrations false name d = refl

  -- A statement that does not throw has its effect, with some connections.
  pub run_statement-ok :
      (session : C.Session) (statement : Statement) (d d' : Db C) (u : Unit {0})
      → run_statement C session statement d ≡ (ok u, d')
      → (w : C.Connections) × (effect statement (record d { connections = w }) ≡ d')
  run_statement-ok session statement d d' u h = go (C.execute session statement d.connections) h
    where
      go :
          (r : Reply (Unit {0}) × C.Connections)
          → executed statement d r ≡ (ok u, d')
          → (w : C.Connections) × (effect statement (record d { connections = w }) ≡ d')
      go (answer v, w) e = (w, ap (λ p. p.1) e)
      go (fails x, w) e = cc

  pub create_table-ok :
      (session : C.Session) (name : String) (d d' : Db C) (u : Unit {0})
      → create_table_if_not_exist C session name d ≡ (ok u, d')
      → (d'.migrations ≡ d.migrations)
        × (contains name d'.tables ≡ true)
        × ((t : String) → contains t d.tables ≡ true → contains t d'.tables ≡ true)
  create_table-ok session name d d' u h =
      let (w, e) = run_statement-ok session (create_table name) d d' u h in
      let v : Db C = record d { connections = w } in
      (
        sym (ap (λ x. x.migrations) e) ∙ effect-migrations (contains name d.tables) name v,
        subst (λ x. contains name x.tables ≡ true) e (there w (contains name d.tables) refl),
        λ t k.
            subst (λ x. contains t x.tables ≡ true) e
              (effect-kept (contains name d.tables) name t v k),
      )
    where
      there :
          (w : C.Connections) (b : Bool)
          → contains name d.tables ≡ b
          → contains name
              (if b
                then record d { connections = w }
                else record d { connections = w; tables = d.tables ++ name ∷ [] }).tables
            ≡ true
      there w true e = e
      there w false e = contains-right name d.tables (name ∷ []) (contains_self name [])

  pub round-Round :
      (session : C.Session) (b : Bool) (existing : List String) (name : String) (d d' : Db C)
      (u : Unit {0})
      → contains name existing ≡ b
      → (if b
            then pure tt
            else lift (last_schema_version name) >>= λ last.
                create_table_if_not_exist C session name >> save_migration C session name last)
          d
        ≡ (ok u, d')
      → Round existing name d d'
  round-Round session true existing name d d' u e h = skipped e (sym (ap (λ p. p.1) h))
  round-Round session false existing name d d' u e h =
      let (last, d₁, known, rest) =
        bind-ok (lift (last_schema_version name))
          (λ last. create_table_if_not_exist C session name >> save_migration C session name last) d
          h in
      let read = lift-ok (last_schema_version name) d d₁ last known in
      let (v, d₂, made, saved) =
        bind-ok (create_table_if_not_exist C session name) (λ v. save_migration C session name last)
          d₁ rest in
      let (same, there, kept) = create_table-ok session name d₁ d₂ v made in
      let (w, row) = run_statement-ok session (insert_migration name last) d₂ d' u saved in
      created last read.0
        (sym (ap (λ x. x.migrations) row)
          ∙ ap (λ l. l ++ (name, last) ∷ []) (same ∙ sym (ap (λ x. x.migrations) read.1)))
        (λ t k.
          subst (λ x. contains t x.tables ≡ true) row
            (kept t (subst (λ x. contains t x.tables ≡ true) read.1 k)))
