-- ===== src/Store/Machine.antt =====
-- State machines that live in a table behind the optimistic lock. A request reads a row, decides, and
-- writes by `UpdateWithVersion`; between its read and its write any number of other requests may run.
-- It is assumed of the machine that a row's version is the number of steps behind it.
use flash_sale_system.Common.{
  true, ◌≡◌, refl, sym, ap, ◌∙◌, ◌⊎◌, inl, inr, ℕ, suc, ◌≤◌, some, List, ◌∷◌, ℤ, pos, tests, i64,
  ◌+ℤ◌, Bool-cases, Option-cases, arith,
}
use flash_sale_system.Store.{Table, Conn, is_current, update_with_version, insert_row}
use flash_sale_system.Store.Sql.{IsTable, IsSql}
use flash_sale_system.Store.Version.{written}
use flash_sale_system.Store.Ranked.{In, IsRanked, Moves, i64-suc}
use flash_sale_system.Store.Keys.{
  row_of, row_of-id, update_lookup, insert_lookup, inserted_row, version-written,
}

module _ {Db Row : Type 0} (t : Table Row) (conn : Conn Db Row) (tab : IsTable t)
    (sql : IsSql t conn) (state : Row → ℤ) {Step : ℤ → ℤ → Type 0} {rank : ℤ → ℕ}
    (ranked : IsRanked Step rank)
    (kept : (new : Row) (d : Db) (r : Row) (a : ℤ)
      → Step a (state new)
      → state (written t conn tab sql new d r) ≡ state new) where
  -- Every row's version is its state's rank. A copy that some request has read is of a row that is
  -- there; if its version is still the row's, then so is its state.
  pub record IsConsistent (rows : List Row) (copies : List Row) : Type 0 where
    pub counted : (i : ℤ) (r : Row) → row_of t i rows ≡ some r → t.version r ≡ pos (rank (state r))
    pub traced :
        (o : Row)
        → In o copies
        → (r : Row) × (row_of t (t.id o) rows ≡ some r)
          × (t.version o ≡ pos (rank (state o)))
          × (rank (state o) ≤ rank (state r))
          × (rank (state o) ≡ rank (state r) → state o ≡ state r)

  -- What a write makes of a row: nothing, or the state that the caller asks for, by a step.
  abbrev pub Became : Row → Row → Row → Type 0
  Became new r r' =
      (r' ≡ r)
      ⊎ (state r' ≡ state new)
        × (t.version r' ≡ pos (rank (state new)))
        × Step (state r) (state new)

  current_state :
      (rows copies : List Row) (o new r : Row) (i : ℤ)
      → IsConsistent rows copies
      → In o copies
      → t.id new ≡ t.id o
      → t.version new ≡ t.version o
      → row_of t i rows ≡ some r
      → is_current t new r ≡ true
      → state o ≡ state r
  current_state rows copies o new r i inv copy same_id same_version found current =
      let (row, there, version, below, agree) = inv.traced o copy in
      let own_id : t.id r ≡ t.id o = grind tests in
      let own_version : t.version r ≡ t.version o = grind tests in
      let key : i ≡ t.id o = sym (row_of-id t i rows r found) ∙ own_id in
      let same_row : row ≡ r =
        ground (arith, sym there ∙ ap (λ k. row_of t k rows) (sym key) ∙ found) in
      let row_version = inv.counted i r found in
      agree (ground (arith, ap state same_row)) ∙ ap state same_row

  write_row :
      (d : Db) (copies : List Row) (o new r : Row) (i : ℤ)
      → IsConsistent (sql.rows d) copies
      → In o copies
      → Step (state o) (state new)
      → t.id new ≡ t.id o
      → t.version new ≡ t.version o
      → row_of t i (sql.rows d) ≡ some r
      → (r' : Row) × (row_of t i (sql.rows (update_with_version t conn new d).1) ≡ some r')
        × Became new r r'
  write_row d copies o new r i inv copy step same_id same_version found =
      elim (update_lookup t conn tab sql new d i) [
        | inl same ↦ (r, same ∙ found, inl refl)
        | inr run ↦ elim (Bool-cases (is_current t new r)) [
          | inr stale ↦ (r, run ∙ ground arith, inl refl)
          | inl current ↦
              let agree =
                current_state (sql.rows d) copies o new r i inv copy same_id same_version found
                  current in
              (
                written t conn tab sql new d r,
                run ∙ ground arith,
                inr (
                  kept new d r (state o) step,
                  version-written t conn tab sql new d r
                      ∙ ap (λ v. i64 (v +ℤ pos 1)) (same_version ∙ (inv.traced o copy).2)
                      ∙ i64-suc (rank (state o)) (ranked.rank-le (state o))
                      ∙ ap pos (sym (ranked.rank-step (state o) (state new) step)),
                  rw (← agree) step,
                ),
              )
        ]
      ]

  -- From one table to a later one, each row stays or goes one step, and none disappears.
  abbrev pub Evolves : List Row → List Row → Type 0
  Evolves rows rows' =
      (i : ℤ) (r : Row)
      → row_of t i rows ≡ some r
      → (r' : Row) × (row_of t i rows' ≡ some r') × Moves Step (state r) (state r')

  write_from :
      (d : Db) (new r' : Row) (i : ℤ)
      → row_of t i (sql.rows (update_with_version t conn new d).1) ≡ some r'
      → (r : Row) × (row_of t i (sql.rows d) ≡ some r)
  write_from d new r' i found = elim (Option-cases (row_of t i (sql.rows d))) [
    | inr there ↦ there
    | inl absent ↦ absurd (ground (arith, update_lookup t conn tab sql new d i))
  ]

  Became-counted :
      (new r r' : Row)
      → t.version r ≡ pos (rank (state r))
      → Became new r r'
      → t.version r' ≡ pos (rank (state r'))
  Became-counted new r r' h (inl same) = rw same h
  Became-counted new r r' h (inr (e, v, step)) = v ∙ ap (λ s. pos (rank s)) (sym e)

  Became-traced :
      (o new r r' : Row)
      → rank (state o) ≤ rank (state r)
      → (rank (state o) ≡ rank (state r) → state o ≡ state r)
      → Became new r r'
      → (rank (state o) ≤ rank (state r')) × (rank (state o) ≡ rank (state r') → state o ≡ state r')
  Became-traced o new r r' below agree (inl same) = rw same (below, agree)
  Became-traced o new r r' below agree (inr (e, v, step)) =
      let higher : rank (state r') ≡ suc (rank (state r)) =
        ap rank e ∙ ranked.rank-step (state r) (state new) step in
      (omega (arith, higher), λ ranks. absurd (omega (arith, higher, ranks)))

  -- A request that writes a copy of a row, in a state that a step leads to from the copy's, keeps
  -- the table and all copies consistent, also if others wrote since the copy was read; the rows of
  -- the table go one step at most.
  pub write_IsConsistent :
      (d : Db) (copies : List Row) (o new : Row)
      → IsConsistent (sql.rows d) copies
      → In o copies
      → Step (state o) (state new)
      → t.id new ≡ t.id o
      → t.version new ≡ t.version o
      → IsConsistent (sql.rows (update_with_version t conn new d).1) copies
        × Evolves (sql.rows d) (sql.rows (update_with_version t conn new d).1)
  write_IsConsistent d copies o new inv copy step same_id same_version =
      (record { counted = counts; traced = traces }, evolves)
    where
      counts :
          (i : ℤ) (r' : Row)
          → row_of t i (sql.rows (update_with_version t conn new d).1) ≡ some r'
          → t.version r' ≡ pos (rank (state r'))
      counts i r' found' =
          let (r, found) = write_from d new r' i found' in
          let (r2, found2, became) =
            write_row d copies o new r i inv copy step same_id same_version found in
          let same : r2 ≡ r' = ground (arith, sym found2 ∙ found') in
          rw (← same) (Became-counted new r r2 (inv.counted i r found) became)

      traces :
          (o2 : Row)
          → In o2 copies
          → (r : Row) × (row_of t (t.id o2) (sql.rows (update_with_version t conn new d).1)
              ≡ some r)
            × (t.version o2 ≡ pos (rank (state o2)))
            × (rank (state o2) ≤ rank (state r))
            × (rank (state o2) ≡ rank (state r) → state o2 ≡ state r)
      traces o2 copy2 =
          let (r, found, version, below, agree) = inv.traced o2 copy2 in
          let (r', found', became) =
            write_row d copies o new r (t.id o2) inv copy step same_id same_version found in
          let (below', agree') = Became-traced o2 new r r' below agree became in
          (r', found', version, below', agree')

      evolves : Evolves (sql.rows d) (sql.rows (update_with_version t conn new d).1)
      evolves i r found =
          let (r', found', became) =
            write_row d copies o new r i inv copy step same_id same_version found in
          (
            r',
            found',
            elim became [ inl same ↦ inl (ap state (sym same)) | inr (e, v, s) ↦ inr (rw e s) ],
          )

  -- A new row of version 0 in a state of rank 0.
  pub insert_IsConsistent :
      (d : Db) (copies : List Row) (new : Row)
      → IsConsistent (sql.rows d) copies
      → t.version (inserted_row t conn tab sql new d) ≡ pos 0
      → rank (state (inserted_row t conn tab sql new d)) ≡ 0
      → IsConsistent (sql.rows (insert_row t conn new d).1) copies
        × Evolves (sql.rows d) (sql.rows (insert_row t conn new d).1)
  insert_IsConsistent d copies new inv version_0 rank_0 = (
    record {
      counted = λ i r' found'. elim ((insert_lookup t conn tab sql new d i).1 r' found') [
        | inl old ↦ inv.counted i r' old
        | inr e ↦ rw e (version_0 ∙ ap pos (sym rank_0))
      ];
      traced = λ o copy.
          let (r, found, version, below, agree) = inv.traced o copy in
          (r, (insert_lookup t conn tab sql new d (t.id o)).0 r found, version, below, agree);
    },
    λ i r found. (r, (insert_lookup t conn tab sql new d i).0 r found, inl refl),
  )

  -- A request reads a row of the table.
  pub read_IsConsistent :
      (rows copies : List Row) (o : Row)
      → IsConsistent rows copies
      → row_of t (t.id o) rows ≡ some o
      → IsConsistent rows (o ∷ copies)
  read_IsConsistent rows copies o inv found = record {
    counted = inv.counted;
    traced = λ x copy. elim copy [
      | inl e ↦ (
        o,
        rw e found,
        rw e (inv.counted (t.id o) o found),
        rw e (omega arith),
        λ ranks. ap state e,
      )
      | inr earlier ↦ inv.traced x earlier
    ];
  }
