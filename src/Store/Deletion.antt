-- ===== src/Store/Deletion.antt =====
-- `DeleteSoft` (homestayOrderModel_gen.go): a row is marked, not removed.
use flash_sale_system.Common.{
  ◌≡◌, refl, inl, inr, false, map, ◌<◌, ℤ, pos, fun_ext, Result-cases, ok, count, if◌then◌else◌,
  arith, ap, ◌∙◌, i64, ◌+ℤ◌,
}
use flash_sale_system.Store.{
  Table, Conn, is_live, is_current, next_version, update_with_version, delete_soft, del_state_yes,
}
use flash_sale_system.Store.Sql.{IsTable, IsSql}
use flash_sale_system.Store.Version.{written, update_with_version_done}

module _ {Db Row : Type 0} (t : Table Row) (conn : Conn Db Row) (tab : IsTable t)
    (sql : IsSql t conn) where
  -- The row that `DeleteSoft` writes for `r` at the time `now`.
  abbrev pub marked : ℤ → Row → Row
  marked now r = t.with_delete_time now (t.with_del_state del_state_yes r)

  pub current_marked : (now : ℤ) (r : Row) → is_current t (marked now r) ≡ is_current t r
  current_marked now r = fun_ext (λ x.
      rw
        (
          tab.id-with_delete_time now (t.with_del_state del_state_yes r),
          tab.version-with_delete_time now (t.with_del_state del_state_yes r),
          tab.id-with_del_state del_state_yes r,
          tab.version-with_del_state del_state_yes r,
        )
        refl)

  pub written_dead :
      (now : ℤ) (r : Row) (d : Db) (x : Row)
      → is_live t (written t conn tab sql (marked now r) d x) ≡ false
  unfolding next_version
  written_dead now r d x = ground (
    arith,
    sql.del_state-column d (t.assign (next_version t (marked now r)) x),
    tab.del_state-assign (next_version t (marked now r)) x,
    tab.del_state-with_version (i64 (t.version (marked now r) +ℤ pos 1)) (marked now r),
    tab.del_state-with_delete_time now (t.with_del_state del_state_yes r),
    tab.del_state-with_del_state del_state_yes r,
  )

  pub soft_update :
      (now : ℤ) (r : Row) (d : Db)
      → (delete_soft t conn now r d).0 ≡ ok tt
      → (update_with_version t conn (marked now r) d).0 ≡ ok tt
  unfolding delete_soft
  soft_update now r d h = elim (Result-cases (update_with_version t conn (marked now r) d).0) [
    | inl (tt, e) ↦ e
    | inr failed ↦ absurd (ground arith)
  ]

  pub soft_rows :
      (now : ℤ) (r : Row) (d : Db)
      → (delete_soft t conn now r d).1 ≡ (update_with_version t conn (marked now r) d).1
  unfolding delete_soft
  soft_rows now r d = refl

  -- When `DeleteSoft` succeeds, some row had the caller's id and version; all such rows are still in
  -- the table but are seen as deleted, and every other row is as it was.
  pub delete_soft_done :
      (now : ℤ) (r : Row) (d : Db)
      → (delete_soft t conn now r d).0 ≡ ok tt
      → (sql.rows (delete_soft t conn now r d).1
          ≡ map
              (λ x. if is_current t r x then written t conn tab sql (marked now r) d x else x)
              (sql.rows d))
        × (0 < count (is_current t r) (sql.rows d))
        × ((x : Row) → is_live t (written t conn tab sql (marked now r) d x) ≡ false)
  delete_soft_done now r d h =
      let (rows, current) =
        update_with_version_done t conn tab sql (marked now r) d (soft_update now r d h) in
      (
        ap sql.rows (soft_rows now r d)
            ∙ rows
            ∙ ap
                (λ p.
                  map (λ x. if p x then written t conn tab sql (marked now r) d x else x)
                    (sql.rows d))
                (current_marked now r),
        omega (arith, current, ap (λ p. count p (sql.rows d)) (current_marked now r)),
        written_dead now r d,
      )
