-- ===== src/Store/Models/Refinement.antt =====
-- The two implementations of a table model refine the map of Store/Models/Contract.antt.
use flash_sale_system.Common.{◌==ℤ◌, ◌≡◌, refl, sym, ap, ◌∙◌, inl, inr, ℤ, ok, Result-cases, arith}
use flash_sale_system.Store.{Table, Conn}
use flash_sale_system.Store.Sql.{IsTable, IsSql}
use flash_sale_system.Store.Deletion.{marked, written_dead, soft_update, soft_rows}
use flash_sale_system.Store.Models.{
  update_with_version_unread, delete_soft_unread, reading_writes, unread_writes, update_unread,
}
use flash_sale_system.Store.Models.Contract.{
  IsMap, view, exec_update, exec_delete, insert_maps, update_runs, delete_runs, delete_unread_runs,
  swap_reading, swap_unread, swap_marked,
}

module _ {Db Row : Type 0} (t : Table Row) (conn : Conn Db Row) (tab : IsTable t)
    (sql : IsSql t conn) where
  reading_writes-IsMap : IsMap t conn tab sql (reading_writes t conn)
  reading_writes-IsMap = record {
    inserts = insert_maps t conn tab sql;
    updates = λ new d res h i.
        let run = update_runs t conn tab sql new d res h in
        ap (λ p. view t conn tab sql p.1 i) run
        ∙ exec_update t conn tab sql (λ r. t.id r ==ℤ t.id new) new d res
            (sym (ap (λ p. p.0) run) ∙ h) i;
    swaps = swap_reading t conn tab sql;
    hides = λ now r d h.
        let (current, moved) = swap_marked t conn tab sql now r d _ (
          swap_reading t conn tab sql (marked t conn tab sql now r) d
            (soft_update t conn tab sql now r d h)) in
        (
          current,
          (λ i. ap (λ d'. view t conn tab sql d' i) (soft_rows t conn tab sql now r d) ∙ moved i),
          written_dead t conn tab sql now r d,
        );
    removes = λ i d h j.
        let (res, done, run) = delete_runs t conn tab sql i d h in
        ap (λ d'. view t conn tab sql d' j) run ∙ exec_delete t conn tab sql i d res done j;
  }

  unread_soft :
      (now : ℤ) (r : Row) (d : Db)
      → (delete_soft_unread t conn now r d).0 ≡ ok tt
      → ((update_with_version_unread t conn (marked t conn tab sql now r) d).0 ≡ ok tt)
        × ((delete_soft_unread t conn now r d).1
            ≡ (update_with_version_unread t conn (marked t conn tab sql now r) d).1)
  unfolding delete_soft_unread
  unread_soft now r d h = (
    elim (Result-cases (update_with_version_unread t conn (marked t conn tab sql now r) d).0) [
      | inl (_, e) ↦ e
      | inr failed ↦ absurd (ground arith)
    ],
    refl,
  )

  unread_writes-IsMap : IsMap t conn tab sql (unread_writes t conn)
  unfolding update_unread
  unread_writes-IsMap = record {
    inserts = insert_maps t conn tab sql;
    updates = λ new d res h i. exec_update t conn tab sql (λ r. t.id r ==ℤ t.id new) new d res h i;
    swaps = swap_unread t conn tab sql;
    hides = λ now r d h.
        let (done, same) = unread_soft now r d h in
        let (current, moved) =
          swap_marked t conn tab sql now r d _
            (swap_unread t conn tab sql (marked t conn tab sql now r) d done) in
        (
          current,
          (λ i. ap (λ d'. view t conn tab sql d' i) same ∙ moved i),
          written_dead t conn tab sql now r d,
        );
    removes = λ i d h j.
        let (res, done, run) = delete_unread_runs t conn tab sql i d h in
        ap (λ d'. view t conn tab sql d' j) run ∙ exec_delete t conn tab sql i d res done j;
  }

  -- Both implementations of a table model refine a map from ids to rows: an insert adds the new row
  -- under its id; an update rewrites the row of its id; `UpdateWithVersion` swaps a row of the caller's
  -- id and version, which there must be, for the caller's; `DeleteSoft` swaps such a row for one that is
  -- seen as deleted; and a delete removes the row of its id. Of each, the statement is about the calls
  -- that succeed.
  pub models_refine-IsMap :
      IsMap t conn tab sql (reading_writes t conn) × IsMap t conn tab sql (unread_writes t conn)
  models_refine-IsMap = (reading_writes-IsMap, unread_writes-IsMap)
