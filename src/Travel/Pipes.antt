-- ===== src/Travel/Pipes.antt =====
-- What comes out of the pipes of `HomestayList` and `GoodBoss`, whose workers finish in any order.
use mathlib.Core.List.Perm
use mathlib.Core.List.{
  Perm, Mem, flat_map, mem-cons_of_mem, mem-cons_self, eq-or-mem_of_mem-cons, not-mem-nil,
}
use mathlib.Core.HLevel.{⊥_prop}
use mathlib.Core.Logic.Or
use flash_sale_system.Common.{
  ◌≡◌, ◌≢◌, refl, ap, sym, fun_ext, ◌∙◌, ◌⊎◌, inl, inr, ◌&&◌, ◌==ℤ◌, Option, some, none, List, [],
  ◌∷◌, ◌++◌, map, ℤ, pos, ltb_ℤ, if◌then◌else◌, Result, ok, err, panic, Error, not_found, arith,
  Result-cases, flat_map-Perm,
}
use flash_sale_system.Store.{Conn, find_one, find_page_list_by_page}
use flash_sale_system.User.Info.{PbUser}
use flash_sale_system.Travel.{Homestay, homestay_table}
use flash_sale_system.Travel.Api.{
  HomestayActivity, homestay_activity_table, HomestayView, homestay_view, preferred_type, up_status,
  item_view, reduce_views, homestay_list,
}
use flash_sale_system.Travel.Laws.{item_view-ne-err}
use flash_sale_system.Travel.Business.{
  HomestayBusinessBoss, boss_of, boss_item, bosses_of, good_boss, good_busi_type,
}

-- What an item holds.
abbrev values : {V : Type 0} → Result (List V) → List V
values (ok v) = v
values (err e) = []
values panic = []

-- A reduce phase over the items that the map phase writes, one of which may panic.
module _ {V : Type 0} (item : ℤ → Result (List V)) (reduce : List ℤ → Result (List V)) where
  record IsReduce : Type 0 where
    pub reduce-nil : reduce [] ≡ ok []
    pub reduce-cons :
        (i : ℤ) (ids : List ℤ)
        → reduce (i ∷ ids) ≡ elim (item i) [
          | ok v ↦ elim (reduce ids) [ ok vs ↦ ok (v ++ vs) | err e ↦ err e | panic ↦ panic ]
          | err e ↦ err e
          | panic ↦ panic
        ]
    pub item-ne-err : (i : ℤ) (e : Error) → item i ≢ err e

  -- The items by themselves decide: one that panics is the end, or all that they hold is there.
  abbrev Gathered : List ℤ → Result (List V) → Type 0
  Gathered ids r =
      ((i : ℤ) × Mem i ids × (item i ≡ panic) × (r ≡ panic))
      ⊎ ((vs : List V) × (r ≡ ok vs)
          × ((i : ℤ) → Mem i ids → item i ≢ panic)
          × Perm vs (flat_map (λ i. values (item i)) ids))

  reduce-cases :
      IsReduce
      → (ids : List ℤ)
      → ((i : ℤ) × Mem i ids × (item i ≡ panic) × (reduce ids ≡ panic))
        ⊎ (reduce ids ≡ ok (flat_map (λ i. values (item i)) ids))
  unfolding flat_map
  reduce-cases is [] = inr is.reduce-nil
  reduce-cases is (i ∷ ids) =
      let run = is.reduce-cons i ids in
      elim (Result-cases (item i)) [
        | inl (v, e) ↦ elim (reduce-cases is ids) [
          | inl (j, among, bad, behind) ↦ inl (j, mem-cons_of_mem i among, bad, ground arith)
          | inr behind ↦ inr (ground arith)
        ]
        | inr (inl (x, e)) ↦ absurd (is.item-ne-err i x e)
        | inr (inr e) ↦ inl (i, mem-cons_self, e, ground arith)
      ]

  reduce-calm :
      IsReduce
      → (ids : List ℤ) (vs : List V) → reduce ids ≡ ok vs
      → (i : ℤ) → Mem i ids
      → item i ≢ panic
  reduce-calm is [] vs run i among bad = not-mem-nil among
  reduce-calm is (j ∷ ids) vs run i among bad =
      let step = is.reduce-cons j ids in
      elim (Result-cases (item j)) [
        | inl (v, e) ↦ elim (Result-cases (reduce ids)) [
          | inl (ws, behind) ↦
              Or.elim ⊥_prop (eq-or-mem_of_mem-cons among) (λ same. ground (arith, ap item same))
                (λ later. reduce-calm is ids ws behind i later bad)
          | inr failed ↦ ground arith
        ]
        | inr failed ↦ ground arith
      ]

  -- In whatever order the workers finish.
  reduce-Gathered :
      IsReduce → (shuffled ids : List ℤ) → Perm shuffled ids → Gathered ids (reduce shuffled)
  reduce-Gathered is shuffled ids same = elim (reduce-cases is shuffled) [
    | inl (i, among, bad, run) ↦ inl (i, Perm.subset same i among, bad, run)
    | inr run ↦ inr (
      _,
      run,
      (λ i among. reduce-calm is shuffled _ run i (Perm.subset (Perm.symm same) i among)),
      flat_map-Perm (λ i. values (item i)) shuffled ids same,
    )
  ]

-- The views of a homestay that was found.
abbrev pub found_views : {Yuan : Type 0} → (ℤ → Yuan) → Result Homestay → List (HomestayView Yuan)
found_views fen2yuan (ok h) = homestay_view fen2yuan h ∷ []
found_views fen2yuan (err e) = []
found_views fen2yuan panic = []

module _ {Db Yuan : Type 0} (homestays : Conn Db Homestay) (fen2yuan : ℤ → Yuan)
    (activities : Conn Db HomestayActivity) (shuffle : List ℤ → List ℤ)
    (shuffles : (ids : List ℤ) → Perm (shuffle ids) ids) where
  item_view-panics :
      (r : Result Homestay)
      → item_view homestays fen2yuan r ≡ panic
      → (r ≡ err not_found) ⊎ (r ≡ panic)
  item_view-panics (ok h) e = absurd (ground arith)
  item_view-panics (err not_found) e = inl refl
  item_view-panics (err (Error.code_error code msg)) e = absurd (ground arith)
  item_view-panics (err (Error.status code msg)) e = absurd (ground arith)
  item_view-panics (err Error.no_rows_update) e = absurd (ground arith)
  item_view-panics (err (Error.other text)) e = absurd (ground arith)
  item_view-panics panic e = inr refl

  item_view-values :
      (r : Result Homestay) → values (item_view homestays fen2yuan r) ≡ found_views fen2yuan r
  item_view-values (ok h) = refl
  item_view-values (err not_found) = refl
  item_view-values (err (Error.code_error code msg)) = refl
  item_view-values (err (Error.status code msg)) = refl
  item_view-values (err Error.no_rows_update) = refl
  item_view-values (err (Error.other text)) = refl
  item_view-values panic = refl

  reduce_views-IsReduce :
      (d : Db)
      → IsReduce
          (λ i. item_view homestays fen2yuan (find_one homestay_table homestays i d))
          (λ ids. reduce_views homestays fen2yuan ids d)
  unfolding reduce_views
  reduce_views-IsReduce d = record {
    reduce-nil = refl;
    reduce-cons = λ i ids. refl;
    item-ne-err =
        λ i e. item_view-ne-err homestays fen2yuan (find_one homestay_table homestays i d) e;
  }

  -- Of a page of activities that was found, `HomestayList` shows each activity's homestay that is
  -- found, in some order and as often as it is named; and then none of the homestays is missing. Or one
  -- of them is missing or its read panics, and the list panics.
  pub homestay_list_gathers :
      (page page_size : ℤ) (d : Db) (l : List HomestayActivity)
      → find_page_list_by_page homestay_activity_table activities
          (λ a. activities.text_eq a.row_type preferred_type && a.row_status ==ℤ up_status)
          page
          page_size
          "data_id desc"
          d
        ≡ ok l
      → let r = homestay_list homestays fen2yuan activities shuffle page page_size d in
        let ids = map (λ a. a.data_id) l in
        ((i : ℤ) × Mem i ids
          × ((find_one homestay_table homestays i d ≡ err not_found)
              ⊎ (find_one homestay_table homestays i d ≡ panic))
          × (r ≡ panic))
        ⊎ ((vs : List (HomestayView Yuan)) × (r ≡ ok vs)
            × ((i : ℤ) → Mem i ids → find_one homestay_table homestays i d ≢ err not_found)
            × Perm vs
                (flat_map (λ i. found_views fen2yuan (find_one homestay_table homestays i d)) ids))
  unfolding homestay_list
  homestay_list_gathers page page_size d l found =
      let ids = map (λ a. a.data_id) l in
      let run : homestay_list homestays fen2yuan activities shuffle page page_size d
          ≡ reduce_views homestays fen2yuan (shuffle ids) d =
        rw (found, homestay_list) refl in
      elim (reduce-Gathered
        (λ i. item_view homestays fen2yuan (find_one homestay_table homestays i d))
        (λ ids. reduce_views homestays fen2yuan ids d) (reduce_views-IsReduce d) (shuffle ids) ids
        (shuffles ids)) [
          | inl (i, among, bad, e) ↦
              inl (i, among, item_view-panics (find_one homestay_table homestays i d) bad, run ∙ e)
          | inr (vs, e, calm, same) ↦ inr (
            vs,
            run ∙ e,
            (λ i among missing. calm i among (rw missing refl)),
            rw (sym (fun_ext (λ i. item_view-values (find_one homestay_table homestays i d)))) same,
          )
        ]

-- The boss that an answer of `GetUserInfo` names.
abbrev pub named_boss : Result (Option PbUser) → List HomestayBusinessBoss
named_boss (ok (some u)) = if ltb_ℤ (pos 0) u.id then boss_of u ∷ [] else []
named_boss (ok none) = []
named_boss (err e) = []
named_boss panic = []

module _ {Db : Type 0} (activities : Conn Db HomestayActivity)
    (user_info : ℤ → Result (Option PbUser)) (shuffle : List ℤ → List ℤ)
    (shuffles : (ids : List ℤ) → Perm (shuffle ids) ids) where
  boss_item-panics : (r : Result (Option PbUser)) → boss_item r ≡ panic → r ≡ panic
  boss_item-panics (ok (some u)) e = absurd (ground arith)
  boss_item-panics (ok none) e = absurd (ground arith)
  boss_item-panics (err x) e = absurd (ground arith)
  boss_item-panics panic e = refl

  boss_item-values : (r : Result (Option PbUser)) → values (boss_item r) ≡ named_boss r
  boss_item-values (ok (some u)) = refl
  boss_item-values (ok none) = refl
  boss_item-values (err x) = refl
  boss_item-values panic = refl

  boss_item-ne-err : (r : Result (Option PbUser)) (e : Error) → boss_item r ≢ err e
  boss_item-ne-err (ok (some u)) e h = cc
  boss_item-ne-err (ok none) e h = cc
  boss_item-ne-err (err x) e h = cc
  boss_item-ne-err panic e h = cc

  bosses_of-IsReduce : IsReduce (λ i. boss_item (user_info i)) (bosses_of user_info)
  unfolding bosses_of
  bosses_of-IsReduce = record {
    reduce-nil = refl;
    reduce-cons = λ i ids. refl;
    item-ne-err = λ i e. boss_item-ne-err (user_info i) e;
  }

  -- Of the first ten activities of good businesses, `GoodBoss` shows the user of each, in some order:
  -- those that the user service names with an id above 0. It panics only if one of its calls does.
  pub good_boss_gathers :
      (d : Db) (l : List HomestayActivity)
      → find_page_list_by_page homestay_activity_table activities
          (λ a. activities.text_eq a.row_type good_busi_type && a.row_status ==ℤ up_status)
          (pos 0)
          (pos 10)
          "data_id desc"
          d
        ≡ ok l
      → let r = good_boss activities user_info shuffle d in
        let ids = map (λ a. a.data_id) l in
        ((i : ℤ) × Mem i ids × (user_info i ≡ panic) × (r ≡ panic))
        ⊎ ((bosses : List HomestayBusinessBoss) × (r ≡ ok bosses)
            × Perm bosses (flat_map (λ i. named_boss (user_info i)) ids))
  unfolding good_boss
  good_boss_gathers d l found =
      let ids = map (λ a. a.data_id) l in
      let run : good_boss activities user_info shuffle d ≡ bosses_of user_info (shuffle ids) =
        rw (found, good_boss) refl in
      elim (reduce-Gathered (λ i. boss_item (user_info i)) (bosses_of user_info) bosses_of-IsReduce
        (shuffle ids) ids (shuffles ids)) [
          | inl (i, among, bad, e) ↦ inl (i, among, boss_item-panics (user_info i) bad, run ∙ e)
          | inr (bosses, e, calm, same) ↦
              inr (bosses, run ∙ e, rw (sym (fun_ext (λ i. boss_item-values (user_info i)))) same)
        ]
