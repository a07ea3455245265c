-- ===== src/Store/Stamps.antt =====
-- The columns of a table that stay as they were inserted, through all writes of the generated models
-- (app/order/model/homestayOrderModel_gen.go and app/payment/model/thirdPaymentModel_gen.go).
use flash_sale_system.Common.{
  Bool, true, ◌≡◌, ◌≢◌, refl, ap, sym, ◌∙◌, ◌⊎◌, inl, inr, List, [], ◌∷◌, ◌++◌, map, ℤ, tests, ok,
  if◌then◌else◌, Bool-cases, arith,
}
use flash_sale_system.Store.{Table, Conn, is_current, next_version, update_with_version, insert_row}
use flash_sale_system.Store.Sql.{IsTable, IsSql}
use flash_sale_system.Store.Version.{written}
use flash_sale_system.Store.Keys.{update_rows, insert_rows, inserted_row, id-written}
use flash_sale_system.Store.Ranked.{In}

pub In-append : {A : Type 0} (x : A) (xs ys : List A) → In x xs → In x (xs ++ ys)
In-append x [] ys m = elim m [ ]
In-append x (y ∷ xs) ys (inl e) = inl e
In-append x (y ∷ xs) ys (inr m) = inr (In-append x xs ys m)

pub In-last : {A : Type 0} (x : A) (xs : List A) → In x (xs ++ x ∷ [])
In-last x [] = inl refl
In-last x (y ∷ xs) = inr (In-last x xs)

pub In-snoc : {A : Type 0} (x y : A) (xs : List A) → In x (xs ++ y ∷ []) → In x xs ⊎ (x ≡ y)
In-snoc x y [] (inl e) = inr e
In-snoc x y [] (inr m) = elim m [ ]
In-snoc x y (z ∷ xs) (inl e) = inl (inl e)
In-snoc x y (z ∷ xs) (inr m) = elim (In-snoc x y xs m) [ inl old ↦ inl (inr old) | inr e ↦ inr e ]

pub In-of_append : {A : Type 0} (x : A) (xs ys : List A) → In x (xs ++ ys) → In x xs ⊎ In x ys
In-of_append x [] ys m = inr m
In-of_append x (z ∷ xs) ys (inl e) = inl (inl e)
In-of_append x (z ∷ xs) ys (inr m) = elim (In-of_append x xs ys m) [
  | inl old ↦ inl (inr old)
  | inr new ↦ inr new
]

pub In-map : {A B : Type 0} (f : A → B) (x : A) (xs : List A) → In x xs → In (f x) (map f xs)
In-map f x [] m = elim m [ ]
In-map f x (y ∷ xs) (inl e) = inl (ap f e)
In-map f x (y ∷ xs) (inr m) = inr (In-map f x xs m)

pub In-of_map :
    {A B : Type 0} (f : A → B) (y : B) (xs : List A)
    → In y (map f xs)
    → (x : A) × In x xs × (y ≡ f x)
In-of_map f y [] m = elim m [ ]
In-of_map f y (x ∷ xs) (inl e) = (x, inl refl, e)
In-of_map f y (x ∷ xs) (inr m) = let (z, there, e) = In-of_map f y xs m in (z, inr there, e)

-- A list of ids with their columns in which an id stands with one value only.
abbrev pub IsFunctional : {K : Type 0} → List (ℤ × K) → Type 0
IsFunctional {K} stamps = (i : ℤ) (k l : K) → In (i, k) stamps → In (i, l) stamps → k ≡ l

map-append :
    {A B : Type 0} (f : A → B) (xs : List A) (y : A) → map f (xs ++ y ∷ []) ≡ map f xs ++ f y ∷ []
map-append f [] y = refl
map-append f (x ∷ xs) y = ap (λ l. f x ∷ l) (map-append f xs y)

map-write :
    {A B : Type 0} (g : A → B) (p : A → Bool) (f : A → A) (rows : List A)
    → ((r : A) → In r rows → p r ≡ true → g (f r) ≡ g r)
    → map g (map (λ r. if p r then f r else r) rows) ≡ map g rows
map-write g p f [] same = refl
map-write g p f (r ∷ rows) same =
    let rest = map-write g p f rows (λ x m. same x (inr m)) in
    elim (Bool-cases (p r)) [
      | inl passes ↦ ground (arith, rest, same r (inl refl) passes)
      | inr fails ↦ ground (arith, rest)
    ]

In-write :
    {A : Type 0} (p : A → Bool) (f : A → A) (x : A) (rows : List A)
    → In x (map (λ r. if p r then f r else r) rows)
    → In x rows ⊎ ((r : A) × (x ≡ f r))
In-write p f x rows m =
    let (r, there, e) = In-of_map (λ r. if p r then f r else r) x rows m in
    elim (Bool-cases (p r)) [
      | inl passes ↦ inr (r, ground (arith, e))
      | inr fails ↦ let same : x ≡ r = ground (arith, e) in inl (rw same there)
    ]

module _ {Db Row : Type 0} (t : Table Row) (conn : Conn Db Row) (tab : IsTable t)
    (sql : IsSql t conn) where
  -- Where a row that is there after a write comes from.
  pub updated_row :
      (new x : Row) (d : Db)
      → In x (sql.rows (update_with_version t conn new d).1)
      → In x (sql.rows d) ⊎ ((r : Row) × (x ≡ written t conn tab sql new d r))
  updated_row new x d m = elim (update_rows t conn tab sql new d) [
    | inl same ↦ inl (rw same at m)
    | inr run ↦
        In-write (is_current t new) (written t conn tab sql new d) x (sql.rows d) (rw run at m)
  ]

  pub new_row :
      (r x : Row) (d : Db)
      → In x (sql.rows (insert_row t conn r d).1)
      → In x (sql.rows d) ⊎ (x ≡ inserted_row t conn tab sql r d)
  new_row r x d m = elim (insert_rows t conn tab sql r d) [
    | inl same ↦ inl (rw same at m)
    | inr run ↦ In-snoc x (inserted_row t conn tab sql r d) (sql.rows d) (rw run at m)
  ]

module _ {Db Row K : Type 0} (t : Table Row) (conn : Conn Db Row) (tab : IsTable t)
    (sql : IsSql t conn) (columns : Row → K) where
  -- The stamps of a table: each row's id, with its columns of this kind.
  abbrev pub stamp : Row → ℤ × K
  stamp r = (t.id r, columns r)

  abbrev pub stamps : Db → List (ℤ × K)
  stamps d = map stamp (sql.rows d)

  -- The columns keep what is inserted, whatever the database does to others. A query of one row
  -- returns a row that passes its test and has the id and these columns of a row of the table: a row
  -- that the cache holds may be out of date in all others. An id is given once.
  pub record IsStamped : Type 0 where
    pub columns-column : (d : Db) (r : Row) → columns (sql.column d r) ≡ columns r
    pub row_stamped :
        (p : Row → Bool) (r : Row) (d : Db)
        → conn.find_row p d ≡ ok r
        → (p r ≡ true) × In (stamp r) (stamps d)
    pub id_fresh : (d : Db) (k : K) → ¬ In (sql.auto_id d, k) (stamps d)

  -- Writes to the other columns keep these, and an id reads back.
  pub record KeepsColumns : Type 0 where
    pub id-with_id : (v : ℤ) (r : Row) → t.id (t.with_id v r) ≡ v
    pub columns-assign : (new old : Row) → columns (t.assign new old) ≡ columns new
    pub columns-with_id : (v : ℤ) (r : Row) → columns (t.with_id v r) ≡ columns r
    pub columns-with_version : (v : ℤ) (r : Row) → columns (t.with_version v r) ≡ columns r
    pub columns-with_del_state : (v : ℤ) (r : Row) → columns (t.with_del_state v r) ≡ columns r
    pub columns-with_delete_time : (v : ℤ) (r : Row) → columns (t.with_delete_time v r) ≡ columns r

  module _ (stamped : IsStamped) (keeps : KeepsColumns) where
    pub columns-written :
        (new : Row) (d : Db) (r : Row) → columns (written t conn tab sql new d r) ≡ columns new
    unfolding next_version
    columns-written new d r =
        stamped.columns-column d (t.assign (next_version t new) r)
        ∙ keeps.columns-assign (next_version t new) r
        ∙ keeps.columns-with_version _ new

    stamp-written :
        (new : Row) (d : Db) (r : Row)
        → IsFunctional (stamps d)
        → In (stamp new) (stamps d)
        → In r (sql.rows d)
        → is_current t new r ≡ true
        → stamp (written t conn tab sql new d r) ≡ stamp r
    stamp-written new d r one there m current =
        let same_id : t.id new ≡ t.id r = grind tests in
        let here : In (t.id new, columns r) (stamps d) =
          rw same_id (In-map stamp r (sql.rows d) m) in
        let same : columns (written t conn tab sql new d r) ≡ columns r =
          columns-written new d r ∙ one (t.id new) (columns new) (columns r) there here in
        rw (id-written t conn tab sql new d r, same) refl

    -- `UpdateWithVersion` of a row with the stamp of one that is there leaves all stamps alone,
    -- whatever it returns.
    pub update_stamps :
        (new : Row) (d : Db)
        → IsFunctional (stamps d)
        → In (stamp new) (stamps d)
        → stamps (update_with_version t conn new d).1 ≡ stamps d
    update_stamps new d one there = elim (update_rows t conn tab sql new d) [
      | inl same ↦ ap (map stamp) same
      | inr run ↦
          ap (map stamp) run
          ∙ map-write stamp (is_current t new) (written t conn tab sql new d) (sql.rows d)
              (λ r m current. stamp-written new d r one there m current)
    ]

    columns-inserted : (r : Row) (d : Db) → columns (inserted_row t conn tab sql r d) ≡ columns r
    columns-inserted r d =
        stamped.columns-column d _
        ∙ keeps.columns-with_id _ _
        ∙ keeps.columns-with_del_state _ _
        ∙ keeps.columns-with_delete_time _ _

    id-inserted : (r : Row) (d : Db) → t.id (inserted_row t conn tab sql r d) ≡ sql.auto_id d
    id-inserted r d = sql.id-column d _ ∙ keeps.id-with_id (sql.auto_id d) _

    -- `Insert` adds one stamp, of a new id, or none.
    insert_stamps :
        (r : Row) (d : Db)
        → (stamps (insert_row t conn r d).1 ≡ stamps d)
          ⊎ (stamps (insert_row t conn r d).1 ≡ stamps d ++ (sql.auto_id d, columns r) ∷ [])
    insert_stamps r d = elim (insert_rows t conn tab sql r d) [
      | inl same ↦ inl (ap (map stamp) same)
      | inr run ↦ inr (
          ap (map stamp) run
          ∙ map-append stamp (sql.rows d) (inserted_row t conn tab sql r d)
          ∙ rw (id-inserted r d, columns-inserted r d) refl)
    ]

    IsFunctional-insert :
        (k : K) (d : Db)
        → IsFunctional (stamps d)
        → IsFunctional (stamps d ++ (sql.auto_id d, k) ∷ [])
    IsFunctional-insert k d one i a b m n = elim (In-snoc (i, a) (sql.auto_id d, k) (stamps d) m) [
      | inl old ↦ elim (In-snoc (i, b) (sql.auto_id d, k) (stamps d) n) [
        | inl old' ↦ one i a b old old'
        | inr e ↦ absurd (stale i a old (ap (λ x. x.0) e))
      ]
      | inr e ↦ elim (In-snoc (i, b) (sql.auto_id d, k) (stamps d) n) [
        | inl old ↦ absurd (stale i b old (ap (λ x. x.0) e))
        | inr e' ↦ ap (λ x. x.1) e ∙ sym (ap (λ x. x.1) e')
      ]
    ]
      where
        stale : (j : ℤ) (l : K) → In (j, l) (stamps d) → j ≢ sql.auto_id d
        stale j l old e = stamped.id_fresh d l (rw (← e) old)

    -- After an `Insert` each id still has one stamp; every stamp that was there is there, and any
    -- other is that of the new row.
    pub insert_IsFunctional :
        (r : Row) (d : Db)
        → IsFunctional (stamps d)
        → IsFunctional (stamps (insert_row t conn r d).1)
          × ((x : ℤ × K) → In x (stamps d) → In x (stamps (insert_row t conn r d).1))
          × ((i : ℤ) (k : K)
              → In (i, k) (stamps (insert_row t conn r d).1)
              → In (i, k) (stamps d) ⊎ (k ≡ columns r))
    insert_IsFunctional r d one = elim (insert_stamps r d) [
      | inl same ↦ rw same (one, λ x m. m, λ i k m. inl m)
      | inr grown ↦ rw grown (
        IsFunctional-insert (columns r) d one,
        λ x m. In-append x (stamps d) _ m,
        λ i k m. elim (In-snoc (i, k) (sql.auto_id d, columns r) (stamps d) m) [
          | inl old ↦ inl old
          | inr e ↦ inr (ap (λ x. x.1) e)
        ],
      )
    ]
