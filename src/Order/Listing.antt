-- ===== src/Order/Listing.antt =====
-- The list of a user's orders, page by page: userHomestayOrderListLogic.go of
-- app/order/cmd/rpc/internal/logic, on `FindPageListByIdDESC` of app/order/model.
use flash_sale_system.Common.{
  ◌≡◌, refl, sym, ap, ◌∙◌, List, [], ◌∷◌, ◌++◌, map, take, length, ℕ, zero, suc, ◌<◌, ◌<ℤ◌, ℤ, pos,
  Result, ok, to_word, All, arith,
}
use flash_sale_system.Store.{Conn, Select, find_page_list_by_id_desc}
use flash_sale_system.Store.Sql.{IsSql}
use flash_sale_system.Store.Paging.{IsOrdered, visible, page_after, page_first, All-middle}
use flash_sale_system.Store.Scroll.{scroll, scroll_lem}
use flash_sale_system.Order.{HomestayOrder, order_table}
use flash_sale_system.Order.Query.{
  PbHomestayOrder, to_pb, UserHomestayOrderListReq, list_condition, user_homestay_order_list,
}

map_split :
    {A B : Type 0} (f : A → B) (l : List A) (xs : List B) (z : B) (zs : List B)
    → map f l ≡ xs ++ z ∷ zs
    → (pre : List A) × (a : A) × (post : List A) × (l ≡ pre ++ a ∷ post)
      × (f a ≡ z)
      × (map f post ≡ zs)
map_split f [] [] z zs h = absurd (cc)
map_split f [] (x ∷ xs) z zs h = absurd (cc)
map_split f (a ∷ l) [] z zs h = ([], a, l, refl, cc, cc)
map_split f (a ∷ l) (x ∷ xs) z zs h =
    let (pre, b, post, e, same, rest) = map_split f l xs z zs cc in
    (a ∷ pre, b, post, ap (λ k. a ∷ k) e, same, rest)

map-take : {A B : Type 0} (f : A → B) (n : ℕ) (l : List A) → map f (take n l) ≡ take n (map f l)
map-take f zero l = refl
map-take f (suc n) [] = refl
map-take f (suc n) (x ∷ l) = ap (λ k. f x ∷ k) (map-take f n l)

length-map_lem : {A B : Type 0} (f : A → B) (l : List A) → length (map f l) ≡ length l
length-map_lem f [] = refl
length-map_lem f (x ∷ l) = ap suc (length-map_lem f l)

module _ {Db : Type 0} (conn : Conn Db HomestayOrder) (sql : IsSql order_table conn)
    (ordered : IsOrdered sql)
    (answers : (q : Select HomestayOrder) (d : Db)
      → (l : List HomestayOrder) × (conn.find_rows q d ≡ ok l)) where
  page_found :
      (req : UserHomestayOrderListReq) (d : Db) (l : List HomestayOrder)
      → find_page_list_by_id_desc order_table conn (list_condition req) req.last_id req.page_size d
        ≡ ok l
      → user_homestay_order_list conn req d ≡ ok (map to_pb l)
  unfolding user_homestay_order_list
  page_found req d l h = ground (arith, h)

  module _ (req : UserHomestayOrderListReq) (d : Db) where
    -- What the request of a page answers, with the id of the last order seen.
    abbrev page : ℤ → Result (List PbHomestayOrder)
    page last = user_homestay_order_list conn (record req { last_id = last }) d

    abbrev pub listed : List HomestayOrder
    listed = visible order_table conn sql ordered (list_condition req) d

    query_answers :
        (last : ℤ)
        → (l : List HomestayOrder) × (find_page_list_by_id_desc order_table conn
              (list_condition req)
              last
              req.page_size
              d
            ≡ ok l)
    unfolding find_page_list_by_id_desc
    query_answers last = answers _ d

    same_condition :
        (last : ℤ) → list_condition (record req { last_id = last }) ≡ list_condition req
    unfolding list_condition
    same_condition last = refl

    page_of :
        (last : ℤ) (l : List HomestayOrder)
        → find_page_list_by_id_desc order_table conn (list_condition req) last req.page_size d
          ≡ ok l
        → page last ≡ ok (map to_pb l)
    page_of last l h =
        let found : find_page_list_by_id_desc order_table conn
              (list_condition (record req { last_id = last })) last req.page_size d
            ≡ ok l =
          rw (same_condition last) h in
        page_found (record req { last_id = last }) d l found

    first_page : page (pos 0) ≡ ok (take (to_word req.page_size) (map to_pb listed))
    first_page =
        let (l, found) = query_answers (pos 0) in
        let first =
          page_first order_table conn sql ordered (list_condition req) (pos 0) req.page_size d l
            (omega arith) found in
        page_of (pos 0) l found
        ∙ ap ok (ap (map to_pb) first ∙ map-take to_pb (to_word req.page_size) listed)

    next_page :
        All (λ o. pos 0 <ℤ o.id) listed
        → (xs : List PbHomestayOrder) (z : PbHomestayOrder) (zs : List PbHomestayOrder)
        → map to_pb listed ≡ xs ++ z ∷ zs
        → page z.id ≡ ok (take (to_word req.page_size) zs)
    unfolding to_pb
    next_page positive xs z zs split =
        let (pre, o, post, e, same, rest) = map_split to_pb listed xs z zs split in
        let (l, found) = query_answers o.id in
        let behind =
          page_after order_table conn sql ordered (list_condition req) req.page_size d pre o post l
            e (All-middle (λ x. pos 0 <ℤ x.id) pre o post (rw e at positive)) found in
        ap (λ x. page x.id) (sym same)
        ∙ page_of o.id l found
        ∙ ap ok (
            ap (map to_pb) behind
            ∙ map-take to_pb (to_word req.page_size) post
            ∙ ap (take (to_word req.page_size)) rest)

  -- Where the database answers its queries, stands still meanwhile, and the ids of the listed orders
  -- are positive: a client that asks for page after page, each with the id of the last order it has seen, until a page is
  -- empty, is shown every order of the user that is not deleted and has the state it asks for, once
  -- and by falling ids, if the pages are not of size 0; more requests than orders end the reading.
  pub every_order_shown :
      (req : UserHomestayOrderListReq) (d : Db) (requests : ℕ)
      → 0 < to_word req.page_size
      → All (λ o. pos 0 <ℤ o.id) (listed req d)
      → length (listed req d) < requests
      → scroll
          (λ last. user_homestay_order_list conn (record req { last_id = last }) d)
          (λ o. o.id)
          requests
          (pos 0)
        ≡ ok (map to_pb (listed req d))
  every_order_shown req d requests some_size positive enough =
      go (to_word req.page_size) refl some_size
    where
      go :
          (n : ℕ)
          → to_word req.page_size ≡ n
          → 0 < n
          → scroll (page req d) (λ o. o.id) requests (pos 0) ≡ ok (map to_pb (listed req d))
      go zero size h = absurd (omega (arith, h))
      go (suc m) size h =
          scroll_lem (page req d) (λ o. o.id) m (map to_pb (listed req d))
            (λ xs z zs split. rw (← size) (next_page req d positive xs z zs split)) requests (pos 0)
            (rw (← size) (first_page req d))
            (omega (arith, enough, length-map_lem to_pb (listed req d)))
