-- ===== src/Travel/Business.antt =====
-- The homestay businesses and comments of the travel API (app/travel/cmd/api/internal/logic, folders
-- homestayBussiness and homestayComment), with their tables. `Real` is Go's float64.
mod Tables
unfoldable pub use Tables.*
use flash_sale_system.Common.{
  ◌&&◌, Option, none, some, List, [], ◌∷◌, ◌++◌, map, String, ℤ, pos, ◌==ℤ◌, ltb_ℤ, Result, ok, err,
  panic, not_found, str_eq, if◌then◌else◌,
}
use flash_sale_system.Store.{
  Table, Conn, is_live, select_builder, find_one, find_page_list_by_id_desc, find_page_list_by_page,
}
use flash_sale_system.Store.Models.{
  TableWrites, TableReads, reading_writes, unread_writes, table_reads,
}
use flash_sale_system.Xerr.{db_error, new_err_code, new_err_msg}
use flash_sale_system.User.Info.{PbUser}
use flash_sale_system.Travel.Api.{HomestayActivity, homestay_activity_table, up_status}

-- `types.HomestayBusinessBoss`
pub record HomestayBusinessBoss : Type 0 where
  pub id : ℤ
  pub user_id : ℤ
  pub nickname : String
  pub avatar : String
  pub info : String
  pub rank : ℤ

abbrev pub no_boss : HomestayBusinessBoss
no_boss = record {
  id = pos 0;
  user_id = pos 0;
  nickname = "";
  avatar = "";
  info = "";
  rank = pos 0;
}

-- `copier.Copy` of a `usercenter.User`, which has no field `UserId` and no `Rank`
unfoldable pub boss_of : PbUser → HomestayBusinessBoss
boss_of u = record {
  id = u.id;
  user_id = pos 0;
  nickname = u.nickname;
  avatar = u.avatar;
  info = u.info;
  rank = pos 0;
}

-- `types.HomestayBusinessListInfo`, the fields of its `HomestayBusiness` among its own
pub record HomestayBusinessListInfo (Real : Type 0) : Type 0 where
  pub id : ℤ
  pub title : String
  pub info : String
  pub tags : String
  pub cover : String
  pub star : Real
  pub is_fav : ℤ
  pub header_img : String
  pub sell_month : ℤ
  pub person_consume : ℤ

unfoldable pub business_info :
    {Real : Type 0} → HomestayBusiness Real → HomestayBusinessListInfo Real
business_info b = record {
  id = b.id;
  title = b.title;
  info = b.info;
  tags = b.tags;
  cover = b.cover;
  star = b.star;
  is_fav = pos 0;
  header_img = b.header_img;
  sell_month = pos 0;
  person_consume = pos 0;
}

abbrev pub good_busi_type : String
good_busi_type = "goodBusiness"

-- The map phase of `GoodBoss`: a user that cannot be had, or has no id, is left out.
abbrev pub boss_item : Result (Option PbUser) → Result (List HomestayBusinessBoss)
boss_item (ok (some u)) = ok (if ltb_ℤ (pos 0) u.id then boss_of u ∷ [] else [])
boss_item (ok none) = ok []
boss_item (err _) = ok []
boss_item panic = panic

-- The reduce phase over the users, in the order in which they come out of the pipe.
unfoldable pub bosses_of :
    (user_info : ℤ → Result (Option PbUser)) → List ℤ → Result (List HomestayBusinessBoss)
bosses_of user_info [] = ok []
bosses_of user_info (i ∷ ids) =
    let rest = bosses_of user_info ids in
    elim (boss_item (user_info i)) [
      | ok bosses ↦ elim rest [ ok others ↦ ok (bosses ++ others) | err e ↦ err e | panic ↦ panic ]
      | err e ↦ err e
      | panic ↦ panic
    ]

-- `GoodBoss`; `shuffle` is the order in which the workers of the map phase finish.
unfoldable pub good_boss :
    {Db : Type 0}
    → Conn Db HomestayActivity
    → (user_info : ℤ → Result (Option PbUser)) → (shuffle : List ℤ → List ℤ) → Db
    → Result (List HomestayBusinessBoss)
good_boss activities user_info shuffle d =
    elim (find_page_list_by_page homestay_activity_table activities
      (λ a. activities.text_eq a.row_type good_busi_type && a.row_status ==ℤ up_status) (pos 0)
      (pos 10) "data_id desc" d) [
        | ok l ↦ bosses_of user_info (shuffle (map (λ a. a.data_id) l))
        | err _ ↦ err (new_err_code db_error)
        | panic ↦ panic
      ]

-- `types.HomestayComment`
pub record HomestayCommentView (Real : Type 0) : Type 0 where
  pub id : ℤ
  pub homestay_id : ℤ
  pub content : String
  pub star : Real
  pub user_id : ℤ
  pub nickname : String
  pub avatar : String

-- `CommentList`, which has no logic yet: its list is nil.
abbrev pub comment_list :
    {Real : Type 0} → (last_id page_size : ℤ) → Result (List (HomestayCommentView Real))
comment_list last_id page_size = ok []

-- `user_info` is the call of `GetUserInfo`.
module _ {Db Real : Type 0} (businesses : Conn Db (HomestayBusiness Real)) where
  unfoldable pub homestay_bussiness_list :
      (last_id page_size : ℤ) → Db → Result (List (HomestayBusinessListInfo Real))
  homestay_bussiness_list last_id page_size d =
      elim (find_page_list_by_id_desc homestay_business_table businesses select_builder last_id
        page_size d) [
          | ok l ↦ ok (map business_info l)
          | err _ ↦ err (new_err_code db_error)
          | panic ↦ panic
        ]

  -- The business that was found, or nil, decides whose boss is shown.
  abbrev pub boss_shown :
      (user_info : ℤ → Result (Option PbUser)) → HomestayBusiness Real → Result HomestayBusinessBoss
  boss_shown user_info b = elim (user_info b.user_id) [
    | ok (some u) ↦ ok (if ltb_ℤ (pos 0) u.id then boss_of u else no_boss)
    | ok none ↦ ok no_boss
    | err _ ↦ err (new_err_msg "get boss info fail")
    | panic ↦ panic
  ]

  unfoldable pub homestay_bussiness_detail :
      (user_info : ℤ → Result (Option PbUser)) → ℤ → Db → Result HomestayBusinessBoss
  homestay_bussiness_detail user_info i d = elim (find_one homestay_business_table businesses i d) [
    | ok b ↦ boss_shown user_info b
    | err e ↦ elim e [ not_found ↦ ok no_boss | _ ↦ err (new_err_code db_error) ]
    | panic ↦ panic
  ]
