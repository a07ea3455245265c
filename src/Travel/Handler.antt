-- ===== src/Travel/Handler.antt =====
-- The HTTP handlers of the travel API (app/travel/cmd/api/internal/handler).
use flash_sale_system.Common.{Option, List, ℤ, Result, Error}
use flash_sale_system.Store.{Conn}
use flash_sale_system.Reply.{Response}
use flash_sale_system.Http.{Parsed, handle_read, resp_of}
use flash_sale_system.User.Info.{PbUser}
use flash_sale_system.Travel.{Homestay}
use flash_sale_system.Travel.Api.{
  HomestayActivity, HomestayView, business_list, guess_list, api_homestay_detail, homestay_list,
}
use flash_sale_system.Travel.Business.{
  HomestayBusiness, HomestayBusinessBoss, HomestayBusinessListInfo, HomestayCommentView, good_boss,
  homestay_bussiness_list, homestay_bussiness_detail, comment_list,
}

pub record BusinessListReq : Type 0 where
  pub last_id : ℤ
  pub page_size : ℤ
  pub homestay_business_id : ℤ

-- `GuessListReq` and `GoodBossReq` have no fields.
pub data GuessListReq : Type 0 where
  guess_list_req : GuessListReq

pub data GoodBossReq : Type 0 where
  good_boss_req : GoodBossReq

pub record HomestayDetailReq : Type 0 where
  pub id : ℤ

pub record HomestayListReq : Type 0 where
  pub page : ℤ
  pub page_size : ℤ

pub record HomestayBussinessListReq : Type 0 where
  pub last_id : ℤ
  pub page_size : ℤ

pub record HomestayBussinessDetailReq : Type 0 where
  pub id : ℤ

pub record CommentListReq : Type 0 where
  pub last_id : ℤ
  pub page_size : ℤ

module _ {Db Yuan : Type 0} (homestays : Conn Db Homestay) (fen2yuan : ℤ → Yuan) where
  unfoldable pub business_list_handler :
      Parsed BusinessListReq → Db → Result (Response (Option (List (HomestayView Yuan))))
  business_list_handler p d = handle_read p (λ req.
      resp_of
        (business_list homestays fen2yuan req.homestay_business_id req.last_id req.page_size d))

  unfoldable pub guess_list_handler :
      Parsed GuessListReq → Db → Result (Response (Option (List (HomestayView Yuan))))
  guess_list_handler p d = handle_read p (λ req. resp_of (guess_list homestays fen2yuan d))

  unfoldable pub homestay_detail_handler :
      (carry : Error → Error)
      → HomestayView Yuan
      → Parsed HomestayDetailReq
      → Db
      → Result (Response (Option (HomestayView Yuan)))
  homestay_detail_handler carry no_view p d =
      handle_read p (λ req. resp_of (api_homestay_detail homestays fen2yuan carry no_view req.id d))

  unfoldable pub homestay_list_handler :
      Conn Db HomestayActivity
      → (shuffle : List ℤ → List ℤ) → Parsed HomestayListReq
      → Db
      → Result (Response (Option (List (HomestayView Yuan))))
  homestay_list_handler activities shuffle p d = handle_read p (λ req.
      resp_of (homestay_list homestays fen2yuan activities shuffle req.page req.page_size d))

module _ {Db : Type 0} (user_info : ℤ → Result (Option PbUser)) where
  unfoldable pub good_boss_handler :
      Conn Db HomestayActivity
      → (shuffle : List ℤ → List ℤ) → Parsed GoodBossReq
      → Db
      → Result (Response (Option (List HomestayBusinessBoss)))
  good_boss_handler activities shuffle p d =
      handle_read p (λ req. resp_of (good_boss activities user_info shuffle d))

  unfoldable pub homestay_bussiness_detail_handler :
      {Real : Type 0}
      → Conn Db (HomestayBusiness Real)
      → Parsed HomestayBussinessDetailReq
      → Db
      → Result (Response (Option HomestayBusinessBoss))
  homestay_bussiness_detail_handler businesses p d =
      handle_read p (λ req. resp_of (homestay_bussiness_detail businesses user_info req.id d))

unfoldable pub homestay_bussiness_list_handler :
    {Db Real : Type 0}
    → Conn Db (HomestayBusiness Real)
    → Parsed HomestayBussinessListReq
    → Db
    → Result (Response (Option (List (HomestayBusinessListInfo Real))))
homestay_bussiness_list_handler businesses p d =
    handle_read p (λ req. resp_of (homestay_bussiness_list businesses req.last_id req.page_size d))

unfoldable pub comment_list_handler :
    {Real : Type 0}
    → Parsed CommentListReq
    → Result (Response (Option (List (HomestayCommentView Real))))
comment_list_handler p = handle_read p (λ req. resp_of (comment_list req.last_id req.page_size))
