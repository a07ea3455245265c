-- ===== src/Tests/Travels.antt =====
-- The lists of homestays and of bosses.
use mathlib.Core.List.{Perm, Mem, flat_map, reverse, reverse_perm}
use flash_sale_system.Common.{
  ◌≡◌, ◌≢◌, ◌⊎◌, refl, ◌&&◌, ◌==ℤ◌, to_word, Option, some, List, [], ◌∷◌, ◌++◌, String, ℤ, pos,
  str_eq, if◌then◌else◌, Result, ok, err, panic, not_found, other,
}
use flash_sale_system.Store.{Conn, find_one, find_page_list_by_page}
use flash_sale_system.User.Info.{PbUser}
use flash_sale_system.Travel.{Homestay, homestay_table}
use flash_sale_system.Travel.Api.{
  HomestayActivity, homestay_activity_table, HomestayView, preferred_type, up_status, reduce_views,
  homestay_list,
}
use flash_sale_system.Travel.Business.{good_busi_type}
use flash_sale_system.Travel.Pipes.{found_views, homestay_list_gathers}
use flash_sale_system.Travel.Laws.{missing_homestay_panics}
use flash_sale_system.Tests.Memory.{memory}

abbrev no_homestays : List Homestay
no_homestays = []

homestay_absent :
    find_one homestay_table (memory homestay_table) (pos 5) no_homestays ≡ err not_found
unfolding find_one
homestay_absent = refl

-- Not only the missing one counts: the list is gone whatever else is on the page.
missing_panics :
    reduce_views (memory homestay_table) (λ fen. fen) ([] ++ pos 5 ∷ pos 6 ∷ []) no_homestays
    ≡ panic
missing_panics =
    missing_homestay_panics (memory homestay_table) (λ fen. fen) [] (pos 5) (pos 6 ∷ [])
      no_homestays homestay_absent

abbrev cabin : Homestay
cabin = record {
  id = pos 5;
  create_time = pos 0;
  update_time = pos 0;
  delete_time = pos 0;
  del_state = pos 0;
  version = pos 0;
  title = "Cabin";
  sub_title = "";
  banner = "";
  info = "";
  people_num = pos 2;
  homestay_business_id = pos 1;
  user_id = pos 8;
  row_state = pos 1;
  row_type = pos 0;
  food_info = "";
  food_price = pos 1000;
  homestay_price = pos 20000;
  market_homestay_price = pos 30000;
}

abbrev homestays : List Homestay
homestays = cabin ∷ record cabin { id = pos 6; title = "Barn" } ∷ []

abbrev preferred : HomestayActivity
preferred = record {
  id = pos 1;
  create_time = pos 0;
  update_time = pos 0;
  delete_time = pos 0;
  del_state = pos 0;
  row_type = preferred_type;
  data_id = pos 5;
  row_status = up_status;
  version = pos 0;
}

-- Two activities, which no one writes.
abbrev listed : String → List HomestayActivity
listed row_type =
    record preferred { row_type = row_type }
    ∷ record preferred { id = pos 2; row_type = row_type; data_id = pos 6 }
    ∷ []

abbrev fixed : String → Conn (List Homestay) HomestayActivity
fixed row_type = record {
  exec = λ q d. (err (other "read only"), d);
  find_row = λ p d. (memory homestay_activity_table).find_row p (listed row_type);
  find_rows = λ q d. (memory homestay_activity_table).find_rows q (listed row_type);
  find_count = λ p f d. (memory homestay_activity_table).find_count p f (listed row_type);
  text_eq = str_eq;
}

-- The workers finish last come, first served.
abbrev last_first : List ℤ → List ℤ
last_first ids = reverse ids

preferred_found :
    find_page_list_by_page homestay_activity_table
      (fixed preferred_type)
      (λ a. str_eq a.row_type preferred_type && a.row_status ==ℤ up_status)
      (pos 1)
      (pos 10)
      "data_id desc"
      homestays
    ≡ ok (listed preferred_type)
unfolding find_page_list_by_page to_word
preferred_found = refl

homestay_list_gathers_example :
    let r =
      homestay_list
        (memory homestay_table)
        (λ fen. fen)
        (fixed preferred_type)
        last_first
        (pos 1)
        (pos 10)
        homestays in
    ((i : ℤ) × Mem i (pos 5 ∷ pos 6 ∷ [])
      × ((find_one homestay_table (memory homestay_table) i homestays ≡ err not_found)
          ⊎ (find_one homestay_table (memory homestay_table) i homestays ≡ panic))
      × (r ≡ panic))
    ⊎ ((vs : List (HomestayView ℤ)) × (r ≡ ok vs)
        × ((i : ℤ)
            → Mem i (pos 5 ∷ pos 6 ∷ [])
            → find_one homestay_table (memory homestay_table) i homestays ≢ err not_found)
        × Perm vs (
            flat_map
              (λ i.
                found_views
                  (λ fen. fen)
                  (find_one homestay_table (memory homestay_table) i homestays))
              (pos 5 ∷ pos 6 ∷ [])))
homestay_list_gathers_example =
    homestay_list_gathers (memory homestay_table) (λ fen. fen) (fixed preferred_type) last_first
      reverse_perm (pos 1) (pos 10) homestays (listed preferred_type) preferred_found

-- Every user exists but 6.
abbrev users : ℤ → Result (Option PbUser)
users i =
    if i ==ℤ pos 6
    then err not_found
    else ok
        (some (record { id = i; mobile = ""; nickname = ""; sex = pos 0; avatar = ""; info = "" }))

good_found :
    find_page_list_by_page homestay_activity_table
      (fixed good_busi_type)
      (λ a. str_eq a.row_type good_busi_type && a.row_status ==ℤ up_status)
      (pos 0)
      (pos 10)
      "data_id desc"
      homestays
    ≡ ok (listed good_busi_type)
unfolding find_page_list_by_page to_word
good_found = refl
