-- ===== src/Tests/Users.antt =====
-- The user service on a database of one user, the replies, and the helpers.
use flash_sale_system.Common.{
  str_eq, ◌≡◌, refl, ◌⊎◌, inl, ℕ, ◌*◌, ◌-◌, length, count, All, ◌==◌, none, List, [], ◌∷◌, String,
  ℤ, pos, ◌+ℤ◌, i64, Result, ok, err, panic, Error, code_error, Action,
}
use flash_sale_system.Reply.{IsGrpc}
use flash_sale_system.Tool.{
  Draws, krand, rand_kind_num, rand_kind_all, IsDigit, IsAlnum, in_placeholders, krand-bytes,
  in_placeholders-count,
}
use flash_sale_system.User as User
use flash_sale_system.User.{user_table, user_auth_table, auth_type_system, find_one_by_mobile}
use flash_sale_system.User.Token.{Jwt, TokenResp, generate_token, half}
use flash_sale_system.User.Login.{login, token_for}
use flash_sale_system.User.Register.{RegisterReq, register, new_user}
use flash_sale_system.User.Laws.{
  IsTransaction, register_atomic, login_after_register, nickname_dropped,
}
use flash_sale_system.Tests.Memory.{memory}
use flash_sale_system.Reply.{recovered}
use flash_sale_system.Store.{insert_row, SqlResult}
use flash_sale_system.User.Register.{new_user_auth}
use flash_sale_system.User.Login.{token_for}
use flash_sale_system.Common.{◌≢◌, arith}

abbrev pub Db : Type 0
Db = List User.User × List User.UserAuth

abbrev on_users : {A : Type 0} → Action (List User.User) A → Action Db A
on_users m d = let (r, us) = m d.0 in (r, (us, d.1))

abbrev on_auths : {A : Type 0} → Action (List User.UserAuth) A → Action Db A
on_auths m d = let (r, us) = m d.1 in (r, (d.0, us))

abbrev roll_back : Db → Result ℤ × Db → Result ℤ × Db
roll_back d (ok i, d') = (ok i, d')
roll_back d (err e, d') = (err e, d)
roll_back d (panic, d') = (err recovered, d)

abbrev pub store : User.Store Db
store = record {
  users = record {
    exec = λ q. on_users ((memory user_table).exec q);
    find_row = λ p d. (memory user_table).find_row p d.0;
    find_rows = λ q d. (memory user_table).find_rows q d.0;
    find_count = λ p f d. (memory user_table).find_count p f d.0;
    text_eq = str_eq;
  };
  auths = record {
    exec = λ q. on_auths ((memory user_auth_table).exec q);
    find_row = λ p d. (memory user_auth_table).find_row p d.1;
    find_rows = λ q d. (memory user_auth_table).find_rows q d.1;
    find_count = λ p f d. (memory user_auth_table).find_count p f d.1;
    text_eq = str_eq;
  };
  transact = λ m d. roll_back d (m d);
}

roll_back-ok : (d : Db) (r : Result ℤ × Db) (i : ℤ) → r.0 ≡ ok i → roll_back d r ≡ r
roll_back-ok d (ok j, d') i h = refl
roll_back-ok d (err e, d') i h = cc
roll_back-ok d (panic, d') i h = cc

roll_back-err : (d : Db) (r : Result ℤ × Db) (e : Error) → r.0 ≡ err e → roll_back d r ≡ (err e, d)
roll_back-err d (ok j, d') e h = cc
roll_back-err d (err e', d') e h = cc
roll_back-err d (panic, d') e h = cc

roll_back-panic : (d : Db) (r : Result ℤ × Db) → r.0 ≡ panic → roll_back d r ≡ (err recovered, d)
roll_back-panic d (ok j, d') h = cc
roll_back-panic d (err e', d') h = cc
roll_back-panic d (panic, d') h = refl

store-IsTransaction : IsTransaction store.transact
store-IsTransaction = record {
  body_failed = λ m d e h. roll_back-err d (m d) e h;
  body_done = λ m d i h. inl (roll_back-ok d (m d) i h);
  body_panicked = λ m d h. (recovered, roll_back-panic d (m d) h);
}

abbrev pub md5 : String → String
md5 s = s

abbrev pub jwt : Jwt
jwt = record { access_expire = pos 600; sign = λ claims. ok "token"; now = pos 1000 }

abbrev pub ann : RegisterReq
ann = record {
  mobile = "13800000000";
  nickname = "Ann";
  password = "secret";
  auth_key = "13800000000";
  auth_type = auth_type_system;
}

abbrev bob : RegisterReq
bob = record ann { mobile = "13900000000"; auth_key = "13900000000" }

abbrev pub ann_row : User.User
ann_row = record (new_user md5 "name" ann) { id = pos 1 }

abbrev pub one_user : Db
one_user = (ann_row ∷ [], [])

pub ann_found : find_one_by_mobile store.users "13800000000" one_user ≡ ok ann_row
unfolding find_one_by_mobile new_user
ann_found = refl

ann_password : ann_row.password ≡ "secret"
unfolding new_user
ann_password = refl

abbrev pub ann_token : TokenResp
ann_token = record { access_token = "token"; access_expire = pos 1600; refresh_after = pos 1300 }

ann_token_made : generate_token jwt (pos 1) ≡ ok ann_token
unfolding generate_token half i64 ◌+ℤ◌
ann_token_made = refl

register_atomic_example :
    let (r, d') = register store md5 "name" jwt bob one_user in
    let user = insert_row user_table store.users (new_user md5 "name" bob) one_user in
    (d' ≡ one_user) × ((resp : TokenResp) → r ≢ ok resp)
    ⊎ ((user_id : ℤ) × ((res : SqlResult) × (user.0 ≡ ok res)
          × (res.last_insert_id ≡ user_id)
          × (res' : SqlResult) × (insert_row user_auth_table store.auths
                (new_user_auth bob user_id)
                user.1
              ≡ (ok res', d')))
        × (r ≡ token_for jwt user_id))
register_atomic_example = register_atomic store md5 "name" jwt bob one_user store-IsTransaction

login_after_register_example :
    login store.users md5 jwt
      (record { auth_type = auth_type_system; auth_key = "13800000000"; password = "secret" })
      one_user
    ≡ token_for jwt (pos 1)
login_after_register_example =
    login_after_register store md5 "name" jwt ann one_user ann_row (λ h. cc) ann_found refl

nickname_dropped_example : (new_user md5 "name" ann).nickname ≡ ""
nickname_dropped_example = nickname_dropped md5 "name" ann (λ h. cc)

abbrev pub carry : Error → Error
carry (Error.code_error code msg) = Error.status 2 msg
carry (Error.status code msg) = Error.status code msg
carry Error.not_found = Error.status 2 "not found"
carry Error.no_rows_update = Error.status 2 "no rows"
carry (Error.other text) = Error.status 2 text

pub carry-IsGrpc : IsGrpc carry
carry-IsGrpc = record {
  carry-status = λ code msg. refl;
  carry-not_found = ("not found", refl);
  carry-no_rows_update = ("no rows", refl);
  carry-other = λ text. (2, text, omega arith, refl);
}

abbrev no_value : ℕ
no_value = 0

abbrev draw : Draws
draw k max = none

krand-bytes_example :
    (length (krand 8 rand_kind_num draw) ≡ 8)
    × All IsDigit (krand 8 rand_kind_num draw)
    × (length (krand 8 rand_kind_all draw) ≡ 8)
    × All IsAlnum (krand 8 rand_kind_all draw)
krand-bytes_example = krand-bytes 8 draw (λ k max n h. cc)

three_placeholders :
    (count (λ c. c == b'?') (in_placeholders 3) ≡ 3) × (length (in_placeholders 3) ≡ 2 * 3 - 1)
three_placeholders = in_placeholders-count 3
