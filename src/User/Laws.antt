-- ===== src/User/Laws.antt =====
-- Registration, login and tokens.
use flash_sale_system.Common.{
  ◌≡◌, ◌≢◌, ◌⊎◌, inl, inr, some, none, String, ℤ, ◌+ℤ◌, i64, ok, err, panic, Error, Action, arith,
  Result-cases, eq_iff, eq_refl,
}
use flash_sale_system.Store.{SqlResult, insert_row}
use flash_sale_system.User.{
  user_table, user_auth_table, User, Store, auth_type_system, find_one_by_mobile, row_or_nil,
}
use flash_sale_system.Xerr.{db_error, new_err_code}
use flash_sale_system.User.Token.{Jwt, TokenResp, generate_token, half}
use flash_sale_system.User.Login.{token_for, LoginReq, login, err_username_pwd}
use flash_sale_system.User.Register.{
  RegisterReq, register, insert_user, new_user, new_user_auth, err_user_already_register,
}

-- A token names the user that it was made for, with the time of the call and the end of its life; the
-- response gives the same end, and half the life as the time to renew.
pub generate_token_claims :
    (jwt : Jwt) (user_id : ℤ) (resp : TokenResp)
    → generate_token jwt user_id ≡ ok resp
    → (jwt.sign (record { exp = resp.access_expire; iat = jwt.now; user_id = user_id })
        ≡ ok resp.access_token)
      × (resp.access_expire ≡ i64 (jwt.now +ℤ jwt.access_expire))
      × (resp.refresh_after ≡ i64 (jwt.now +ℤ half jwt.access_expire))
unfolding generate_token
generate_token_claims jwt user_id resp h =
    elim (Result-cases (
      jwt.sign
        (record { exp = i64 (jwt.now +ℤ jwt.access_expire); iat = jwt.now; user_id = user_id }))) [
          | inl (token, e) ↦ (ground arith, ground arith, ground arith)
          | inr failed ↦ absurd (ground arith)
        ]

-- What MySQL and go-zero document of a transaction: it is rolled back if its body fails or panics, or
-- if the commit fails; of a panic an error is returned.
pub record IsTransaction {Db : Type 0} (transact : Action Db ℤ → Action Db ℤ) : Type 0 where
  pub body_failed :
      (m : Action Db ℤ) (d : Db) (e : Error) → (m d).0 ≡ err e → transact m d ≡ (err e, d)
  pub body_done :
      (m : Action Db ℤ) (d : Db) (i : ℤ)
      → (m d).0 ≡ ok i
      → (transact m d ≡ m d) ⊎ ((e : Error) × (transact m d ≡ (err e, d)))
  pub body_panicked :
      (m : Action Db ℤ) (d : Db) → (m d).0 ≡ panic → (e : Error) × (transact m d ≡ (err e, d))

module _ {Db : Type 0} (store : Store Db) (md5 : String → String) (random_name : String)
    (jwt : Jwt) where
  -- A telephone number that is taken is refused, and nothing is written.
  pub register_taken :
      (req : RegisterReq) (d : Db) (u : User)
      → find_one_by_mobile store.users req.mobile d ≡ ok u
      → register store md5 random_name jwt req d ≡ (err err_user_already_register, d)
  unfolding register
  register_taken req d u found = ground arith

  -- The row of the user, and that of the login with the user's id, from one database to another.
  abbrev BothInserted : RegisterReq → Db → Db → ℤ → Type 0
  BothInserted req d d' user_id =
      let user = insert_row user_table store.users (new_user md5 random_name req) d in
      (r : SqlResult) × (user.0 ≡ ok r)
      × (r.last_insert_id ≡ user_id)
      × (r' : SqlResult) × (insert_row user_auth_table store.auths (new_user_auth req user_id)
            user.1
          ≡ (ok r', d'))

  insert_both :
      (req : RegisterReq) (d : Db) (user_id : ℤ)
      → (insert_user store md5 random_name jwt req d).0 ≡ ok user_id
      → BothInserted req d (insert_user store md5 random_name jwt req d).1 user_id
  unfolding insert_user
  insert_both req d user_id h =
      let user = insert_row user_table store.users (new_user md5 random_name req) d in
      elim (Result-cases user.0) [
        | inl (r, done) ↦
            elim (Result-cases
              (insert_row user_auth_table store.auths (new_user_auth req r.last_insert_id)
                user.1).0) [
                  | inl (r', done') ↦
                      let same : r.last_insert_id ≡ user_id = ground arith in
                      (r, done, same, r', rw (← same) (ground arith))
                  | inr failed ↦ absurd (ground arith)
                ]
        | inr failed ↦ absurd (ground arith)
      ]

  -- A registration writes both rows or none, in a transaction as documented (`IsTransaction`): the
  -- database is as it was, and the registration has not succeeded; or the row of the user has been
  -- inserted, and behind it that of the login, with the id that the first insert returned, and the
  -- answer is what `GenerateToken` answers for this id.
  pub register_atomic :
      (req : RegisterReq) (d : Db)
      → IsTransaction store.transact
      → let (r, d') = register store md5 random_name jwt req d in
        (d' ≡ d) × ((resp : TokenResp) → r ≢ ok resp)
        ⊎ ((user_id : ℤ) × BothInserted req d d' user_id × (r ≡ token_for jwt user_id))
  unfolding register
  register_atomic req d trans =
      elim (Result-cases
        (row_or_nil (new_err_code db_error) (find_one_by_mobile store.users req.mobile d))) [
          | inl (some u, found) ↦ inl (ground arith, λ resp h. absurd (ground arith))
          | inl (none, free) ↦ elim (Result-cases (body d).0) [
            | inl (i, done) ↦ elim (trans.body_done body d i done) [
              | inl committed ↦
                  let ran : (register store md5 random_name jwt req d).1 ≡ (body d).1 =
                    ground arith in
                  inr (i, rw ran (insert_both req d i done), ground arith)
              | inr (e, rolled_back) ↦ inl (ground arith, λ resp h. absurd (ground arith))
            ]
            | inr (inl (e, failed)) ↦
                let rolled_back = trans.body_failed body d e failed in
                inl (ground arith, λ resp h. absurd (ground arith))
            | inr (inr failed) ↦
                let (e, rolled_back) = trans.body_panicked body d failed in
                inl (ground arith, λ resp h. absurd (ground arith))
          ]
          | inr failed ↦ inl (ground arith, λ resp h. absurd (ground arith))
        ]
    where
      body : Action Db ℤ
      body = insert_user store md5 random_name jwt req

  -- Any password but one with the stored hash is refused.
  pub login_wrong_password :
      (req : LoginReq) (d : Db) (u : User)
      → req.auth_type ≡ auth_type_system
      → find_one_by_mobile store.users req.auth_key d ≡ ok u
      → md5 req.password ≢ u.password
      → login store.users md5 jwt req d ≡ err err_username_pwd
  unfolding login
  login_wrong_password req d u system found ne =
      ground (arith, eq_iff req.auth_type auth_type_system, eq_iff (md5 req.password) u.password)

  -- A user who registered with a password logs in with it: where the database finds the row of the
  -- registration under its id, the token is one for that id.
  pub login_after_register :
      (req : RegisterReq) (d : Db) (u : User)
      → req.password ≢ ""
      → find_one_by_mobile store.users req.mobile d ≡ ok u
      → u.password ≡ (new_user md5 random_name req).password
      → login store.users md5 jwt
          (record { auth_type = auth_type_system; auth_key = req.mobile; password = req.password })
          d
        ≡ token_for jwt u.id
  unfolding login new_user
  login_after_register req d u given found kept = ground (
    arith,
    eq_iff req.password "",
    eq_refl auth_type_system,
    eq_iff (md5 req.password) u.password,
  )

-- A nickname that the request names is not kept: the new user's nickname is empty.
pub nickname_dropped :
    (md5 : String → String) (random_name : String) (req : RegisterReq)
    → req.nickname ≢ ""
    → (new_user md5 random_name req).nickname ≡ ""
unfolding new_user
nickname_dropped md5 random_name req named = ground (arith, eq_iff req.nickname "")
