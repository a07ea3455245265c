-- ===== src/User/SignIn.antt =====
-- What a sign-in with WeChat has met when it succeeds.
use flash_sale_system.Common.{
  ◌≡◌, ◌≢◌, refl, ap, sym, ◌∙◌, ◌⊎◌, inl, inr, not, ◌||◌, append, Option, none, some, String, pos,
  ◌==ℤ◌, tests, Bool-cases, Result, ok, err, panic, Error, arith, Result-cases, str_eq, eq_iff,
}
use flash_sale_system.Reply.{remote, remote-ok}
use flash_sale_system.User.{Store, auth_type_small_wx}
use flash_sale_system.User.Token.{Jwt, TokenResp, generate_token}
use flash_sale_system.User.Register.{RegisterReq, register}
use flash_sale_system.User.Info.{PbUserAuth, get_user_auth_by_auth_key}
use flash_sale_system.User.Api.{AuthResult, slice_from, register_wx, bind_or_login, wx_mini_auth}

-- The request that signs a new open id up.
abbrev pub wx_register_req : (openid mobile tail : String) → RegisterReq
wx_register_req openid mobile tail = record {
  mobile = mobile;
  nickname = append "flashsale" tail;
  password = "";
  auth_key = openid;
  auth_type = auth_type_small_wx;
}

module _ {Db : Type 0} (carry : Error → Error) (store : Store Db) (md5 : String → String)
    (random_name : String) (jwt : Jwt) where
  -- The open id was new, and its registration gave the token.
  abbrev pub IsSignedUp : (openid mobile : String) → Db → TokenResp → Db → Type 0
  IsSignedUp openid mobile d token d' =
      (tail : String) × (slice_from 7 mobile ≡ some tail)
      × ((register store md5 random_name jwt (wx_register_req openid mobile tail) d).0 ≡ ok token)
      × (d' ≡ (register store md5 random_name jwt (wx_register_req openid mobile tail) d).1)

  -- The open id was known, and the token is one for its user.
  abbrev pub IsSignedIn : PbUserAuth → Db → TokenResp → Db → Type 0
  IsSignedIn a d token d' = (a.id ≢ pos 0) × (generate_token jwt a.user_id ≡ ok token) × (d' ≡ d)

  registered :
      (openid mobile : String) (d : Db) (token : TokenResp) (o : Option String)
      → slice_from 7 mobile ≡ o
      → (register_wx carry store md5 random_name jwt openid mobile o d).0 ≡ ok token
      → IsSignedUp openid mobile d token
          (register_wx carry store md5 random_name jwt openid mobile o d).1
  registered openid mobile d token none short h = absurd (ground arith)
  registered openid mobile d token (some tail) long h =
      let r = register store md5 random_name jwt (wx_register_req openid mobile tail) d in
      elim (Result-cases (remote carry r.0)) [
        | inl (t, done) ↦ (tail, long, remote-ok carry r.0 token (ground arith), refl)
        | inr failed ↦ absurd (ground arith)
      ]

  bound :
      (openid mobile : String) (d : Db) (token : TokenResp) (found : Option PbUserAuth)
      → (bind_or_login carry store md5 random_name jwt openid mobile found d).0 ≡ ok token
      → let d' = (bind_or_login carry store md5 random_name jwt openid mobile found d).1 in
        ((a : PbUserAuth) × (found ≡ some a) × IsSignedIn a d token d')
        ⊎ ((a : PbUserAuth) → found ≡ some a → a.id ≡ pos 0) × IsSignedUp openid mobile d token d'
  bound openid mobile d token none h = inr (
    (λ a is. absurd (ground arith)),
    registered openid mobile d token (slice_from 7 mobile) refl h,
  )
  bound openid mobile d token (some a) h = elim (Bool-cases (a.id ==ℤ pos 0)) [
    | inl new ↦
        let run : bind_or_login carry store md5 random_name jwt openid mobile (some a) d
            ≡ register_wx carry store md5 random_name jwt openid mobile (slice_from 7 mobile) d =
          rw new refl in
        let (tail, long, done, after_it) =
          registered openid mobile d token (slice_from 7 mobile) refl
            (sym (ap (λ r. r.0) run) ∙ h) in
        inr ((λ b is. grind tests), (tail, long, done, ap (λ r. r.1) run ∙ after_it))
    | inr known ↦ elim (Result-cases (remote carry (generate_token jwt a.user_id))) [
      | inl (t, done) ↦ inl (
        a,
        refl,
        (
          grind tests,
          remote-ok carry (generate_token jwt a.user_id) token (ground arith),
          ground arith,
        ),
      )
      | inr failed ↦ absurd (ground arith)
    ]
  ]

  -- A sign-in with WeChat that succeeds has a session with an open id, and a telephone number that was
  -- decrypted under its key. If the open id is on record, the token is one for its user, and nothing
  -- changes; if it is not, the token comes from its registration, whose request has the number, and
  -- its digits behind the seventh in the nickname, and that is what changes.
  pub sign_in_effect :
      (session : Result AuthResult) (decrypt : String → Result String) (d : Db) (token : TokenResp)
      → (wx_mini_auth carry store md5 random_name jwt session decrypt d).0 ≡ ok token
      → let d' = (wx_mini_auth carry store md5 random_name jwt session decrypt d).1 in
        (auth : AuthResult) × (mobile : String) × (found : Option PbUserAuth) × (session ≡ ok auth)
        × (auth.err_code ≡ pos 0)
        × (auth.openid ≢ "")
        × (decrypt auth.session_key ≡ ok mobile)
        × (get_user_auth_by_auth_key store.auths auth.openid auth_type_small_wx d ≡ ok found)
        × (((a : PbUserAuth) × (found ≡ some a) × IsSignedIn a d token d')
            ⊎ ((a : PbUserAuth) → found ≡ some a → a.id ≡ pos 0)
              × IsSignedUp auth.openid mobile d token d')
  unfolding wx_mini_auth
  sign_in_effect (err e) decrypt d token h = absurd (ground arith)
  sign_in_effect panic decrypt d token h = absurd (ground arith)
  sign_in_effect (ok auth) decrypt d token h =
      elim (Bool-cases (not (auth.err_code ==ℤ pos 0) || str_eq auth.openid "")) [
        | inl bad ↦ absurd (ground arith)
        | inr good ↦ elim (Result-cases (decrypt auth.session_key)) [
          | inl (mobile, read) ↦
              let search = get_user_auth_by_auth_key store.auths auth.openid auth_type_small_wx d in
              elim (Result-cases (remote carry search)) [
                | inl (found, e) ↦
                    let run : wx_mini_auth carry store md5 random_name jwt (ok auth) decrypt d
                        ≡ bind_or_login carry store md5 random_name jwt auth.openid mobile found d =
                      ground arith in
                    (
                      auth,
                      mobile,
                      found,
                      refl,
                      grind tests,
                      (λ empty. ground (arith, eq_iff auth.openid "")),
                      read,
                      remote-ok carry search found e,
                      elim (bound auth.openid mobile d token found (sym (ap (λ r. r.0) run) ∙ h)) [
                        | inl (a, is, (ne, issued, same)) ↦
                            inl (a, is, (ne, issued, ap (λ r. r.1) run ∙ same))
                        | inr (unknown, (tail, long, done, same)) ↦
                            inr (unknown, (tail, long, done, ap (λ r. r.1) run ∙ same))
                      ],
                    )
                | inr failed ↦ absurd (ground arith)
              ]
          | inr failed ↦ absurd (ground arith)
        ]
      ]
