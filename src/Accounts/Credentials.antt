-- ===== src/Accounts/Credentials.antt =====
-- What passwords and tokens prove: who gets through a login, what a token may be used for, and what
-- a password reset leaves behind.
use mathlib.Core.Option
use bodp_app.Prelude.{
  ℕ, ◌+◌, ◌<◌, ◌≡◌, ◌≢◌, refl, true, false, not, Option, some, none, String, str_eq, eq_refl, List,
  [], arith, inl, inr, ◌&&◌, Bool-cases, is_some, if◌then◌else◌, ◌==◌,
}
use bodp_app.Table.{find, rows_where-find, rows_where-update, IsKeyed, find-update_where}
use bodp_app.Session.{ok, exec, reply, Result-cases, scalar-one-row, scalar_one_or_none}
use bodp_app.Models.{User, UserRoleEnum, is_revoked, is_suspended}
use bodp_app.Database.{Db}
use bodp_app.Accounts.Tokens.{
  TokenType, value, Libraries, Settings, Claims, create_token, decode_token, hash_password,
  verify_password, prefix, bcrypt_max_bytes,
}
use bodp_app.Accounts.Login.{authenticate, user_by_email, is_locked_out}
use bodp_app.Accounts.Sessions.{confirm_password_reset, revoke_at, revoke_open, is_open_of}

value_injective : (k j : TokenType) → k ≢ j → str_eq (value k) (value j) ≡ false
value_injective TokenType.access TokenType.access n = absurd (n refl)
value_injective TokenType.access TokenType.refresh n = refl
value_injective TokenType.access TokenType.email_verify n = refl
value_injective TokenType.access TokenType.password_reset n = refl
value_injective TokenType.access TokenType.invite n = refl
value_injective TokenType.refresh TokenType.access n = refl
value_injective TokenType.refresh TokenType.refresh n = absurd (n refl)
value_injective TokenType.refresh TokenType.email_verify n = refl
value_injective TokenType.refresh TokenType.password_reset n = refl
value_injective TokenType.refresh TokenType.invite n = refl
value_injective TokenType.email_verify TokenType.access n = refl
value_injective TokenType.email_verify TokenType.refresh n = refl
value_injective TokenType.email_verify TokenType.email_verify n = absurd (n refl)
value_injective TokenType.email_verify TokenType.password_reset n = refl
value_injective TokenType.email_verify TokenType.invite n = refl
value_injective TokenType.password_reset TokenType.access n = refl
value_injective TokenType.password_reset TokenType.refresh n = refl
value_injective TokenType.password_reset TokenType.email_verify n = refl
value_injective TokenType.password_reset TokenType.password_reset n = absurd (n refl)
value_injective TokenType.password_reset TokenType.invite n = refl
value_injective TokenType.invite TokenType.access n = refl
value_injective TokenType.invite TokenType.refresh n = refl
value_injective TokenType.invite TokenType.email_verify n = refl
value_injective TokenType.invite TokenType.password_reset n = refl
value_injective TokenType.invite TokenType.invite n = absurd (n refl)

-- Until it expires, a token decodes as the kind that it was made for, with the claims that it was
-- given, and as no other kind.
pub token_has_one_use :
    (lib : Libraries) (now later subject : ℕ) (jti : String) (k j : TokenType) (expires : ℕ)
    (role : Option UserRoleEnum) (sid : Option ℕ)
    → later < now + expires
    → k ≢ j
    → (decode_token lib later (create_token lib now subject jti k expires role sid) j ≡ none)
      × (decode_token lib later (create_token lib now subject jti k expires role sid) k
          ≡ some (record {
            sub = some subject;
            token_type = value k;
            exp = now + expires;
            jti = jti;
            role = role;
            sid = sid;
          }))
unfolding create_token decode_token
token_has_one_use lib now later subject jti k j expires role sid h n =
    let claims : Claims = record {
      sub = some subject;
      token_type = value k;
      exp = now + expires;
      jti = jti;
      role = role;
      sid = sid;
    } in
    (
      ground (arith, lib.jwt_decode_encode later claims h, value_injective k j n),
      ground (arith, lib.jwt_decode_encode later claims h, eq_refl (value k)),
    )

-- A login returns an account only if the email is not locked out, the account is the one that has
-- the email, the password checks against its hash, it is not suspended and its email is verified;
-- and then the database is as it was.
pub login_is_earned :
    (lib : Libraries) (settings : Settings) (now : ℕ) (email : String) (password : List ℕ) (db : Db)
    (id : ℕ) (user : User)
    → reply (authenticate lib settings now email password) db ≡ ok (id, user)
    → (is_locked_out settings now (lib.normalize email) db ≡ false)
      × (user_by_email (lib.normalize email) db ≡ ok (some (id, user)))
      × (verify_password lib password user.password_hash ≡ true)
      × (is_suspended user.status ≡ false)
      × (is_some user.email_verified_at ≡ true)
      × (exec (authenticate lib settings now email password) db ≡ db)
unfolding authenticate
login_is_earned lib settings now email password db id user h =
    elim (Bool-cases (is_locked_out settings now (lib.normalize email) db)) [
      | inl locked ↦ absurd (ground arith)
      | inr free ↦ elim (Result-cases (user_by_email (lib.normalize email) db)) [
        | inr (x, e) ↦ absurd (ground arith)
        | inl (none, e) ↦ absurd (ground arith)
        | inl (some (k, u), e) ↦ elim (Bool-cases (verify_password lib password u.password_hash)) [
          | inr wrong ↦ absurd (ground arith)
          | inl right ↦ elim (Bool-cases (is_suspended u.status)) [
            | inl out ↦ absurd (ground arith)
            | inr active ↦ elim (Bool-cases (is_some u.email_verified_at)) [
              | inr unverified ↦ absurd (ground arith)
              | inl verified ↦ ground arith
            ]
          ]
        ]
      ]
    ]

verify-hash :
    (lib : Libraries) (salt : ℕ) (password : List ℕ)
    → verify_password lib password (hash_password lib salt password) ≡ true
unfolding verify_password hash_password
verify-hash lib salt password =
    ground (arith, lib.checkpw_hashpw (prefix bcrypt_max_bytes password) salt)

-- A password reset with a token of an account that exists succeeds. It ends every session of the
-- account that is live, and leaves all other sessions as they are.
pub reset_ends_sessions :
    (lib : Libraries) (now salt : ℕ) (token : lib.Token) (password : List ℕ) (c : Claims) (id k : ℕ)
    (user : User) (db : Db)
    → decode_token lib now token TokenType.password_reset ≡ some c
    → c.sub ≡ some id
    → find id db.users ≡ some user
    → (reply (confirm_password_reset lib now salt token password) db ≡ ok tt)
      × (find k (exec (confirm_password_reset lib now salt token password) db).sessions
          ≡ Option.map
              (λ s. if s.user_id == id && not (is_revoked s) then revoke_at now s else s)
              (find k db.sessions))
unfolding confirm_password_reset revoke_open
reset_ends_sessions lib now salt token password c id k user db d s h =
    (ground arith, ground (arith, find-update_where k (is_open_of id) (revoke_at now) db.sessions))

-- After a password reset, a login with the new password succeeds for the account, where it is the
-- one that has the email, is not suspended, is verified, and is not locked out.
pub reset_then_login :
    (lib : Libraries) (settings : Settings) (now later salt : ℕ) (token : lib.Token)
    (email : String) (password : List ℕ) (c : Claims) (id : ℕ) (user : User) (db : Db)
    → IsKeyed db.users
    → decode_token lib now token TokenType.password_reset ≡ some c
    → c.sub ≡ some id
    → user_by_email (lib.normalize email) db ≡ ok (some (id, user))
    → is_suspended user.status ≡ false
    → is_some user.email_verified_at ≡ true
    → is_locked_out settings later (lib.normalize email) db ≡ false
    → reply
        (authenticate lib settings later email password)
        (exec (confirm_password_reset lib now salt token password) db)
      ≡ ok (id, record user { password_hash = hash_password lib salt password })
unfolding confirm_password_reset revoke_open authenticate scalar_one_or_none
reset_then_login lib settings now later salt token email password c id user db keyed d s e active
      verified free =
    let row = scalar-one-row _ _ e in
    let (there, named) =
      rows_where-find (λ u. str_eq u.email (lib.normalize email)) db.users id user [] keyed row in
    let set : User → User = λ u. record u { password_hash = hash_password lib salt password } in
    let kept =
      rows_where-update (λ u. str_eq u.email (lib.normalize email)) id set user db.users named row
        there named in
    ground (arith, kept, verify-hash lib salt password)
