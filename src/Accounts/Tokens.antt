-- ===== src/Accounts/Tokens.antt =====
-- Passwords and tokens (backend/app/core/security.py), over bcrypt and jose.
use bodp_app.Prelude.{
  ℕ, ◌+◌, ◌*◌, ◌<◌, ◌≡◌, Bool, true, false, Option, none, some, String, str_eq, List, [], ◌∷◌, ltb,
  suc, zero, if◌then◌else◌,
}
use bodp_app.Models.{UserRoleEnum}

pub data TokenType : Type 0 where
  access refresh email_verify password_reset invite : TokenType

abbrev pub value : TokenType → String
value TokenType.access = "access"
value TokenType.refresh = "refresh"
value TokenType.email_verify = "email_verify"
value TokenType.password_reset = "password_reset"
value TokenType.invite = "invite"

-- The claims of a token that the code reads. `sub` is none where it is missing or is no UUID.
pub record Claims : Type 0 where
  pub sub : Option ℕ
  pub token_type : String
  pub exp : ℕ
  pub jti : String
  pub role : Option UserRoleEnum
  pub sid : Option ℕ

-- bcrypt, jose, and Python's `strip().lower()`. A password is its UTF-8 bytes; `checkpw` is none
-- where bcrypt raises ValueError; `jwt_decode` is none where jose raises JWTError. What is relied
-- on: a hash checks with its own password, and an encoded token decodes until it expires.
pub record Libraries : Type 1 where
  pub hashpw : List ℕ → (salt : ℕ) → String
  pub checkpw : List ℕ → String → Option Bool
  pub checkpw_hashpw : (p : List ℕ) (salt : ℕ) → checkpw p (hashpw p salt) ≡ some true
  pub Token : Type 0
  pub jwt_encode : Claims → Token
  pub jwt_decode : (now : ℕ) → Token → Option Claims
  pub jwt_decode_encode :
      (now : ℕ) (c : Claims) → now < c.exp → jwt_decode now (jwt_encode c) ≡ some c
  pub normalize : String → String

-- `settings`, in seconds
pub record Settings : Type 0 where
  pub access_token_expire : ℕ
  pub refresh_token_expire : ℕ
  pub email_verification_token_expire : ℕ
  pub password_reset_token_expire : ℕ
  pub invite_token_expire : ℕ
  pub failed_login_lockout_window : ℕ
  pub failed_login_lockout_threshold : ℕ

abbrev pub bcrypt_max_bytes : ℕ
bcrypt_max_bytes = 72

-- `bytes[:n]`
unfoldable pub prefix : ℕ → List ℕ → List ℕ
prefix zero bs = []
prefix (suc n) [] = []
prefix (suc n) (b ∷ bs) = b ∷ prefix n bs

module _ (lib : Libraries) where
  unfoldable pub hash_password : (salt : ℕ) → List ℕ → String
  hash_password salt plain = lib.hashpw (prefix bcrypt_max_bytes plain) salt

  unfoldable pub verify_password : List ℕ → String → Bool
  verify_password plain hash = elim (lib.checkpw (prefix bcrypt_max_bytes plain) hash) [
    | none ↦ false
    | some b ↦ b
  ]

  -- `_create_token`
  unfoldable pub create_token :
      (now subject : ℕ)
      → (jti : String) → TokenType
      → (expires : ℕ) → Option UserRoleEnum
      → Option ℕ
      → lib.Token
  create_token now subject jti kind expires role sid = lib.jwt_encode (record {
    sub = some subject;
    token_type = value kind;
    exp = now + expires;
    jti = jti;
    role = role;
    sid = sid;
  })

  unfoldable pub decode_token : (now : ℕ) → lib.Token → TokenType → Option Claims
  decode_token now token expected = elim (lib.jwt_decode now token) [
    | none ↦ none
    | some payload ↦ if str_eq payload.token_type (value expected) then some payload else none
  ]

module _ (lib : Libraries) (settings : Settings) where
  -- `expire_minutes or settings.ACCESS_TOKEN_EXPIRE_MINUTES`
  abbrev pub access_lifetime : ℕ → ℕ
  access_lifetime expire_minutes =
      if ltb 0 expire_minutes then expire_minutes * 60 else settings.access_token_expire

  abbrev pub create_access_token :
      (now : ℕ)
      → (jti : String) → (user_id : ℕ) → UserRoleEnum
      → (session_id expire_minutes : ℕ) → lib.Token
  create_access_token now jti user_id role session_id expire_minutes =
      create_token lib now user_id jti TokenType.access (access_lifetime expire_minutes) (some role)
        (some session_id)

  abbrev pub create_refresh_token :
      (now : ℕ) → (jti : String) → (user_id session_id : ℕ) → lib.Token
  create_refresh_token now jti user_id session_id =
      create_token lib now user_id jti TokenType.refresh settings.refresh_token_expire none
        (some session_id)

  abbrev pub create_email_verification_token :
      (now : ℕ) → (jti : String) → (user_id : ℕ) → lib.Token
  create_email_verification_token now jti user_id =
      create_token lib now user_id jti TokenType.email_verify
        settings.email_verification_token_expire none none

  abbrev pub create_password_reset_token : (now : ℕ) → (jti : String) → (user_id : ℕ) → lib.Token
  create_password_reset_token now jti user_id =
      create_token lib now user_id jti TokenType.password_reset settings.password_reset_token_expire
        none none

  abbrev pub create_invite_token : (now : ℕ) → (jti : String) → (user_id : ℕ) → lib.Token
  create_invite_token now jti user_id =
      create_token lib now user_id jti TokenType.invite settings.invite_token_expire none none
