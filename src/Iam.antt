-- ===== src/Iam.antt =====
-- Identity and access: aws_light/models/iam.py, and aws_light/iam. PyJWT and bcrypt are parameters.
pub mod Access
use aws_light.Prelude.{
  ℕ, ◌+◌, ◌*◌, String, ◌≡◌, Bool, true, false, Option, none, some, leb, if◌then◌else◌,
}
use aws_light.Prelude.Outcome.{Outcome, raised, returned}
use aws_light.Config.{Settings}

pub data Role : Type 0 where
  admin developer viewer : Role

pub record UserSpec : Type 0 where
  pub username : String
  pub role : Role
  pub password_hash : String

pub record TokenPayload : Type 0 where
  pub sub : String
  pub role : Role
  pub exp : ℕ

unfoldable pub role_level : Role → ℕ
role_level viewer = 0
role_level developer = 1
role_level admin = 2

unfoldable pub has_minimum_role : Role → Role → Bool
unfolding role_level
has_minimum_role user_role required_role = leb (role_level required_role) (role_level user_role)

-- `jwt.decode` raises one of these
pub data JwtError : Type 0 where
  expired_signature invalid_token : JwtError

-- PyJWT with the secret and the algorithm of the settings: `decode` also reads the clock.
pub record Jwt : Type 1 where
  pub Token : Type 0
  pub encode : TokenPayload → Token
  pub decode : ℕ → Token → Outcome JwtError TokenPayload

-- What PyJWT promises: a token is read back until the second in which it expires.
pub record IsJwt (jwt : Jwt) : Type 0 where
  pub decode-encode :
      (now : ℕ) (payload : TokenPayload)
      → jwt.decode now (jwt.encode payload)
        ≡ (if leb payload.exp now then raised expired_signature else returned payload)

-- bcrypt, with the salt it takes
pub record Bcrypt : Type 0 where
  pub hashpw : ℕ → String → String
  pub checkpw : String → String → Bool

-- the codes and details of `HTTPException`
pub data HttpError : Type 0 where
  token_expired token_invalid forbidden : HttpError

module _ (settings : Settings) (jwt : Jwt) (bcrypt : Bcrypt) where
  unfoldable pub hash_password : ℕ → String → String
  hash_password salt plain_password = bcrypt.hashpw salt plain_password

  unfoldable pub verify_password : String → String → Bool
  verify_password plain_password hashed_password = bcrypt.checkpw plain_password hashed_password

  unfoldable pub create_token : ℕ → UserSpec → jwt.Token
  create_token now user = jwt.encode (record {
    sub = user.username;
    role = user.role;
    exp = now + settings.jwt_expiry_hours * 3600;
  })

  unfoldable pub decode_token : ℕ → jwt.Token → Outcome JwtError TokenPayload
  decode_token now token = jwt.decode now token

  unfoldable pub make_default_admin : ℕ → UserSpec
  unfolding hash_password
  make_default_admin salt = record {
    username = settings.default_admin_username;
    role = admin;
    password_hash = hash_password salt settings.default_admin_password;
  }

  unfoldable pub user_of : Outcome JwtError TokenPayload → Outcome HttpError UserSpec
  user_of (raised expired_signature) = raised token_expired
  user_of (raised invalid_token) = raised token_invalid
  user_of (returned payload) =
      returned (record { username = payload.sub; role = payload.role; password_hash = "" })

  unfoldable pub get_current_user : ℕ → jwt.Token → Outcome HttpError UserSpec
  unfolding decode_token user_of
  get_current_user now token = user_of (decode_token now token)

  -- the dependency of `require_role`, at what `get_current_user` answered
  unfoldable pub require_role : Role → Outcome HttpError UserSpec → Outcome HttpError UserSpec
  require_role minimum_role (raised e) = raised e
  require_role minimum_role (returned current_user) =
      if has_minimum_role current_user.role minimum_role
      then returned current_user
      else raised forbidden
