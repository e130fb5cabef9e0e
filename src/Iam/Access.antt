-- ===== src/Iam/Access.antt =====
-- aws_light/iam: what a token lets its user do, and for how long.
use aws_light.Prelude.{ℕ, ◌+◌, ◌*◌, ◌≡◌, leb, if◌then◌else◌, arith}
use aws_light.Prelude.Outcome.{raised, returned}
use aws_light.Config.{Settings}
use aws_light.Iam.{
  Role, UserSpec, has_minimum_role, Jwt, IsJwt, Bcrypt, token_expired, forbidden, create_token,
  decode_token, user_of, get_current_user, require_role,
}

-- The token of a user opens a route exactly where the user's role reaches that of the route, as
-- this user without the hash, until jwt_expiry_hours have passed.
pub require_role-create_token :
    (settings : Settings) (jwt : Jwt) (bcrypt : Bcrypt) (law : IsJwt jwt) (issued now : ℕ)
    (user : UserSpec) (minimum_role : Role)
    → require_role settings jwt bcrypt minimum_role
        (get_current_user settings jwt bcrypt now (create_token settings jwt bcrypt issued user))
      ≡ (if leb (issued + settings.jwt_expiry_hours * 3600) now
          then raised token_expired
          else if has_minimum_role user.role minimum_role
          then returned (record user { password_hash = "" })
          else raised forbidden)
unfolding create_token get_current_user decode_token user_of require_role
require_role-create_token settings jwt bcrypt law issued now user minimum_role =
    rw (law.decode-encode) (ground arith)
