-- ===== src/Tests/Access.antt =====
-- Examples of tokens, and of the routing table in Redis.
use aws_light.Prelude.{◌≡◌, refl, ◌+◌, ◌*◌, List, [], ◌∷◌, true, leb, if◌then◌else◌}
use aws_light.Prelude.Outcome.{raised, returned}
use aws_light.Config.{default_settings}
use aws_light.Dict
use aws_light.Iam.{
  developer, viewer, UserSpec, TokenPayload, Jwt, IsJwt, Bcrypt, JwtError, token_expired, forbidden,
  has_minimum_role, create_token, get_current_user, require_role,
}
use aws_light.Iam.Access.{require_role-create_token}
use aws_light.Proxy.RoutingTable
use aws_light.Proxy.RoutingTable.{ReplicaEndpoint}
use aws_light.Proxy.RedisTable
use aws_light.Proxy.RedisTable.{EndpointJson, IsJson}
use aws_light.Proxy.RedisTable.Refinement.{Agree, update_service-Agree}

-- Tokens that are their payload.
abbrev jwt : Jwt
jwt = record {
  Token = TokenPayload;
  encode = λ payload. payload;
  decode = λ now payload.
      if leb payload.exp now then raised JwtError.expired_signature else returned payload;
}

jwt-IsJwt : IsJwt jwt
jwt-IsJwt = record { decode-encode = λ now payload. refl }

abbrev bcrypt : Bcrypt
bcrypt = record { hashpw = λ salt password. password; checkpw = λ password hashed. true }

abbrev user : UserSpec
user = record { username = "ann"; role = developer; password_hash = "h" }

require_role-create_token_example :
    require_role default_settings jwt bcrypt viewer (
      get_current_user default_settings jwt bcrypt 100
        (create_token default_settings jwt bcrypt 50 user))
    ≡ (if leb (50 + 24 * 3600) 100
        then raised token_expired
        else if has_minimum_role developer viewer
        then returned (record user { password_hash = "" })
        else raised forbidden)
require_role-create_token_example =
    require_role-create_token default_settings jwt bcrypt jwt-IsJwt 50 100 user viewer

abbrev json : EndpointJson
json = record { Raw = List ReplicaEndpoint; dumps = λ endpoints. endpoints; loads = λ raw. raw }

json-IsJson : IsJson json
json-IsJson = record { loads-dumps = λ endpoints. refl }

abbrev endpoints : List ReplicaEndpoint
endpoints = record { replica_id = "r1"; host = "10.0.0.1"; port = 80; healthy = true } ∷ []

empty-Agree : Agree json [] []
unfolding RedisTable.get_endpoints RedisTable.loaded RoutingTable.get_endpoints Dict.get
empty-Agree = record { same = λ s. refl }

update_service-Agree_example :
    Agree json
      (RedisTable.update_service json [] "api" endpoints)
      (RoutingTable.update_service [] "api" endpoints)
update_service-Agree_example =
    update_service-Agree json json-IsJson [] [] "api" endpoints empty-Agree
