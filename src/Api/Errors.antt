-- ===== src/Api/Errors.antt =====
-- `HTTPException` of the handlers in aws_light/api: a status and a text. `unhandled` is an exception that
-- no handler turns into one.
use aws_light.Prelude.{ℕ, String}

pub data HttpException : Type 0 where
  http_exception : ℕ → String → HttpException
  unhandled : HttpException
