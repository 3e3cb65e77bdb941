-- ===== src/Secrets/Tests.antt =====
-- Secrets that src/secrets.cpp reads from small files.
use redis_pvxs_ioc.Prelude.{◌≡◌, refl, true, none, some, [], ◌∷◌, ◌++◌, length, arith}
use redis_pvxs_ioc.Prelude.Results.{ok, err}
use redis_pvxs_ioc.Prelude.Bytes.{Bytes, bytes}
use redis_pvxs_ioc.Secrets.{
  SecretFile, not_one_line, both_set, read_opened, credential_from_environment,
}
use redis_pvxs_ioc.Secrets.Line.{
  IsSecret, HasLine, carriage_return, read_opened-HasLine, read_opened-IsSecret,
}

abbrev file_of : Bytes → SecretFile
file_of text = record {
  is_inspected = true;
  is_regular = true;
  size = length text;
  is_read = true;
  bytes = text;
}

abbrev secret : Bytes
secret = bytes "hunter2"

secret-IsSecret : IsSecret secret
secret-IsSecret = record { some_text = omega arith; fits = omega arith; one = omega arith }

read_opened-HasLine_example : read_opened (file_of (secret ++ 13 ∷ 10 ∷ [])) ≡ ok secret
read_opened-HasLine_example =
    read_opened-HasLine secret (file_of (secret ++ 13 ∷ 10 ∷ [])) secret-IsSecret carriage_return
      refl refl refl refl

read_opened-IsSecret_example :
    IsSecret secret
    × HasLine secret (secret ++ 13 ∷ 10 ∷ [])
    × ((file_of (secret ++ 13 ∷ 10 ∷ [])).is_inspected ≡ true)
    × ((file_of (secret ++ 13 ∷ 10 ∷ [])).is_regular ≡ true)
    × ((file_of (secret ++ 13 ∷ 10 ∷ [])).is_read ≡ true)
read_opened-IsSecret_example =
    read_opened-IsSecret (file_of (secret ++ 13 ∷ 10 ∷ [])) secret read_opened-HasLine_example

both :
    credential_from_environment (λ path. none) (some secret) (some (bytes "/run/secret"))
    ≡ err both_set
unfolding credential_from_environment
both = refl

two_lines : read_opened (file_of (secret ++ 10 ∷ secret)) ≡ err not_one_line
unfolding read_opened
two_lines = refl
