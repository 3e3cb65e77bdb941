-- ===== src/Secrets.antt =====
-- `readSecretFile` and `credentialFromEnvironment` of src/secrets.cpp. What the system calls give is an
-- argument: the file, if it opens, with what `fstat` says and what the reads give.
pub mod Line
mod Tests
use redis_pvxs_ioc.Prelude.{
  ℕ, suc, ◌+◌, ◌*◌, String, Bool, true, false, not, ◌&&◌, ◌||◌, Option, none, some, List, [], ◌∷◌,
  ◌++◌, ◌==◌, ltb, if◌then◌else◌, str_eq, length, take,
}
use redis_pvxs_ioc.Prelude.Results.{Result, ok, err, ◌>>=◌, ◌>>◌, fail_if}
use redis_pvxs_ioc.Prelude.Bytes.{Bytes}

pub data SecretError : Type 0 where
  bad_path cannot_open cannot_inspect not_regular too_long cannot_read empty_file not_one_line :
      SecretError

pub data CredentialError : Type 0 where
  both_set : CredentialError
  in_file : SecretError → CredentialError

-- `bytes` is what reading to the end gives; a file that grows meanwhile has more than its size.
pub record SecretFile : Type 0 where
  pub is_inspected : Bool
  pub is_regular : Bool
  pub size : ℕ
  pub is_read : Bool
  pub bytes : Bytes

abbrev pub limit : ℕ
limit = 16 * 1024

-- The bytes without a last line feed, and then without a last carriage return.
unfoldable pub without_last : ℕ → Bytes → Bytes
without_last c [] = []
without_last c (b ∷ []) = if b == c then [] else b ∷ []
without_last c (b ∷ d ∷ rest) = b ∷ without_last c (d ∷ rest)

unfoldable pub ends_in : ℕ → Bytes → Bool
ends_in c [] = false
ends_in c (b ∷ []) = b == c
ends_in c (b ∷ d ∷ rest) = ends_in c (d ∷ rest)

unfoldable pub one_line : Bytes → Bytes
unfolding without_last ends_in
one_line buffer = if ends_in 10 buffer then without_last 13 (without_last 10 buffer) else buffer

unfoldable pub has_break : Bytes → Bool
has_break [] = false
has_break (b ∷ rest) = (b == 13 || (b == 10 || b == 0)) || has_break rest

-- What the function makes of the buffer.
unfoldable pub secret_of : Bytes → Result SecretError Bytes
unfolding has_break
secret_of value = do
  fail_if (ltb limit (length value)) too_long
  fail_if (length value == 0) empty_file
  fail_if (has_break value) not_one_line
  ok value

unfoldable pub read_opened : SecretFile → Result SecretError Bytes
unfolding one_line secret_of
read_opened file = do
  fail_if (not file.is_inspected) cannot_inspect
  fail_if (not file.is_regular) not_regular
  fail_if (ltb (limit + 2) file.size) too_long
  fail_if (not file.is_read) cannot_read
  secret_of (one_line (take (limit + 3) file.bytes))

unfoldable pub read_secret_file : (Bytes → Option SecretFile) → Bytes → Result SecretError Bytes
unfolding read_opened
read_secret_file files path = do
  fail_if (length path == 0 || has_nul path) bad_path
  read_found (files path)
  where
    has_nul : Bytes → Bool
    has_nul [] = false
    has_nul (b ∷ rest) = b == 0 || has_nul rest

    read_found : Option SecretFile → Result SecretError Bytes
    read_found none = err cannot_open
    read_found (some file) = read_opened file

is_set : Option Bytes → Bool
is_set none = false
is_set (some value) = not (length value == 0)

value_or_empty : Option Bytes → Bytes
value_or_empty none = []
value_or_empty (some value) = value

in_credential : Result SecretError Bytes → Result CredentialError Bytes
in_credential (ok value) = ok value
in_credential (err e) = err (in_file e)

-- The variable of a name, and the one of the name with `_FILE`.
unfoldable pub credential_from_environment :
    (Bytes → Option SecretFile) → Option Bytes → Option Bytes → Result CredentialError Bytes
unfolding read_secret_file is_set value_or_empty in_credential
credential_from_environment files direct file =
    if is_set file
    then (do
      fail_if (is_set direct) both_set
      in_credential (read_secret_file files (value_or_empty file)))
    else ok (value_or_empty direct)
