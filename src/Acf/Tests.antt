-- ===== src/Acf/Tests.antt =====
-- Runs of the policy reader of src/access_control.cpp, and the theorems at them.
use redis_pvxs_ioc.Prelude.{◌≡◌, ◌≢◌, refl, true, false, String, some, List, [], ◌∷◌, map}
use redis_pvxs_ioc.Prelude.Results.{Result, ok, err}
use redis_pvxs_ioc.Prelude.Bytes.{Bytes, bytes}
use redis_pvxs_ioc.Acf.{Token, AcfError, unterminated, out_of_fuel, tokenize_acf}
use redis_pvxs_ioc.Acf.Parser.{uag}
use redis_pvxs_ioc.Acf.Parser.Rules.{inspect_acf}
use redis_pvxs_ioc.Acf.Parser.Policy.{Definition, group, access}
use redis_pvxs_ioc.Acf.Tokens.{inspect_acf-ends}
use redis_pvxs_ioc.Acf.Tokens.RoundTrip.{
  Lexeme, string, word, mark, seen, print, tokenize_acf-print,
}

abbrev policy : Bytes
policy = bytes "UAG(ops) {alice, \"bob\"} ASG(RW) { RULE(1, WRITE, TRAPWRITE) { UAG(ops) } }"

accepts_policy : inspect_acf policy ≡ ok (bytes "RW" ∷ bytes "DEFAULT" ∷ [])
unfolding inspect_acf
accepts_policy = refl

-- A quoted closing brace ends a list of members, though a name that is quoted may be any text.
quoted_brace_closes : inspect_acf (bytes "UAG(ops) {alice \"}\"") ≡ ok (bytes "DEFAULT" ∷ [])
unfolding inspect_acf
quoted_brace_closes = refl

open_string : inspect_acf (bytes "ASG(\"RW") ≡ err (unterminated 1 5)
unfolding inspect_acf
open_string = refl

inspect_acf-ends_example : inspect_acf policy ≢ err out_of_fuel
inspect_acf-ends_example = inspect_acf-ends policy

abbrev tokens_of : Result AcfError (List Token) → List Token
tokens_of (ok tokens) = tokens
tokens_of (err e) = []

abbrev policy_tokens : List Token
policy_tokens = tokens_of (tokenize_acf policy)

abbrev bare : String → Lexeme
bare text = record { text = bytes text; quoted = false }

abbrev definitions : List Definition
definitions =
    group uag (bare "ops") (bare "alice" ∷ record { text = bytes "bob"; quoted = true } ∷ [])
    ∷ access (bare "RW") (
        record {
          level = bare "1";
          permission = bare "WRITE";
          option = some (bare "TRAPWRITE");
          conditions = record { kind = uag; name = bare "ops"; more = [] } ∷ [];
        }
        ∷ [])
    ∷ []

abbrev lexemes : List Lexeme
lexemes =
    record { text = bytes "UAG"; quoted = false }
    ∷ record { text = bytes "("; quoted = false }
    ∷ record { text = bytes "a \"b\""; quoted = true }
    ∷ record { text = bytes ")"; quoted = false }
    ∷ []

tokenize_acf-print_example :
    (tokens : List Token) × (tokenize_acf (print lexemes) ≡ ok tokens) × (map seen tokens ≡ lexemes)
tokenize_acf-print_example = tokenize_acf-print lexemes (
  word b'U' (bytes "AG") (refl, (refl, (refl, tt))),
  (mark b'(' refl, (string (bytes "a \"b\""), (mark b')' refl, tt))),
)
