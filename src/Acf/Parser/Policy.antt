-- ===== src/Acf/Parser/Policy.antt =====
-- Policies in the ACF subset of src/access_control.cpp, and how they are written: what texts
-- `AcfSubsetParser` is to read as user and host groups, access groups, rules and conditions.
use redis_pvxs_ioc.Prelude.{◌≢◌, String, false, Option, none, some, List, [], ◌∷◌, ◌++◌, map}
use redis_pvxs_ioc.Prelude.Bytes.{Bytes, bytes}
use redis_pvxs_ioc.Acf.Tokens.RoundTrip.{Lexeme}
use redis_pvxs_ioc.Acf.Parser.{GroupKind, uag, hag, keyword_of}

-- A condition names one or more groups.
pub record Condition : Type 0 where
  pub kind : GroupKind
  pub name : Lexeme
  pub more : List Lexeme

pub record AcfRule : Type 0 where
  pub level : Lexeme
  pub permission : Lexeme
  pub option : Option Lexeme
  pub conditions : List Condition

pub data Definition : Type 0 where
  group : GroupKind → Lexeme → List Lexeme → Definition
  access : Lexeme → List AcfRule → Definition

abbrev pub plain : Bytes → Lexeme
plain text = record { text = text; quoted = false }

abbrev pub symbol : String → Lexeme
symbol text = plain (bytes text)

-- Each writes itself before what follows.
unfoldable pub more_names_then : List Lexeme → List Lexeme → List Lexeme
more_names_then [] rest = symbol ")" ∷ rest
more_names_then (n ∷ ns) rest = symbol "," ∷ n ∷ more_names_then ns rest

unfoldable pub condition_then : Condition → List Lexeme → List Lexeme
unfolding more_names_then
condition_then c rest =
    plain (keyword_of c.kind) ∷ symbol "(" ∷ c.name ∷ more_names_then c.more rest

unfoldable pub conditions_then : List Condition → List Lexeme → List Lexeme
unfolding condition_then
conditions_then [] rest = symbol "}" ∷ rest
conditions_then (c ∷ cs) rest = condition_then c (conditions_then cs rest)

unfoldable pub option_then : Option Lexeme → List Lexeme → List Lexeme
option_then none rest = rest
option_then (some o) rest = symbol "," ∷ o ∷ rest

unfoldable pub rule_then : AcfRule → List Lexeme → List Lexeme
unfolding option_then conditions_then
rule_then r rest =
    symbol "RULE"
    ∷ symbol "("
    ∷ r.level
    ∷ symbol ","
    ∷ r.permission
    ∷ option_then r.option (symbol ")" ∷ symbol "{" ∷ conditions_then r.conditions rest)

unfoldable pub rules_then : List AcfRule → List Lexeme → List Lexeme
unfolding rule_then
rules_then [] rest = symbol "}" ∷ rest
rules_then (r ∷ rs) rest = rule_then r (rules_then rs rest)

unfoldable pub more_members_then : List Lexeme → List Lexeme → List Lexeme
more_members_then [] rest = symbol "}" ∷ rest
more_members_then (m ∷ ms) rest = symbol "," ∷ m ∷ more_members_then ms rest

unfoldable pub members_then : List Lexeme → List Lexeme → List Lexeme
unfolding more_members_then
members_then [] rest = symbol "}" ∷ rest
members_then (m ∷ ms) rest = m ∷ more_members_then ms rest

unfoldable pub definition_then : Definition → List Lexeme → List Lexeme
unfolding members_then rules_then
definition_then (group kind name members) rest =
    plain (keyword_of kind)
    ∷ symbol "("
    ∷ name
    ∷ symbol ")"
    ∷ symbol "{"
    ∷ members_then members rest
definition_then (access name rules) rest =
    symbol "ASG" ∷ symbol "(" ∷ name ∷ symbol ")" ∷ symbol "{" ∷ rules_then rules rest

unfoldable pub written : List Definition → List Lexeme
unfolding definition_then
written [] = []
written (d ∷ ds) = definition_then d (written ds)

-- The members of a group do not begin with a string that is a brace, which would end them.
abbrev pub BeginsWell : Definition → Type 0
BeginsWell (group kind name []) = Unit
BeginsWell (group kind name (m ∷ ms)) = m.text ≢ bytes "}"
BeginsWell (access name rules) = Unit

-- The groups that conditions refer to, in the order of the text.
abbrev pub named : GroupKind → Lexeme → GroupKind × Bytes
named kind l = (kind, l.text)

unfoldable pub references_of : List Condition → List (GroupKind × Bytes)
references_of [] = []
references_of (c ∷ cs) = (c.kind, c.name.text) ∷ (map (named c.kind) c.more ++ references_of cs)

unfoldable pub rule_references : List AcfRule → List (GroupKind × Bytes)
unfolding references_of
rule_references [] = []
rule_references (r ∷ rs) = references_of r.conditions ++ rule_references rs

unfoldable pub policy_references : List Definition → List (GroupKind × Bytes)
unfolding rule_references
policy_references [] = []
policy_references (group kind name members ∷ ds) = policy_references ds
policy_references (access name rules ∷ ds) = rule_references rules ++ policy_references ds

-- The names of the groups of a kind, and of the access groups.
unfoldable pub own_name : GroupKind → GroupKind → Bytes → List Bytes
own_name uag uag name = name ∷ []
own_name hag hag name = name ∷ []
own_name _ _ name = []

unfoldable pub groups_named : GroupKind → List Definition → List Bytes
unfolding own_name
groups_named kind [] = []
groups_named kind (group other name members ∷ ds) =
    own_name kind other name.text ++ groups_named kind ds
groups_named kind (access name rules ∷ ds) = groups_named kind ds

unfoldable pub access_groups : List Definition → List Bytes
access_groups [] = []
access_groups (group kind name members ∷ ds) = access_groups ds
access_groups (access name rules ∷ ds) = name.text ∷ access_groups ds
