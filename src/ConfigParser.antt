-- ===== src/ConfigParser.antt =====
-- The reader of configurations in src/config.cpp: what its parts share. A YAML document, doubles and
-- the host are the interface `Yaml`; a path is the list of its segments.
pub mod Text
pub mod Tree
pub mod Values
pub mod Access
pub mod Redis
pub mod Pv
pub mod Limits
pub mod Serve
pub mod Root
pub mod Names
mod Tests
use Prim.Native.String.{◌++◌ as str_append}
use Prim.Native.Char.{Char, code}
use redis_pvxs_ioc.Prelude.{
  ℕ, zero, suc, ◌+◌, ◌-◌, leb, String, Bool, true, false, not, ◌&&◌, ◌||◌, Option, none, some, List,
  [], ◌∷◌, ◌++◌, ◌==◌, ltb, if◌then◌else◌, str_eq,
}
use redis_pvxs_ioc.Prelude.Results.{Result, ok, err, ◌>>=◌, ◌>>◌, fail_if}
use redis_pvxs_ioc.Prelude.Int.{ℤ}
use redis_pvxs_ioc.ConfigParser.Text.{is_in, begins_minus}
use redis_pvxs_ioc.Config.{PrimitiveType}
use redis_pvxs_ioc.Endpoints.{EndpointError}

-- What the source uses of yaml-cpp, of `double` and of the host, where `read_secret` stands for
-- `readSecretFile`, which Secrets models on bytes: `as<T>` gives the value or the text
-- of what it throws.
pub record Yaml : Type 1 where
  pub Number : Type 0
  pub zero_number : Number
  pub one_number : Number
  pub is_finite : Number → Bool
  pub is_zero : Number → Bool
  pub is_negative : Number → Bool
  pub less : Number → Number → Bool
  pub inverse : Number → Number
  pub Node : Type 0
  pub get : Node → String → Node
  pub is_defined : Node → Bool
  pub is_map : Node → Bool
  pub is_sequence : Node → Bool
  pub is_scalar : Node → Bool
  pub same_node : Node → Node → Bool
  pub entries : Node → List (Node × Node)
  pub items : Node → List Node
  pub scalar_text : Node → String
  pub as_string : Node → Result String String
  pub as_bool : Node → Result String Bool
  pub as_signed : ℕ → Node → Result String ℤ
  pub as_unsigned : ℕ → Node → Result String ℕ
  pub as_number : PrimitiveType → Node → Result String Number
  pub is_ipv4 : String → Bool
  pub policy_path : String → String → String
  pub secret_path : String → String → String
  pub read_secret : String → Result String String

pub data Segment : Type 0 where
  key : String → Segment
  index : ℕ → Segment

abbrev pub Where : Type 0
Where = List Segment

-- What `fail` throws, what escapes from yaml-cpp or from reading a secret, and what the registry of
-- endpoints throws.
pub data ConfigError : Type 0 where
  failed : Where → String → ConfigError
  thrown : String → ConfigError
  endpoint_error : EndpointError → ConfigError

abbrev pub Parsed : Type 0 → Type 0
Parsed A = Result ConfigError A

abbrev pub below : Where → String → Where
below path name = path ++ key name ∷ []

abbrev pub element : Where → ℕ → Where
element path i = path ++ index i ∷ []

-- if (bad) fail(path, message);
unfoldable pub refuse : Bool → Where → String → Parsed (Unit {0})
refuse bad path message = fail_if bad (failed path message)

unfoldable pub converted : {A : Type 0} → Where → Result String A → Parsed A
converted path (ok value) = ok value
converted path (err what) = err (failed path what)

unfoldable pub escaping : {A : Type 0} → Result String A → Parsed A
escaping (ok value) = ok value
escaping (err what) = err (thrown what)

module _ (y : Yaml) where
  unfoldable pub require_node : y.Node → String → Where → Parsed y.Node
  unfolding refuse
  require_node parent name path = do
    refuse (not (y.is_defined (y.get parent name))) path
        (str_append "missing required key '" (str_append name "'"))
    ok (y.get parent name)

  unfoldable pub require_map : y.Node → Where → Parsed y.Node
  unfolding refuse
  require_map node path = do
    refuse (not (y.is_defined node) || not (y.is_map node)) path "expected mapping"
    ok node

  unfoldable pub require_sequence : y.Node → Where → Parsed y.Node
  unfolding refuse
  require_sequence node path = do
    refuse (not (y.is_defined node) || not (y.is_sequence node)) path "expected sequence"
    ok node

  unfoldable pub known_keys : List (y.Node × y.Node) → Where → List String → Parsed (Unit {0})
  unfolding escaping refuse is_in
  known_keys [] path allowed = ok tt
  known_keys (entry ∷ rest) path allowed = do
    name ← escaping (y.as_string entry.0)
    refuse (not (is_in name allowed)) (below path name) "unknown key"
    known_keys rest path allowed

  unfoldable pub reject_unknown_keys : y.Node → Where → List String → Parsed (Unit {0})
  unfolding require_map known_keys
  reject_unknown_keys node path allowed = do
    map ← require_map node path
    known_keys (y.entries map) path allowed

  unfoldable pub parse_string : y.Node → Where → Parsed String
  unfolding converted
  parse_string node path = converted path (y.as_string node)

  unfoldable pub parse_bool : y.Node → Where → Parsed Bool
  unfolding converted
  parse_bool node path = converted path (y.as_bool node)

  -- node.as<bool>(), which throws without a path
  unfoldable pub raw_bool : y.Node → Where → Parsed Bool
  unfolding escaping
  raw_bool node path = escaping (y.as_bool node)

  -- parseNumeric of an unsigned type of `bits` bits
  unfoldable pub parse_unsigned : ℕ → y.Node → Where → Parsed ℕ
  unfolding refuse begins_minus converted
  parse_unsigned bits node path = do
    refuse (begins_minus (y.scalar_text node)) path "negative unsigned value"
    converted path (y.as_unsigned bits node)

  unfoldable pub parse_signed : ℕ → y.Node → Where → Parsed ℤ
  unfolding converted
  parse_signed bits node path = converted path (y.as_signed bits node)

  -- parseNumeric<float> and parseNumeric<double>
  unfoldable pub parse_number : PrimitiveType → y.Node → Where → Parsed y.Number
  unfolding converted refuse
  parse_number type node path = do
    value ← converted path (y.as_number type node)
    refuse (not (y.is_finite value)) path "must be finite"
    ok value

  -- if (node[name]) value = parse(node[name], path + "." + name);
  unfoldable pub optional :
      {A : Type 0} → (y.Node → Where → Parsed A) → y.Node → Where → String → A → Parsed A
  optional parse node path name value =
      if y.is_defined (y.get node name) then parse (y.get node name) (below path name) else ok value

  unfoldable pub optional_some :
      {A : Type 0} → (y.Node → Where → Parsed A) → y.Node → Where → String → Parsed (Option A)
  optional_some parse node path name =
      if y.is_defined (y.get node name)
      then parse (y.get node name) (below path name) >>= (λ value. ok (some value))
      else ok none

  -- parse(requireNode(node, name, path), path + "." + name)
  unfoldable pub required :
      {A : Type 0} → (y.Node → Where → Parsed A) → y.Node → Where → String → Parsed A
  unfolding require_node
  required parse node path name = do
    child ← require_node node name path
    parse child (below path name)

  unfoldable pub parse_each :
      {A : Type 0} → (y.Node → Where → Parsed A) → Where → ℕ → List y.Node → Parsed (List A)
  parse_each parse path i [] = ok []
  parse_each parse path i (node ∷ nodes) = do
    value ← parse node (element path i)
    rest ← parse_each parse path (i + 1) nodes
    ok (value ∷ rest)
