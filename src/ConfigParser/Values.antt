-- ===== src/ConfigParser/Values.antt =====
-- The enumerations and initial values of a PV, as src/config.cpp reads them.
use redis_pvxs_ioc.Prelude.{ℕ, String, Bool, not, ◌||◌, ltb, leb, if◌then◌else◌, str_eq}
use Prim.Native.String.{◌++◌ as str_append}
use redis_pvxs_ioc.Prelude.Results.{ok, err, ◌>>=◌, ◌>>◌}
use redis_pvxs_ioc.Prelude.Int.{ℤ, pos, negsuc}
use redis_pvxs_ioc.Config.{
  PrimitiveType, Shape, DisplayForm, TypedValue, scalar, array, monostate, truth, integer, floating,
  text, integers, floatings, default, string_, binary, decimal, hex, exponential, engineering,
}
use redis_pvxs_ioc.ConfigParser.{
  Yaml, Where, Parsed, failed, refuse, parse_string, raw_bool, parse_unsigned, parse_signed,
  parse_number, require_sequence, parse_each,
}
use redis_pvxs_ioc.ConfigParser.Text.{lower_copy}

abbrev fail : {A : Type 0} → Where → String → String → Parsed A
fail path message value = err (failed path (str_append message (str_append value "'")))

unfoldable pub primitive_type_of : Where → String → Parsed PrimitiveType
primitive_type_of path type =
    if str_eq type "bool" || str_eq type "boolean"
    then ok PrimitiveType.boolean
    else if str_eq type "int8"
    then ok PrimitiveType.int8
    else if str_eq type "uint8"
    then ok PrimitiveType.uint8
    else if str_eq type "int16"
    then ok PrimitiveType.int16
    else if str_eq type "uint16"
    then ok PrimitiveType.uint16
    else if str_eq type "int32"
    then ok PrimitiveType.int32
    else if str_eq type "uint32"
    then ok PrimitiveType.uint32
    else if str_eq type "int64"
    then ok PrimitiveType.int64
    else if str_eq type "uint64"
    then ok PrimitiveType.uint64
    else if str_eq type "float32" || str_eq type "float"
    then ok PrimitiveType.float32
    else if str_eq type "float64" || str_eq type "double"
    then ok PrimitiveType.float64
    else if str_eq type "string"
    then ok PrimitiveType.string
    else fail path "unsupported primitive type '" type

unfoldable pub shape_of : Where → String → Parsed Shape
shape_of path shape =
    if str_eq shape "scalar"
    then ok scalar
    else if str_eq shape "array"
    then ok array
    else fail path "unsupported shape '" shape

unfoldable pub display_form_of : Where → String → Parsed DisplayForm
display_form_of path form =
    if str_eq form "default"
    then ok default
    else if str_eq form "string"
    then ok string_
    else if str_eq form "binary"
    then ok binary
    else if str_eq form "decimal"
    then ok decimal
    else if str_eq form "hex"
    then ok hex
    else if str_eq form "exponential"
    then ok exponential
    else if str_eq form "engineering"
    then ok engineering
    else fail path "unsupported display form '" form

-- -128 <= value <= 127
unfoldable pub is_i8 : ℤ → Bool
is_i8 (pos n) = leb n 127
is_i8 (negsuc n) = leb n 127

module _ (y : Yaml) where
  unfoldable pub parse_primitive_type : y.Node → Where → Parsed PrimitiveType
  unfolding primitive_type_of lower_copy
  parse_primitive_type node path =
      parse_string y node path >>= λ s. primitive_type_of path (lower_copy s)

  unfoldable pub parse_shape : y.Node → Where → Parsed Shape
  unfolding shape_of lower_copy
  parse_shape node path = parse_string y node path >>= λ s. shape_of path (lower_copy s)

  unfoldable pub parse_display_form : y.Node → Where → Parsed DisplayForm
  unfolding display_form_of lower_copy
  parse_display_form node path =
      parse_string y node path >>= λ s. display_form_of path (lower_copy s)

  unfoldable pub parse_int8 : y.Node → Where → Parsed ℤ
  unfolding is_i8 refuse
  parse_int8 node path = do
    value ← parse_signed y 32 node path
    refuse (not (is_i8 value)) path "outside int8 range"
    ok value

  unfoldable pub parse_uint8 : y.Node → Where → Parsed ℕ
  unfolding refuse
  parse_uint8 node path = do
    value ← parse_unsigned y 32 node path
    refuse (ltb 255 value) path "outside uint8 range"
    ok value

  abbrev widened : (y.Node → Where → Parsed ℕ) → y.Node → Where → Parsed ℤ
  widened parse node path = parse node path >>= λ n. ok (pos n)

  -- parseNumeric of an integral type
  unfoldable pub parse_integer : PrimitiveType → y.Node → Where → Parsed ℤ
  unfolding parse_int8 parse_uint8
  parse_integer PrimitiveType.int8 = parse_int8
  parse_integer PrimitiveType.uint8 = widened parse_uint8
  parse_integer PrimitiveType.int16 = parse_signed y 16
  parse_integer PrimitiveType.uint16 = widened (parse_unsigned y 16)
  parse_integer PrimitiveType.int32 = parse_signed y 32
  parse_integer PrimitiveType.uint32 = widened (parse_unsigned y 32)
  parse_integer PrimitiveType.int64 = parse_signed y 64
  parse_integer _ = widened (parse_unsigned y 64)

  unfoldable pub parse_scalar_initial :
      PrimitiveType → y.Node → Where → Parsed (TypedValue y.Number)
  unfolding parse_integer
  parse_scalar_initial PrimitiveType.boolean node path = raw_bool y node path >>= λ b. ok (truth b)
  parse_scalar_initial PrimitiveType.string node path =
      parse_string y node path >>= λ s. ok (text s)
  parse_scalar_initial PrimitiveType.float32 node path =
      parse_number y PrimitiveType.float32 node path >>= λ x. ok (floating PrimitiveType.float32 x)
  parse_scalar_initial PrimitiveType.float64 node path =
      parse_number y PrimitiveType.float64 node path >>= λ x. ok (floating PrimitiveType.float64 x)
  parse_scalar_initial type node path = parse_integer type node path >>= λ i. ok (integer type i)

  unfoldable pub parse_floatings : PrimitiveType → y.Node → Where → Parsed (TypedValue y.Number)
  parse_floatings type node path = do
    sequence ← require_sequence y node path
    values ← parse_each y (parse_number y type) path 0 (y.items sequence)
    ok (floatings type values)

  unfoldable pub parse_integers : PrimitiveType → y.Node → Where → Parsed (TypedValue y.Number)
  unfolding parse_integer
  parse_integers type node path = do
    sequence ← require_sequence y node path
    values ← parse_each y (parse_integer type) path 0 (y.items sequence)
    ok (integers type values)

  unfoldable pub parse_array_initial : PrimitiveType → y.Node → Where → Parsed (TypedValue y.Number)
  unfolding parse_floatings parse_integers
  parse_array_initial PrimitiveType.boolean node path =
      err (failed path "array initial value is unsupported for this type")
  parse_array_initial PrimitiveType.string node path =
      err (failed path "array initial value is unsupported for this type")
  parse_array_initial PrimitiveType.float32 node path =
      parse_floatings PrimitiveType.float32 node path
  parse_array_initial PrimitiveType.float64 node path =
      parse_floatings PrimitiveType.float64 node path
  parse_array_initial type node path = parse_integers type node path

  unfoldable pub parse_initial_value :
      y.Node → PrimitiveType → Shape → Where → Parsed (TypedValue y.Number)
  unfolding parse_scalar_initial parse_array_initial
  parse_initial_value node type scalar path =
      if y.is_defined node then parse_scalar_initial type node path else ok monostate
  parse_initial_value node type array path =
      if y.is_defined node then parse_array_initial type node path else ok monostate
