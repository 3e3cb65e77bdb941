-- ===== src/ConfigParser/Names.antt =====
-- The names that `toString` of src/config.cpp gives, and the reader's view of them.
use redis_pvxs_ioc.Prelude.{◌≡◌, refl, String}
use redis_pvxs_ioc.Prelude.Results.{ok}
use redis_pvxs_ioc.Config.{PrimitiveType, Shape, PvKind, DisplayForm}
use redis_pvxs_ioc.ConfigParser.{Where}
use redis_pvxs_ioc.ConfigParser.Text.{lower_copy}
use redis_pvxs_ioc.ConfigParser.Values.{primitive_type_of, shape_of, display_form_of}
use redis_pvxs_ioc.ConfigParser.Pv.Definition.{kind_of}

unfoldable pub type_to_string : PrimitiveType → String
type_to_string PrimitiveType.boolean = "bool"
type_to_string PrimitiveType.int8 = "int8"
type_to_string PrimitiveType.uint8 = "uint8"
type_to_string PrimitiveType.int16 = "int16"
type_to_string PrimitiveType.uint16 = "uint16"
type_to_string PrimitiveType.int32 = "int32"
type_to_string PrimitiveType.uint32 = "uint32"
type_to_string PrimitiveType.int64 = "int64"
type_to_string PrimitiveType.uint64 = "uint64"
type_to_string PrimitiveType.float32 = "float32"
type_to_string PrimitiveType.float64 = "float64"
type_to_string PrimitiveType.string = "string"

unfoldable pub shape_to_string : Shape → String
shape_to_string Shape.scalar = "scalar"
shape_to_string Shape.array = "array"

unfoldable pub kind_to_string : PvKind → String
kind_to_string PvKind.value = "value"
kind_to_string PvKind.ntndarray = "ntndarray"

unfoldable pub form_to_string : DisplayForm → String
form_to_string DisplayForm.default = "default"
form_to_string DisplayForm.string_ = "string"
form_to_string DisplayForm.binary = "binary"
form_to_string DisplayForm.decimal = "decimal"
form_to_string DisplayForm.hex = "hex"
form_to_string DisplayForm.exponential = "exponential"
form_to_string DisplayForm.engineering = "engineering"

type_read_back :
    (path : Where) (type : PrimitiveType)
    → primitive_type_of path (lower_copy (type_to_string type)) ≡ ok type
unfolding primitive_type_of lower_copy type_to_string
type_read_back path PrimitiveType.boolean = refl
type_read_back path PrimitiveType.int8 = refl
type_read_back path PrimitiveType.uint8 = refl
type_read_back path PrimitiveType.int16 = refl
type_read_back path PrimitiveType.uint16 = refl
type_read_back path PrimitiveType.int32 = refl
type_read_back path PrimitiveType.uint32 = refl
type_read_back path PrimitiveType.int64 = refl
type_read_back path PrimitiveType.uint64 = refl
type_read_back path PrimitiveType.float32 = refl
type_read_back path PrimitiveType.float64 = refl
type_read_back path PrimitiveType.string = refl

shape_read_back :
    (path : Where) (shape : Shape) → shape_of path (lower_copy (shape_to_string shape)) ≡ ok shape
unfolding shape_of lower_copy shape_to_string
shape_read_back path Shape.scalar = refl
shape_read_back path Shape.array = refl

kind_read_back :
    (path : Where) (kind : PvKind) → kind_of path (lower_copy (kind_to_string kind)) ≡ ok kind
unfolding kind_of lower_copy kind_to_string
kind_read_back path PvKind.value = refl
kind_read_back path PvKind.ntndarray = refl

form_read_back :
    (path : Where) (form : DisplayForm)
    → display_form_of path (lower_copy (form_to_string form)) ≡ ok form
unfolding display_form_of lower_copy form_to_string
form_read_back path DisplayForm.default = refl
form_read_back path DisplayForm.string_ = refl
form_read_back path DisplayForm.binary = refl
form_read_back path DisplayForm.decimal = refl
form_read_back path DisplayForm.hex = refl
form_read_back path DisplayForm.exponential = refl
form_read_back path DisplayForm.engineering = refl

-- The name of each primitive type, shape, kind and display form is read back to it.
pub names_read_back :
    (path : Where) (type : PrimitiveType) (shape : Shape) (kind : PvKind) (form : DisplayForm)
    → (primitive_type_of path (lower_copy (type_to_string type)) ≡ ok type)
      × (shape_of path (lower_copy (shape_to_string shape)) ≡ ok shape)
      × (kind_of path (lower_copy (kind_to_string kind)) ≡ ok kind)
      × (display_form_of path (lower_copy (form_to_string form)) ≡ ok form)
names_read_back path type shape kind form = (
  type_read_back path type,
  shape_read_back path shape,
  kind_read_back path kind,
  form_read_back path form,
)
