-- ===== src/NdArray.antt =====
-- src/ntndarray.cpp and include/redis_pvxs_ioc/ntndarray.h. A `std::string` is the list of its
-- bytes, a suffix of it stands for a position in it, and what is thrown is a value.
pub mod Shape
pub mod Frame
pub mod Gap
mod Tests
use redis_pvxs_ioc.Prelude.{
  ℕ, zero, suc, ◌+◌, ◌-◌, ◌*◌, ◌/◌, ◌%◌, ◌^◌, String, Bool, true, false, not, ◌&&◌, ◌||◌, Option,
  none, some, List, [], ◌∷◌, ◌++◌, ◌==◌, ltb, leb, if◌then◌else◌, length,
}
use redis_pvxs_ioc.Prelude.Results.{Result, ok, err, ◌>>=◌, ◌>>◌, fail_if, or_fail}
use redis_pvxs_ioc.Prelude.Int.{ℤ, pos, negsuc, to_u32}
use redis_pvxs_ioc.Config.{PrimitiveType}
pub use redis_pvxs_ioc.Prelude.Bytes.{Bytes, bytes}
unfoldable pub use redis_pvxs_ioc.Prelude.Bytes.{same_bytes}

pub data NdColorMode : Type 0 where
  mono rgb1 rgb2 rgb3 : NdColorMode

pub data NdTimeSource : Type 0 where
  unknown host camera_correlated ptp external_trigger : NdTimeSource

pub record NdTimeProvenance : Type 0 where
  pub source : NdTimeSource
  pub uncertainty_ns : Option ℕ
  pub camera_timestamp : Option ℕ
  pub camera_timestamp_hz : Option ℕ

pub record NdArrayFrame : Type 0 where
  pub data_type : PrimitiveType
  pub shape : List ℕ
  pub color_mode : NdColorMode
  pub payload : List ℕ
  pub unique_id : ℤ
  pub data_timestamp_ns : ℕ
  pub provenance : NdTimeProvenance

-- The `runtime_error`s, one for each message.
pub data FrameError : Type 0 where
  missing_field : String → FrameError
  invalid_unsigned : String → FrameError
  invalid_signed : String → FrameError
  unsupported_data_type : FrameError
  unsupported_color_mode : FrameError
  shape_not_array : FrameError
  shape_rank : FrameError
  shape_not_positive : FrameError
  shape_out_of_range : FrameError
  shape_invalid_json : FrameError
  unsupported_time_source : FrameError
  channel_dimension : FrameError
  non_numeric_type : FrameError
  unsupported_schema : FrameError
  stream_id_range : FrameError
  unique_id_range : FrameError
  element_count_overflow : FrameError
  byte_count_overflow : FrameError
  frame_too_large : FrameError
  payload_length : FrameError

-- NDArrayAttrs
abbrev pub NdArrayAttrs : Type 0
NdArrayAttrs = String → Option Bytes

unfoldable pub required : NdArrayAttrs → String → Result FrameError Bytes
required attrs name = or_fail (attrs name) (missing_field name)

abbrev pub is_digit : ℕ → Bool
is_digit c = leb b'0' c && leb c b'9'

-- The value of a text that is all digits.
unfoldable pub decimal : ℕ → Bytes → Option ℕ
decimal n [] = some n
decimal n (c ∷ cs) = if is_digit c then decimal (n * 10 + (c - b'0')) cs else none

within : ℕ → Option ℕ → Option ℕ
within limit none = none
within limit (some n) = if leb n limit then some n else none

-- std::from_chars, of a whole text, into an unsigned type with the greatest value `limit`.
unfoldable pub from_chars : ℕ → Bytes → Option ℕ
unfolding decimal within
from_chars limit [] = none
from_chars limit (c ∷ cs) = within limit (decimal 0 (c ∷ cs))

abbrev pub max_u32 : ℕ
max_u32 = 2 ^ 32 - 1

abbrev pub max_u64 : ℕ
max_u64 = 2 ^ 64 - 1

-- parseUnsigned<T>
unfoldable pub parse_unsigned : ℕ → Bytes → String → Result FrameError ℕ
parse_unsigned limit value name = or_fail (from_chars limit value) (invalid_unsigned name)

-- parseSigned<int64_t>; `-0` is 0.
negated : Option ℕ → Option ℤ
negated none = none
negated (some zero) = some (pos 0)
negated (some (suc n)) = some (negsuc n)

positive : Option ℕ → Option ℤ
positive none = none
positive (some n) = some (pos n)

unfoldable pub from_chars_signed : Bytes → Option ℤ
unfolding negated positive
from_chars_signed [] = none
from_chars_signed (c ∷ cs) =
    if c == b'-'
    then negated (from_chars (2 ^ 63) cs)
    else positive (from_chars (2 ^ 63 - 1) (c ∷ cs))

unfoldable pub parse_signed : Bytes → String → Result FrameError ℤ
parse_signed value name = or_fail (from_chars_signed value) (invalid_signed name)

unfoldable pub data_type_of : ℕ → Result FrameError PrimitiveType
data_type_of n =
    if n == 0
    then ok PrimitiveType.int8
    else if n == 1
    then ok PrimitiveType.uint8
    else if n == 2
    then ok PrimitiveType.int16
    else if n == 3
    then ok PrimitiveType.uint16
    else if n == 4
    then ok PrimitiveType.int32
    else if n == 5
    then ok PrimitiveType.uint32
    else if n == 6
    then ok PrimitiveType.int64
    else if n == 7
    then ok PrimitiveType.uint64
    else if n == 8
    then ok PrimitiveType.float32
    else if n == 9
    then ok PrimitiveType.float64
    else err unsupported_data_type

unfoldable pub parse_data_type : Bytes → Result FrameError PrimitiveType
parse_data_type text = parse_unsigned max_u32 text "data_type" >>= data_type_of

unfoldable pub parse_color_mode : Bytes → Result FrameError NdColorMode
parse_color_mode text =
    if same_bytes text (bytes "mono")
    then ok mono
    else if same_bytes text (bytes "rgb1")
    then ok rgb1
    else if same_bytes text (bytes "rgb2")
    then ok rgb2
    else if same_bytes text (bytes "rgb3")
    then ok rgb3
    else err unsupported_color_mode

unfoldable pub parse_time_source : Bytes → Result FrameError NdTimeSource
parse_time_source value =
    if same_bytes value (bytes "unknown")
    then ok unknown
    else if same_bytes value (bytes "host")
    then ok host
    else if same_bytes value (bytes "camera_correlated")
    then ok camera_correlated
    else if same_bytes value (bytes "ptp")
    then ok ptp
    else if same_bytes value (bytes "external_trigger")
    then ok external_trigger
    else err unsupported_time_source

unfoldable pub element_size : PrimitiveType → Result FrameError ℕ
element_size PrimitiveType.int8 = ok 1
element_size PrimitiveType.uint8 = ok 1
element_size PrimitiveType.int16 = ok 2
element_size PrimitiveType.uint16 = ok 2
element_size PrimitiveType.int32 = ok 4
element_size PrimitiveType.uint32 = ok 4
element_size PrimitiveType.float32 = ok 4
element_size PrimitiveType.int64 = ok 8
element_size PrimitiveType.uint64 = ok 8
element_size PrimitiveType.float64 = ok 8
element_size PrimitiveType.boolean = err non_numeric_type
element_size PrimitiveType.string = err non_numeric_type
