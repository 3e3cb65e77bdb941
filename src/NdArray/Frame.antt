-- ===== src/NdArray/Frame.antt =====
-- `parseNDArrayFrame` of src/ntndarray.cpp. The host's byte order is an argument.
pub mod Sizes
pub mod Validity
use mathlib.Core.List.{reverse}
use redis_pvxs_ioc.Prelude.{
  ℕ, zero, suc, ◌+◌, ◌-◌, ◌*◌, ◌/◌, ◌%◌, ◌^◌, String, Bool, true, false, not, ◌&&◌, ◌||◌, Option,
  none, some, List, [], ◌∷◌, ◌++◌, ◌==◌, ltb, leb, if◌then◌else◌, length, take, drop, word,
}
use redis_pvxs_ioc.Prelude.Results.{Result, ok, err, ◌>>=◌, ◌>>◌, fail_if}
use redis_pvxs_ioc.Prelude.Int.{ℤ, pos, negsuc}
use redis_pvxs_ioc.Config.{PrimitiveType}
use redis_pvxs_ioc.NdArray.{
  Bytes, bytes, same_bytes, FrameError, NdArrayAttrs, NdArrayFrame, NdTimeProvenance, NdTimeSource,
  unknown, required, parse_data_type, parse_color_mode, parse_signed, parse_time_source,
  parse_unsigned, max_u64, element_size, unsupported_schema, stream_id_range, unique_id_range,
  element_count_overflow, byte_count_overflow, frame_too_large, payload_length,
}
use redis_pvxs_ioc.NdArray.Shape.{parse_shape, validate_color_shape}

-- kNTNDArrayRedisSchema, kNTNDArrayPayloadField
abbrev pub schema : String
schema = "fermi-ad/redis-adapter/ntndarray:1"

abbrev pub payload_field : String
payload_field = "_"

unfoldable pub parse_optional_unsigned : NdArrayAttrs → String → Result FrameError (Option ℕ)
parse_optional_unsigned attrs name = elim (attrs name) [
  | none ↦ ok none
  | some text ↦ parse_unsigned max_u64 text name >>= λ n. ok (some n)
]

-- The time source keeps its initial value where the attribute is missing.
unfoldable pub time_source_of : Option Bytes → Result FrameError NdTimeSource
time_source_of none = ok unknown
time_source_of (some text) = parse_time_source text

unfoldable pub parse_provenance : NdArrayAttrs → Result FrameError NdTimeProvenance
unfolding time_source_of parse_optional_unsigned
parse_provenance attrs = do
  source ← time_source_of (attrs "time_source")
  uncertainty ← parse_optional_unsigned attrs "time_uncertainty_ns"
  camera ← parse_optional_unsigned attrs "camera_timestamp"
  hz ← parse_optional_unsigned attrs "camera_timestamp_hz"
  ok (record {
    source = source;
    uncertainty_ns = uncertainty;
    camera_timestamp = camera;
    camera_timestamp_hz = hz;
  })

-- The product of the dimensions in 64 bits, tested before each step.
unfoldable pub count_elements : ℕ → List ℕ → Result FrameError ℕ
count_elements elements [] = ok elements
count_elements elements (d ∷ ds) =
    if ltb (max_u64 / d) elements
    then err element_count_overflow
    else count_elements ((elements * d) % word) ds

-- The bytes that a frame must have.
unfoldable pub expected_bytes : PrimitiveType → List ℕ → ℕ → Result FrameError ℕ
unfolding count_elements element_size
expected_bytes data_type shape max_frame_bytes = do
  elements ← count_elements 1 shape
  width ← element_size data_type
  fail_if (ltb (max_u64 / width) elements) byte_count_overflow
  let expected = (elements * width) % word
  fail_if (ltb max_frame_bytes expected) frame_too_large
  ok expected

-- The bytes of each of `n` elements in the reverse order.
unfoldable pub swap_elements : ℕ → ℕ → Bytes → Bytes
swap_elements zero width payload = payload
swap_elements (suc n) width payload =
    reverse (take width payload) ++ swap_elements n width (drop width payload)

unfoldable pub width_of : PrimitiveType → ℕ
width_of t = elim (element_size t) [ ok width ↦ width | err e ↦ 1 ]

-- Multi-byte pixels come in little-endian order.
unfoldable pub host_order : Bool → PrimitiveType → Bytes → Bytes
unfolding swap_elements width_of element_size
host_order little_endian data_type payload =
    if ltb 1 (width_of data_type) && not little_endian
    then swap_elements (length payload / width_of data_type) (width_of data_type) payload
    else payload

-- `streamTimestampNs <= 0`
unfoldable pub is_positive : ℤ → Bool
is_positive (pos zero) = false
is_positive (pos (suc n)) = true
is_positive (negsuc n) = false

unfoldable pub magnitude : ℤ → ℕ
magnitude (pos n) = n
magnitude (negsuc n) = 0

-- The range of int32
unfoldable pub is_i32 : ℤ → Bool
is_i32 (pos n) = ltb n (2 ^ 31)
is_i32 (negsuc n) = ltb n (2 ^ 31)

unfoldable pub parse_frame : Bool → NdArrayAttrs → ℤ → ℕ → Result FrameError NdArrayFrame
parse_frame little_endian attrs stream_timestamp_ns max_frame_bytes = do
  found_schema ← required attrs "schema"
  fail_if (not (same_bytes found_schema (bytes schema))) unsupported_schema
  fail_if (not (is_positive stream_timestamp_ns)) stream_id_range
  data_type_text ← required attrs "data_type"
  data_type ← parse_data_type data_type_text
  shape_text ← required attrs "shape"
  shape ← parse_shape shape_text
  color_text ← required attrs "color_mode"
  color_mode ← parse_color_mode color_text
  validate_color_shape color_mode shape
  id_text ← required attrs "unique_id"
  unique_id ← parse_signed id_text "unique_id"
  fail_if (not (is_i32 unique_id)) unique_id_range
  provenance ← parse_provenance attrs
  expected ← expected_bytes data_type shape max_frame_bytes
  payload ← required attrs payload_field
  fail_if (not (length payload == expected)) payload_length
  ok (record {
    data_type = data_type;
    shape = shape;
    color_mode = color_mode;
    payload = host_order little_endian data_type payload;
    unique_id = unique_id;
    data_timestamp_ns = magnitude stream_timestamp_ns;
    provenance = provenance;
  })
