-- ===== src/NdArray/Tests.antt =====
-- Runs of src/ntndarray.cpp on small inputs, and the theorems at them.
use redis_pvxs_ioc.Prelude.{
  ◌+◌, ◌-◌, ◌^◌, ◌≤◌, ◌<◌, ◌≡◌, refl, true, false, none, some, [], ◌∷◌, arith, str_eq,
  if◌then◌else◌, All,
}
use redis_pvxs_ioc.Prelude.Results.{ok, err}
use redis_pvxs_ioc.Prelude.Int.{pos, negsuc, to_u32}
use redis_pvxs_ioc.Config.{PrimitiveType}
use redis_pvxs_ioc.NdArray.{
  bytes, NdArrayAttrs, NdArrayFrame, rgb1, unknown, required, from_chars, parse_unsigned,
  from_chars_signed, parse_signed, parse_data_type, data_type_of, parse_color_mode, same_bytes,
  element_size, frame_too_large,
}
use redis_pvxs_ioc.NdArray.Shape.{
  parse_shape, parse_dimensions, read_dimension, validate_color_shape,
}
use redis_pvxs_ioc.NdArray.Shape.Bounds.{IsDimension}
use redis_pvxs_ioc.NdArray.Gap.{assess_frame_gap, Follows, assess_frame_gap-Follows}
use redis_pvxs_ioc.NdArray.Frame.{
  parse_frame, parse_provenance, expected_bytes, host_order, is_positive, magnitude, is_i32,
}
use redis_pvxs_ioc.NdArray.Frame.Sizes.{expected_bytes_lem}
use redis_pvxs_ioc.NdArray.Frame.Validity.{IsValid, parse_frame-IsValid}

accepts_spaces : parse_shape (bytes "[ 4,2]") ≡ ok (4 ∷ 2 ∷ [])
unfolding parse_shape parse_dimensions read_dimension parse_unsigned from_chars
accepts_spaces = refl

-- A comma before the closing bracket is taken, which JSON does not allow.
accepts_trailing_comma : parse_shape (bytes "[4,]") ≡ ok (4 ∷ [])
unfolding parse_shape parse_dimensions read_dimension parse_unsigned from_chars
accepts_trailing_comma = refl

-- A one-pixel RGB frame.
abbrev attrs : NdArrayAttrs
attrs name =
    if str_eq name "schema"
    then some (bytes "fermi-ad/redis-adapter/ntndarray:1")
    else if str_eq name "data_type"
    then some (bytes "1")
    else if str_eq name "shape"
    then some (bytes "[3]")
    else if str_eq name "color_mode"
    then some (bytes "rgb1")
    else if str_eq name "unique_id"
    then some (bytes "-7")
    else if str_eq name "_"
    then some (9 ∷ 8 ∷ 7 ∷ [])
    else none

abbrev pixel : NdArrayFrame
pixel = record {
  data_type = PrimitiveType.uint8;
  shape = 3 ∷ [];
  color_mode = rgb1;
  payload = 9 ∷ 8 ∷ 7 ∷ [];
  unique_id = negsuc 6;
  data_timestamp_ns = 5;
  provenance = record {
    source = unknown;
    uncertainty_ns = none;
    camera_timestamp = none;
    camera_timestamp_hz = none;
  };
}

parses_pixel : parse_frame true attrs (pos 5) 100 ≡ ok pixel
unfolding parse_frame required same_bytes is_positive parse_data_type parse_unsigned from_chars
    data_type_of parse_shape parse_color_mode validate_color_shape parse_signed from_chars_signed
    is_i32 parse_provenance expected_bytes host_order magnitude
parses_pixel = refl

parse_frame-IsValid_example : IsValid 100 pixel
parse_frame-IsValid_example = parse_frame-IsValid true attrs (pos 5) 100 pixel parses_pixel

dims : All IsDimension (65536 ∷ 65536 ∷ [])
dims = (
  record { positive = omega arith; small = omega arith },
  (record { positive = omega arith; small = omega arith }, tt),
)

expected_bytes_lem_example :
    expected_bytes PrimitiveType.float64 (65536 ∷ 65536 ∷ []) 1000 ≡ err frame_too_large
unfolding element_size
expected_bytes_lem_example =
    expected_bytes_lem PrimitiveType.float64 8 1000 (65536 ∷ 65536 ∷ []) dims refl

-- From the greatest int32 the next id is the least.
rollover : Follows 1 (pos (2 ^ 31 - 1)) (negsuc (2 ^ 31 - 1))
unfolding to_u32
rollover = refl

assess_frame_gap-Follows_example :
    (1 ≤ 1
      → assess_frame_gap (pos (2 ^ 31 - 1)) (negsuc (2 ^ 31 - 1)) 10
        ≡ record { skipped = 0; discontinuity = false })
    × (2 ≤ 1
        → 1 < 2 ^ 31
        → 1 ≤ 10 + 1
        → assess_frame_gap (pos (2 ^ 31 - 1)) (negsuc (2 ^ 31 - 1)) 10
          ≡ record { skipped = 1 - 1; discontinuity = false })
    × (2 ≤ 1
        → 10 + 1 < 1
        → assess_frame_gap (pos (2 ^ 31 - 1)) (negsuc (2 ^ 31 - 1)) 10
          ≡ record { skipped = 0; discontinuity = true })
    × (2 ^ 31 ≤ 1
        → assess_frame_gap (pos (2 ^ 31 - 1)) (negsuc (2 ^ 31 - 1)) 10
          ≡ record { skipped = 0; discontinuity = true })
assess_frame_gap-Follows_example =
    assess_frame_gap-Follows 1 10 (pos (2 ^ 31 - 1)) (negsuc (2 ^ 31 - 1)) (omega arith) rollover
