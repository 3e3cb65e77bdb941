-- ===== src/NdArray/Frame/Validity.antt =====
-- What holds of every frame that `parseNDArrayFrame` of src/ntndarray.cpp accepts.
use redis_pvxs_ioc.Prelude.{
  ℕ, ◌*◌, ◌^◌, ◌≤◌, ◌<◌, ◌≡◌, ◌∙◌, refl, Bool, true, false, not, some, List, arith, ◌==◌, length,
  get_elem?, All, word,
}
use redis_pvxs_ioc.Prelude.Results.{ok, fail_if, Ensures, Ensures-ok, Ensures-bind}
use redis_pvxs_ioc.Prelude.Int.{ℤ, pos, negsuc}
use redis_pvxs_ioc.NdArray.{
  FrameError, NdArrayAttrs, NdArrayFrame, NdColorMode, mono, rgb1, rgb2, rgb3, required, bytes,
  same_bytes, element_size, parse_data_type, parse_color_mode, parse_signed, unsupported_schema,
  stream_id_range, unique_id_range, payload_length,
}
use redis_pvxs_ioc.NdArray.Shape.{parse_shape, validate_color_shape}
use redis_pvxs_ioc.NdArray.Shape.Bounds.{IsDimension, parse_shape_bounds}
use redis_pvxs_ioc.NdArray.Frame.{
  payload_field, expected_bytes, host_order, is_positive, magnitude, is_i32, parse_frame, schema,
  parse_provenance,
}
use redis_pvxs_ioc.NdArray.Frame.Sizes.{product, expected_bytes-eq-ok, length-host_order}

-- In the colour modes one dimension is the channels, by the mode's layout.
abbrev pub HasChannels : NdColorMode → List ℕ → Type 0
HasChannels mono shape = Unit {0}
HasChannels rgb1 shape = get_elem? shape 0 ≡ some 3
HasChannels rgb2 shape = get_elem? shape 1 ≡ some 3
HasChannels rgb3 shape = get_elem? shape 2 ≡ some 3

-- The range of an int32 id.
abbrev pub IsI32 : ℤ → Type 0
IsI32 (pos n) = n < 2 ^ 31
IsI32 (negsuc n) = n < 2 ^ 31

pub record IsValid (max_frame_bytes : ℕ) (frame : NdArrayFrame) : Type 0 where
  pub dimensions : All IsDimension frame.shape
  pub rank : (1 ≤ length frame.shape) × (length frame.shape ≤ 3)
  pub channels : HasChannels frame.color_mode frame.shape
  pub unique_id : IsI32 frame.unique_id
  pub acquired : 1 ≤ frame.data_timestamp_ns
  pub sized :
      (width : ℕ) × (element_size frame.data_type ≡ ok width)
      × (length frame.payload ≡ product frame.shape * width)
  pub within : length frame.payload ≤ max_frame_bytes
  pub addressable : length frame.payload < word

validate-HasChannels :
    (mode : NdColorMode) (shape : List ℕ) (u : Unit {0})
    → validate_color_shape mode shape ≡ ok u
    → HasChannels mode shape
unfolding validate_color_shape
validate-HasChannels mono shape u h = tt
validate-HasChannels rgb1 shape u h = ground arith
validate-HasChannels rgb2 shape u h = ground arith
validate-HasChannels rgb3 shape u h = ground arith

is_i32-IsI32 : (z : ℤ) → is_i32 z ≡ true → IsI32 z
unfolding is_i32
is_i32-IsI32 (pos n) h = ground arith
is_i32-IsI32 (negsuc n) h = ground arith

magnitude_pos : (z : ℤ) → is_positive z ≡ true → 1 ≤ magnitude z
unfolding is_positive magnitude
magnitude_pos z h = ground arith

fail_if-ok : (b : Bool) (e : FrameError) (u : Unit {0}) → fail_if b e ≡ ok u → b ≡ false
fail_if-ok true e u h = cc
fail_if-ok false e u h = refl

-- Every frame that is accepted has one to three positive int32 dimensions, the channel dimension of
-- its colour mode, an int32 id, a positive acquisition time, and as many bytes as its shape and type
-- ask for, which are within the limit and within 64 bits.
pub parse_frame-IsValid :
    (little_endian : Bool) (attrs : NdArrayAttrs) (stream_timestamp_ns : ℤ) (max_frame_bytes : ℕ)
    (frame : NdArrayFrame)
    → parse_frame little_endian attrs stream_timestamp_ns max_frame_bytes ≡ ok frame
    → IsValid max_frame_bytes frame
unfolding parse_frame
parse_frame-IsValid le attrs ts max frame = accepted.at frame
  where
    accepted : Ensures (IsValid max) (parse_frame le attrs ts max)
    accepted = Ensures-bind _ (required attrs "schema") _ λ found _.
        Ensures-bind _ (fail_if (not (same_bytes found (bytes schema))) unsupported_schema) _ λ _ _.
          Ensures-bind _ (fail_if (not (is_positive ts)) stream_id_range) _ λ u positive.
            Ensures-bind _ (required attrs "data_type") _ λ type_text _.
              Ensures-bind _ (parse_data_type type_text) _ λ data_type _.
                Ensures-bind _ (required attrs "shape") _ λ shape_text _.
                  Ensures-bind _ (parse_shape shape_text) _ λ shape read.
                    Ensures-bind _ (required attrs "color_mode") _ λ color_text _.
                      Ensures-bind _ (parse_color_mode color_text) _ λ mode _.
                        Ensures-bind _ (validate_color_shape mode shape) _ λ v channels.
                          Ensures-bind _ (required attrs "unique_id") _ λ id_text _.
                            Ensures-bind _ (parse_signed id_text "unique_id") _ λ id _.
                              Ensures-bind _ (fail_if (not (is_i32 id)) unique_id_range) _
                                λ w in_range.
                                  Ensures-bind _ (parse_provenance attrs) _ λ provenance _.
                                    Ensures-bind _ (expected_bytes data_type shape max) _
                                      λ expected size.
                                        Ensures-bind _ (required attrs payload_field) _ λ payload _.
                                          Ensures-bind _
                                            (fail_if (not (length payload == expected))
                                              payload_length)
                                            _
                                            λ x fits.
                                              let s =
                                                expected_bytes-eq-ok data_type max expected shape
                                                  (parse_shape_bounds shape_text shape read).0
                                                  size in
                                              let full : length (host_order le data_type payload)
                                                  ≡ expected =
                                                ground (
                                                  arith,
                                                  length-host_order le data_type payload,
                                                  fail_if-ok _ _ x fits,
                                                ) in
                                              Ensures-ok _ _ (record {
                                                dimensions =
                                                    (parse_shape_bounds shape_text shape read).0;
                                                rank = (
                                                  (parse_shape_bounds shape_text shape read).1,
                                                  (parse_shape_bounds shape_text shape read).2,
                                                );
                                                channels =
                                                    validate-HasChannels mode shape v channels;
                                                unique_id =
                                                    is_i32-IsI32 id
                                                      (ground (arith, fail_if-ok _ _ w in_range));
                                                acquired =
                                                    magnitude_pos ts
                                                      (ground (arith, fail_if-ok _ _ u positive));
                                                sized = (s.0, s.1, full ∙ s.2);
                                                within = omega (arith, full, s.3);
                                                addressable = omega (arith, full, s.4);
                                              })
