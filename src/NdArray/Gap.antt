-- ===== src/NdArray/Gap.antt =====
-- `assessNDArrayFrameGap` of src/ntndarray.cpp: the serial arithmetic of frame ids.
use redis_pvxs_ioc.Prelude.{
  ℕ, ◌+◌, ◌-◌, ◌%◌, ◌^◌, ◌≤◌, ◌<◌, ◌≡◌, Bool, true, false, ◌||◌, arith, ltb, leb, if◌then◌else◌,
}
use redis_pvxs_ioc.Prelude.Int.{ℤ, pos, negsuc, to_u32}

pub record NdArrayFrameGap : Type 0 where
  pub skipped : ℕ
  pub discontinuity : Bool

-- static_cast<uint32_t>(current) - static_cast<uint32_t>(previous)
unfoldable pub frame_step : ℤ → ℤ → ℕ
frame_step previous current = (to_u32 current + 2 ^ 32 - to_u32 previous) % 2 ^ 32

unfoldable pub gap_of_step : ℕ → ℕ → NdArrayFrameGap
gap_of_step step max_frame_gap =
    if leb step 1
    then record { skipped = 0; discontinuity = false }
    else if leb (2 ^ 31) step || ltb max_frame_gap (step - 1)
    then record { skipped = 0; discontinuity = true }
    else record { skipped = step - 1; discontinuity = false }

unfoldable pub assess_frame_gap : ℤ → ℤ → ℕ → NdArrayFrameGap
unfolding gap_of_step frame_step
assess_frame_gap previous current max_frame_gap =
    gap_of_step (frame_step previous current) max_frame_gap

-- skippedNDArrayFrames
unfoldable pub skipped_frames : ℤ → ℤ → ℕ → ℕ
skipped_frames previous current max_frame_gap =
    (assess_frame_gap previous current max_frame_gap).skipped

-- The id `n` frames after another, in 32 bits: what an int32 counter of the source shows.
abbrev pub Follows : ℕ → ℤ → ℤ → Type 0
Follows n previous current = to_u32 current ≡ (to_u32 previous + n) % 2 ^ 32

to_u32-lt : (z : ℤ) → to_u32 z < 2 ^ 32
unfolding to_u32
to_u32-lt (pos n) = omega arith
to_u32-lt (negsuc n) = omega arith

frame_step-Follows :
    (n : ℕ) (previous current : ℤ)
    → n < 2 ^ 32
    → Follows n previous current
    → frame_step previous current ≡ n
unfolding frame_step
frame_step-Follows n previous current small f = omega (arith, to_u32-lt previous, to_u32-lt current)

-- Where the source has moved on by `n` frames, also across the wrap of the 32-bit id: one frame on,
-- or none, skips nothing; up to `max_frame_gap` missed frames are counted exactly; more, or a move of
-- 2 ^ 31 and over (a move backwards), is a discontinuity that counts nothing.
pub assess_frame_gap-Follows :
    (n max_frame_gap : ℕ) (previous current : ℤ)
    → n < 2 ^ 32
    → Follows n previous current
    → (n ≤ 1
        → assess_frame_gap previous current max_frame_gap
          ≡ record { skipped = 0; discontinuity = false })
      × (2 ≤ n
          → n < 2 ^ 31
          → n ≤ max_frame_gap + 1
          → assess_frame_gap previous current max_frame_gap
            ≡ record { skipped = n - 1; discontinuity = false })
      × (2 ≤ n
          → max_frame_gap + 1 < n
          → assess_frame_gap previous current max_frame_gap
            ≡ record { skipped = 0; discontinuity = true })
      × (2 ^ 31 ≤ n
          → assess_frame_gap previous current max_frame_gap
            ≡ record { skipped = 0; discontinuity = true })
unfolding assess_frame_gap
assess_frame_gap-Follows n m previous current small f =
    let step : frame_step previous current ≡ n = frame_step-Follows n previous current small f in
    rw step (λ h. ground arith, λ h i j. ground arith, λ h i. ground arith, λ h. ground arith)

-- The count never passes the ceiling, and a discontinuity counts nothing.
pub skipped_frames-le :
    (previous current : ℤ) (max_frame_gap : ℕ)
    → (skipped_frames previous current max_frame_gap ≤ max_frame_gap)
      × ((assess_frame_gap previous current max_frame_gap).discontinuity ≡ true
          → skipped_frames previous current max_frame_gap ≡ 0)
unfolding skipped_frames assess_frame_gap
skipped_frames-le previous current m = (ground arith, λ h. ground arith)
