-- ===== src/Fixed/Convert.antt =====
-- The conversions between `int32_t` and the fixed-point scalar.
use laige_cpp.Prelude.{◌≡◌, arith}
use laige_cpp.Prelude.Int.{ℤ, pos, negsuc, ◌≤ℤ◌, ◌+ℤ◌}
use laige_cpp.Fixed.{Fpx16, from_int32, to_int32, round_half_to_even, IsInt32}
use laige_cpp.Fixed.Rounding.{IsNearestEven, round_half_to_even_nearest}

-- Converting an integer there and back gives it again in [-32768, 32768], and the nearer end of
-- that range outside it.
pub to_int32-from_int32 :
    (v : ℤ)
    → (negsuc 32767 ≤ℤ v → v ≤ℤ pos 32768 → to_int32 (from_int32 v) ≡ v)
      × (v ≤ℤ negsuc 32767 → to_int32 (from_int32 v) ≡ negsuc 32767)
      × (pos 32768 ≤ℤ v → to_int32 (from_int32 v) ≡ pos 32768)
unfolding to_int32 from_int32 round_half_to_even ◌+ℤ◌
to_int32-from_int32 (pos n) = ground arith
to_int32-from_int32 (negsuc n) = ground arith

module _ (p : ℤ) (h : IsInt32 p) where
  rounded_low : negsuc 32767 ≤ℤ round_half_to_even p
  unfolding round_half_to_even ◌+ℤ◌
  rounded_low = ground arith

  rounded_high : round_half_to_even p ≤ℤ pos 32768
  unfolding round_half_to_even ◌+ℤ◌
  rounded_high = ground arith

-- `to_int32` gives the integer nearest to the value, the even one on a tie, and lies in
-- [-32768, 32768].
pub to_int32_nearest :
    (x : Fpx16)
    → IsInt32 x.raw
    → IsNearestEven x.raw 65536 (to_int32 x)
      × (negsuc 32767 ≤ℤ to_int32 x)
      × (to_int32 x ≤ℤ pos 32768)
unfolding to_int32
to_int32_nearest x h = (round_half_to_even_nearest x.raw, rounded_low x.raw h, rounded_high x.raw h)
