-- ===== src/Util/Conv.antt =====
-- pkg/util/conv/conv.go: conversions to 32 bits that clamp.
use k8s_controller_lib.Prelude.{◌+◌, ℕ, ◌-◌, ◌≤◌, arith, ltb, if◌then◌else◌}
use Prim.Native.Nat.{◌%◌}
use k8s_controller_lib.Prelude.Int.{pos_part, neg_part, ℤ, pos, negsuc, ◌≤ℤ◌, ltb_ℤ}

abbrev pub max_int32 : ℤ
max_int32 = pos 2147483647

abbrev pub min_int32 : ℤ
min_int32 = negsuc 2147483647

-- The low 32 bits of an `int64`.
low_bits : ℤ → ℕ
low_bits (pos n) = n % 4294967296
low_bits (negsuc n) = 4294967295 - n % 4294967296

-- `int32(val)`: the low 32 bits, read as a two's complement number.
pub to_int32 : ℤ → ℤ
unfolding low_bits
to_int32 v =
    if ltb (low_bits v) 2147483648 then pos (low_bits v) else negsuc (4294967295 - low_bits v)

-- `SafeInt32`
pub safe_int32 : ℤ → ℤ
unfolding to_int32
safe_int32 val =
    if ltb_ℤ max_int32 val
    then max_int32
    else if ltb_ℤ val min_int32
    then min_int32
    else to_int32 val

-- `SafeUint32`; the conversion `uint32(val)` keeps the low 32 bits.
pub safe_uint32 : ℕ → ℕ
safe_uint32 val = if ltb 4294967295 val then 4294967295 else val % 4294967296

-- The distance of two integers.
abbrev pub dist : ℤ → ℤ → ℕ
dist a b =
    pos_part a
    + neg_part b
    - (pos_part b + neg_part a)
    + (pos_part b + neg_part a - (pos_part a + neg_part b))

-- `SafeInt32`
pub safe_int32_nearest :
    (val w : ℤ)
    → min_int32 ≤ℤ w
    → w ≤ℤ max_int32
    → (min_int32 ≤ℤ safe_int32 val)
      × (safe_int32 val ≤ℤ max_int32)
      × (dist (safe_int32 val) val ≤ dist w val)
unfolding safe_int32
safe_int32_nearest (pos n) w lo hi = (ground arith, ground arith, ground arith)
safe_int32_nearest (negsuc n) w lo hi = (ground arith, ground arith, ground arith)

-- `SafeUint32`
pub safe_uint32_nearest :
    (val w : ℕ)
    → w ≤ 4294967295
    → (safe_uint32 val ≤ 4294967295)
      × (dist (pos (safe_uint32 val)) (pos val) ≤ dist (pos w) (pos val))
unfolding safe_uint32
safe_uint32_nearest val w hi = (ground arith, ground arith)

-- The result of `SafeInt32` is an `int32`, and no other `int32` `w` is nearer to the argument; the result
-- of `SafeUint32`, whose argument is not negative, is a `uint32`, and no other `uint32` `u` is nearer.
pub conversions_nearest :
    (val w : ℤ) (n u : ℕ)
    → min_int32 ≤ℤ w
    → w ≤ℤ max_int32
    → u ≤ 4294967295
    → ((min_int32 ≤ℤ safe_int32 val)
        × (safe_int32 val ≤ℤ max_int32)
        × (dist (safe_int32 val) val ≤ dist w val))
      × ((safe_uint32 n ≤ 4294967295) × (dist (pos (safe_uint32 n)) (pos n) ≤ dist (pos u) (pos n)))
conversions_nearest val w n u low high fits =
    (safe_int32_nearest val w low high, safe_uint32_nearest n u fits)
