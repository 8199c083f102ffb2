-- ===== src/VectorValue.antt =====
-- CoreLib/include/VectorValue.h: the values of the eight lanes (vector threads) of one register,
-- each an `int64_t` as its bit pattern; and `PACK8_BITS` of CoreLib/include/Task.h. Signed sums
-- that overflow, undefined in the source, wrap.
pub mod Lanes
pub mod SetLane
use ecc_cpu.Base.{
  ℕ, zero, suc, ◌+◌, ◌-◌, ◌*◌, ◌^◌, bit_and, bit_or, ◌<<<◌, u64, int8, int16, int32, bool_bit, Bool,
  true, false, not, ◌==◌, ltb, leb, if◌then◌else◌, Option, none, some, List, [], ◌∷◌, get_elem?,
  get_or, for_all,
}
use ecc_cpu.Base.Int.{ltb_ℤ, signed64}
use ecc_cpu.Defines.{flags_mask_eq, flags_mask_gt, flags_mask_lt}

pub record VectorValue : Type 0 where
  pub data0 : ℕ
  pub data1 : ℕ
  pub data2 : ℕ
  pub data3 : ℕ
  pub data4 : ℕ
  pub data5 : ℕ
  pub data6 : ℕ
  pub data7 : ℕ

abbrev pub lanes : VectorValue → List ℕ
lanes v = v.data0 ∷ v.data1 ∷ v.data2 ∷ v.data3 ∷ v.data4 ∷ v.data5 ∷ v.data6 ∷ v.data7 ∷ []

-- `v.data[i]`, where `i < 8`
abbrev pub lane : VectorValue → ℕ → ℕ
lane v i = get_or (lanes v) i 0

-- `v.data[i] = x`, where `i < 8`
unfoldable pub set_lane : VectorValue → ℕ → ℕ → VectorValue
set_lane v zero x = record v { data0 = x }
set_lane v (suc zero) x = record v { data1 = x }
set_lane v (suc (suc zero)) x = record v { data2 = x }
set_lane v (suc (suc (suc zero))) x = record v { data3 = x }
set_lane v (suc (suc (suc (suc zero)))) x = record v { data4 = x }
set_lane v (suc (suc (suc (suc (suc zero))))) x = record v { data5 = x }
set_lane v (suc (suc (suc (suc (suc (suc zero)))))) x = record v { data6 = x }
set_lane v (suc (suc (suc (suc (suc (suc (suc zero))))))) x = record v { data7 = x }
set_lane v (suc (suc (suc (suc (suc (suc (suc (suc i)))))))) x = v

-- `none` is the failed assertion.
unfoldable pub get : VectorValue → ℕ → Option ℕ
get v ix = get_elem? (lanes v) ix

-- A result computed lane by lane, as the source writes it out eight times.
abbrev pub zip_lanes : (ℕ → ℕ → ℕ) → VectorValue → VectorValue → VectorValue
zip_lanes f a b = record {
  data0 = f a.data0 b.data0;
  data1 = f a.data1 b.data1;
  data2 = f a.data2 b.data2;
  data3 = f a.data3 b.data3;
  data4 = f a.data4 b.data4;
  data5 = f a.data5 b.data5;
  data6 = f a.data6 b.data6;
  data7 = f a.data7 b.data7;
}

unfoldable pub or_shift_left : VectorValue → VectorValue → ℕ → VectorValue
or_shift_left self other shift_count =
    zip_lanes (λ x y. bit_or x (u64 (y <<< shift_count))) self other

-- A shift by 64 or more, or by a negative count, is undefined.
unfoldable pub shift_left : VectorValue → VectorValue → Option VectorValue
shift_left self other =
    if for_all 8 0 (λ i. ltb (lane other i) 64)
    then some (zip_lanes (λ x y. u64 (x <<< y)) self other)
    else none

unfoldable pub add : VectorValue → VectorValue → VectorValue
add self other = zip_lanes (λ x y. u64 (x + y)) self other

unfoldable pub bit_and_vec : VectorValue → VectorValue → VectorValue
bit_and_vec self other = zip_lanes bit_and self other

unfoldable pub all_equal : VectorValue → Bool
all_equal self = for_all 7 1 (λ i. self.data0 == lane self i)

unfoldable pub get_compare_result : ℕ → ℕ → ℕ
get_compare_result value1 value2 =
    if value1 == value2
    then flags_mask_eq
    else if ltb_ℤ (signed64 value2) (signed64 value1)
    then flags_mask_gt
    else flags_mask_lt

unfoldable pub compare_vecs : VectorValue → VectorValue → VectorValue
compare_vecs self other = zip_lanes get_compare_result self other

unfoldable pub are_all_adjacent_memory_addresses : VectorValue → ℕ → Bool
are_all_adjacent_memory_addresses v elt_size =
    for_all 7 1 (λ i. lane v i == u64 (lane v (i - 1) + elt_size))

-- `PACK8_BITS`
abbrev pub pack8_bits : ℕ → ℕ → ℕ → ℕ → ℕ → ℕ → ℕ → ℕ → ℕ
pack8_bits a0 a1 a2 a3 a4 a5 a6 a7 =
    bit_or
      (bit_or
        (bit_or
          (bit_or (bit_or (bit_or (bit_or (a0 <<< 0) (a1 <<< 1)) (a2 <<< 2)) (a3 <<< 3)) (a4 <<< 4))
          (a5 <<< 5))
        (a6 <<< 6))
      (a7 <<< 7)

-- `v != 0` as the number that it converts to
abbrev pub nonzero : ℕ → ℕ
nonzero x = bool_bit (not (x == 0))

unfoldable pub reduce_to_uint64_t : VectorValue → ℕ
reduce_to_uint64_t v =
    pack8_bits (nonzero v.data0) (nonzero v.data1) (nonzero v.data2) (nonzero v.data3)
      (nonzero v.data4) (nonzero v.data5) (nonzero v.data6) (nonzero v.data7)

abbrev pub create_vec_incrementing_values : VectorValue
create_vec_incrementing_values = record {
  data0 = 0;
  data1 = 1;
  data2 = 2;
  data3 = 3;
  data4 = 4;
  data5 = 5;
  data6 = 6;
  data7 = 7;
}

abbrev pub create_vec_int64 : ℕ → VectorValue
create_vec_int64 v = record {
  data0 = v;
  data1 = v;
  data2 = v;
  data3 = v;
  data4 = v;
  data5 = v;
  data6 = v;
  data7 = v;
}

abbrev pub create_vec_int8 : ℕ → VectorValue
create_vec_int8 v = create_vec_int64 (int8 v)

abbrev pub create_vec_int16 : ℕ → VectorValue
create_vec_int16 v = create_vec_int64 (int16 v)

abbrev pub create_vec_int32 : ℕ → VectorValue
create_vec_int32 v = create_vec_int64 (int32 v)

abbrev pub are_all_valid_memory_addresses : VectorValue → Bool
are_all_valid_memory_addresses v = true
