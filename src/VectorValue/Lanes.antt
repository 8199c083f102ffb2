-- ===== src/VectorValue/Lanes.antt =====
-- What the lane-wise operations of CoreLib/include/VectorValue.h do to each lane.
use ecc_cpu.Base.{digit, ap, ◌∙◌, ℕ, zero, suc, ◌+◌, ◌*◌, ◌<◌, ◌≤◌, ◌≡◌, refl, arith, bit_or-add}
use ecc_cpu.VectorValue.{
  VectorValue, zip_lanes, lane, pack8_bits, nonzero, reduce_to_uint64_t, create_vec_int64,
}

-- A lane-wise result has in each lane the operation's value on that lane.
pub lane-zip_lanes :
    (f : ℕ → ℕ → ℕ) (a b : VectorValue) (i : ℕ)
    → i < 8
    → lane (zip_lanes f a b) i ≡ f (lane a i) (lane b i)
lane-zip_lanes f a b zero h = refl
lane-zip_lanes f a b (suc zero) h = refl
lane-zip_lanes f a b (suc (suc zero)) h = refl
lane-zip_lanes f a b (suc (suc (suc zero))) h = refl
lane-zip_lanes f a b (suc (suc (suc (suc zero)))) h = refl
lane-zip_lanes f a b (suc (suc (suc (suc (suc zero))))) h = refl
lane-zip_lanes f a b (suc (suc (suc (suc (suc (suc zero)))))) h = refl
lane-zip_lanes f a b (suc (suc (suc (suc (suc (suc (suc zero))))))) h = refl
lane-zip_lanes f a b (suc (suc (suc (suc (suc (suc (suc (suc i)))))))) h = absurd (omega arith)

pub pack8_bits-add :
    (a b c d e f g h : ℕ)
    → a ≤ 1
    → b ≤ 1
    → c ≤ 1
    → d ≤ 1
    → e ≤ 1
    → f ≤ 1
    → g ≤ 1
    → pack8_bits a b c d e f g h ≡ a + b * 2 + c * 4 + d * 8 + e * 16 + f * 32 + g * 64 + h * 128
pack8_bits-add a b c d e f g h ha hb hc hd he hf hg =
    rw
      (
        bit_or-add 1 (a * 1) b (omega arith),
        bit_or-add 2 (a * 1 + b * 2) c (omega arith),
        bit_or-add 3 (a * 1 + b * 2 + c * 4) d (omega arith),
        bit_or-add 4 (a * 1 + b * 2 + c * 4 + d * 8) e (omega arith),
        bit_or-add 5 (a * 1 + b * 2 + c * 4 + d * 8 + e * 16) f (omega arith),
        bit_or-add 6 (a * 1 + b * 2 + c * 4 + d * 8 + e * 16 + f * 32) g (omega arith),
        bit_or-add 7 (a * 1 + b * 2 + c * 4 + d * 8 + e * 16 + f * 32 + g * 64) h (omega arith),
      )
      (omega arith)

pub nonzero-le : (x : ℕ) → nonzero x ≤ 1
nonzero-le x = ground arith

abbrev sum8 : ℕ → ℕ → ℕ → ℕ → ℕ → ℕ → ℕ → ℕ → ℕ
sum8 a b c d e f g h = a + b * 2 + c * 4 + d * 8 + e * 16 + f * 32 + g * 64 + h * 128

module _ (a b c d e f g h : ℕ)
    (bits : (a ≤ 1) × (b ≤ 1) × (c ≤ 1) × (d ≤ 1) × (e ≤ 1) × (f ≤ 1) × (g ≤ 1) × (h ≤ 1)) where
  abbrev packed : VectorValue
  packed = record {
    data0 = a;
    data1 = b;
    data2 = c;
    data3 = d;
    data4 = e;
    data5 = f;
    data6 = g;
    data7 = h;
  }

  digit-sum8 : (i : ℕ) → i < 8 → digit (sum8 a b c d e f g h) i ≡ lane packed i
  digit-sum8 zero lt = omega arith
  digit-sum8 (suc zero) lt = omega arith
  digit-sum8 (suc (suc zero)) lt = omega arith
  digit-sum8 (suc (suc (suc zero))) lt = omega arith
  digit-sum8 (suc (suc (suc (suc zero)))) lt = omega arith
  digit-sum8 (suc (suc (suc (suc (suc zero))))) lt = omega arith
  digit-sum8 (suc (suc (suc (suc (suc (suc zero)))))) lt = omega arith
  digit-sum8 (suc (suc (suc (suc (suc (suc (suc zero))))))) lt = omega arith
  digit-sum8 (suc (suc (suc (suc (suc (suc (suc (suc i)))))))) lt = absurd (omega arith)

module _ (v : VectorValue) where
  abbrev nonzero_lanes : VectorValue
  nonzero_lanes = zip_lanes (λ x _. nonzero x) v v

  reduce-sum8 :
      reduce_to_uint64_t v
      ≡ sum8
          (nonzero v.data0)
          (nonzero v.data1)
          (nonzero v.data2)
          (nonzero v.data3)
          (nonzero v.data4)
          (nonzero v.data5)
          (nonzero v.data6)
          (nonzero v.data7)
  unfolding reduce_to_uint64_t
  reduce-sum8 =
      pack8_bits-add (nonzero v.data0) (nonzero v.data1) (nonzero v.data2) (nonzero v.data3)
        (nonzero v.data4) (nonzero v.data5) (nonzero v.data6) (nonzero v.data7) (nonzero-le v.data0)
        (nonzero-le v.data1) (nonzero-le v.data2) (nonzero-le v.data3) (nonzero-le v.data4)
        (nonzero-le v.data5) (nonzero-le v.data6)

  -- The number that packs the lanes has in each of its first eight binary digits whether that lane
  -- is nonzero.
  pub digit-reduce : (i : ℕ) → i < 8 → digit (reduce_to_uint64_t v) i ≡ nonzero (lane v i)
  digit-reduce i h =
      ap (λ x. digit x i) reduce-sum8
      ∙ digit-sum8 (nonzero v.data0) (nonzero v.data1) (nonzero v.data2) (nonzero v.data3)
          (nonzero v.data4) (nonzero v.data5) (nonzero v.data6) (nonzero v.data7)
          (
            nonzero-le v.data0,
            nonzero-le v.data1,
            nonzero-le v.data2,
            nonzero-le v.data3,
            nonzero-le v.data4,
            nonzero-le v.data5,
            nonzero-le v.data6,
            nonzero-le v.data7,
          )
          i h
      ∙ lane-zip_lanes (λ x _. nonzero x) v v i h

pub lane-create : (x i : ℕ) → i < 8 → lane (create_vec_int64 x) i ≡ x
lane-create x zero h = refl
lane-create x (suc zero) h = refl
lane-create x (suc (suc zero)) h = refl
lane-create x (suc (suc (suc zero))) h = refl
lane-create x (suc (suc (suc (suc zero)))) h = refl
lane-create x (suc (suc (suc (suc (suc zero))))) h = refl
lane-create x (suc (suc (suc (suc (suc (suc zero)))))) h = refl
lane-create x (suc (suc (suc (suc (suc (suc (suc zero))))))) h = refl
lane-create x (suc (suc (suc (suc (suc (suc (suc (suc i)))))))) h = absurd (omega arith)
