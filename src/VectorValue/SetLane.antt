-- ===== src/VectorValue/SetLane.antt =====
-- What a write of one lane of CoreLib/include/VectorValue.h does to the lanes.
use ecc_cpu.Base.{
  ◌≡◌, ◌≢◌, refl, ap, ◌∙◌, ℕ, zero, suc, ◌<◌, arith, some, get_or, set, get_or-set_self,
  get_or-set_ne,
}
use ecc_cpu.VectorValue
use ecc_cpu.VectorValue.{VectorValue, lane, lanes, set_lane}

lanes-set_lane : (v : VectorValue) (i x : ℕ) → i < 8 → lanes (set_lane v i x) ≡ set (lanes v) i x
unfolding set_lane
lanes-set_lane v zero x h = refl
lanes-set_lane v (suc zero) x h = refl
lanes-set_lane v (suc (suc zero)) x h = refl
lanes-set_lane v (suc (suc (suc zero))) x h = refl
lanes-set_lane v (suc (suc (suc (suc zero)))) x h = refl
lanes-set_lane v (suc (suc (suc (suc (suc zero))))) x h = refl
lanes-set_lane v (suc (suc (suc (suc (suc (suc zero)))))) x h = refl
lanes-set_lane v (suc (suc (suc (suc (suc (suc (suc zero))))))) x h = refl
lanes-set_lane v (suc (suc (suc (suc (suc (suc (suc (suc i)))))))) x h = absurd (omega arith)

pub lane-set_lane_self : (v : VectorValue) (i x : ℕ) → i < 8 → lane (set_lane v i x) i ≡ x
lane-set_lane_self v i x h =
    ap (λ l. get_or l i 0) (lanes-set_lane v i x h) ∙ get_or-set_self (lanes v) i x 0 h

pub lane-set_lane_ne :
    (v : VectorValue) (i j x : ℕ) → i < 8 → i ≢ j → lane (set_lane v i x) j ≡ lane v j
lane-set_lane_ne v i j x h ne =
    ap (λ l. get_or l j 0) (lanes-set_lane v i x h) ∙ get_or-set_ne (lanes v) i j x 0 ne

-- A read in bounds gives the lane.
pub get-lane : (v : VectorValue) (i : ℕ) → i < 8 → VectorValue.get v i ≡ some (lane v i)
unfolding VectorValue.get
get-lane v zero h = refl
get-lane v (suc zero) h = refl
get-lane v (suc (suc zero)) h = refl
get-lane v (suc (suc (suc zero))) h = refl
get-lane v (suc (suc (suc (suc zero)))) h = refl
get-lane v (suc (suc (suc (suc (suc zero))))) h = refl
get-lane v (suc (suc (suc (suc (suc (suc zero)))))) h = refl
get-lane v (suc (suc (suc (suc (suc (suc (suc zero))))))) h = refl
get-lane v (suc (suc (suc (suc (suc (suc (suc (suc i)))))))) h = absurd (omega arith)
