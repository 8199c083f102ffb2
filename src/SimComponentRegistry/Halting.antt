-- ===== src/SimComponentRegistry/Halting.antt =====
-- When the main loop of CoreLib/SimComponentRegistry.cpp ends.
use mathlib.Core.Option.{none-ne-some, some-injective}
use ecc_cpu.Base.{
  ℕ, zero, suc, ◌≤◌, ◌<◌, ◌≡◌, sym, refl, true, false, ◌⊎◌, inl, inr, Option, some, ◌>>=◌,
  Option-cases, arith, subst,
}
use ecc_cpu.CoreClusterGrid
use ecc_cpu.CoreClusterGrid.{CoreClusterGrid, grid_has_halted}
use ecc_cpu.SimComponentRegistry.{num_sim_steps, run_for, run}

-- `k` steps of all components, whether the machine has halted or not.
unfoldable pub steps : ℕ → CoreClusterGrid → Option CoreClusterGrid
steps zero m = some m
steps (suc k) m = CoreClusterGrid.step m >>= λ m1. steps k m1

-- After fewer than `k` steps the machine has not halted.
abbrev pub RunsOn : ℕ → CoreClusterGrid → Type 0
RunsOn k m =
    (j : ℕ) (m1 : CoreClusterGrid) → j < k → steps j m ≡ some m1 → grid_has_halted m1 ≡ false

run_for-Halts :
    (n k : ℕ) (m last : CoreClusterGrid)
    → k ≤ n
    → steps k m ≡ some last
    → RunsOn k m
    → (grid_has_halted last ≡ true) ⊎ (k ≡ n)
    → run_for n m ≡ some last
unfolding run_for steps
run_for-Halts zero zero m last le e on h = e
run_for-Halts zero (suc k) m last le e on h = absurd (omega arith)
run_for-Halts (suc n) zero m last le e on (inl halted) =
    let same : m ≡ last = some-injective _ _ e in
    let now : grid_has_halted m ≡ true =
      subst (λ (x : CoreClusterGrid). grid_has_halted x ≡ true) (sym same) halted in
    rw (run_for, now) e
run_for-Halts (suc n) zero m last le e on (inr full) = absurd (omega arith)
run_for-Halts (suc n) (suc k) m last le e on h =
    let now : grid_has_halted m ≡ false = on 0 m (omega arith) refl in
    elim (Option-cases (CoreClusterGrid.step m)) [
      | inl fails ↦ absurd (none-ne-some _ (rw fails at e))
      | inr (m1, goes) ↦
          rw (run_for, now, goes)
            (run_for-Halts n k m1 last (omega arith) (rw goes at e)
              (λ j m2 lt e2. on (suc j) m2 (omega arith) (rw goes e2)) (later h))
    ]
  where
    later :
        (grid_has_halted last ≡ true) ⊎ (suc k ≡ suc n) → (grid_has_halted last ≡ true) ⊎ (k ≡ n)
    later (inl halted) = inl halted
    later (inr full) = inr (omega arith)

-- If `k` steps of the machine, at most a million, fail no assertion, if the machine has not halted
-- after fewer, and if then it has halted or `k` is a million, then the main loop ends in that state:
-- it stops at the first halt, and at the latest after a million steps.
pub run-Halts :
    (k : ℕ) (m last : CoreClusterGrid)
    → k ≤ num_sim_steps
    → steps k m ≡ some last
    → RunsOn k m
    → (grid_has_halted last ≡ true) ⊎ (k ≡ num_sim_steps)
    → run m ≡ some last
run-Halts k m last = run_for-Halts num_sim_steps k m last
