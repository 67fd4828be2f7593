-- ===== src/Pipeline/Progress.antt =====
-- What `_compute_progress` says of a run that goes well.
use backend_business_intelli.Prelude.{
  ℕ, zero, suc, ◌≤◌, ◌<◌, ◌≡◌, refl, true, List, [], ◌∷◌, arith, length,
}
use native.Mathlib.Nat.{mul-div_cancel_left, div-le_of_le-mul}
use backend_business_intelli.Prelude.Sort.{count_row-le, count_row}
use backend_business_intelli.Pipeline.Base.{PipelineStep}
use backend_business_intelli.Pipeline.Tables.{compute_progress, percentage, is_completed, steps_of}

-- Every step of the run is successful or skipped.
abbrev pub AllCompleted : ℕ → List PipelineStep → Type 0
AllCompleted run [] = Unit
AllCompleted run (t ∷ ts) = (t.pipeline_run_id ≡ run → is_completed t ≡ true) × AllCompleted run ts

abbrev pub HasStep : ℕ → List PipelineStep → Type 0
HasStep run ts = 0 < length (steps_of run ts)

count_row-length :
    (run : ℕ) (ts : List PipelineStep)
    → AllCompleted run ts
    → count_row is_completed (steps_of run ts) ≡ length (steps_of run ts)
count_row-length run [] h = refl
count_row-length run (t ∷ ts) h = ground (arith, h.0, count_row-length run ts h.1)

percentage-all : (n : ℕ) → 0 < n → percentage n n ≡ 100
unfolding percentage
percentage-all zero h = omega arith
percentage-all (suc n) h = mul-div_cancel_left 100 h

percentage-le : (m n : ℕ) → m ≤ n → percentage m n ≤ 100
unfolding percentage
percentage-le m zero h = omega arith
percentage-le m (suc n) h = div-le_of_le-mul (suc n) (omega (arith, h))

-- The progress of a run is at most 100, whatever steps the table holds.
pub compute_progress_bound : (run : ℕ) (ts : List PipelineStep) → compute_progress run ts ≤ 100
unfolding compute_progress
compute_progress_bound run ts =
    percentage-le (count_row is_completed (steps_of run ts)) (length (steps_of run ts))
      (count_row-le is_completed (steps_of run ts))

-- The progress of a run is 100 as soon as the run has a step and each of those created so far is
-- successful or skipped, whichever stages are still to come.
pub compute_progress_early :
    (run : ℕ) (ts : List PipelineStep)
    → AllCompleted run ts
    → HasStep run ts
    → compute_progress run ts ≡ 100
unfolding compute_progress
compute_progress_early run ts h k =
    rw (count_row-length run ts h) (percentage-all (length (steps_of run ts)) k)
