-- ===== src/Tests/Workers.antt =====
-- Batches, and runs of the pool.
use mathlib.Core.List.{Perm}
use baas_go_sdk.Base.{
  ℕ, ◌<◌, ◌≡◌, refl, Option, none, some, List, [], ◌∷◌, arith, concat, ◌==◌, if◌then◌else◌,
}
use baas_go_sdk.Base.Int.{pos}
use baas_go_sdk.Base.All.{In}
use baas_go_sdk.Pool.{batch}
use baas_go_sdk.Pool.Batches.{FullParts, batch_lem}
use baas_go_sdk.Pool.Workers.{
  Worker, receiving, checking, running, reporting, returned, Pool, receive, closed, call, succeed,
  fail, report, Step, step, Reach, here, next, start, worker_count,
}
use baas_go_sdk.Pool.Workers.Invariant.{parallel_success, parallel_error}
use baas_go_sdk.Pool.Workers.Progress.{measure, measure-step}

abbrev numbers : List ℕ
numbers = 1 ∷ 2 ∷ 3 ∷ []

batch_lem_example :
    (parts : List (List ℕ)) × (batch numbers 2 ≡ some parts)
    × (concat parts ≡ numbers)
    × FullParts 2 parts
batch_lem_example = batch_lem numbers 2 (omega arith)

-- The function fails on 2 with the error 0.
abbrev fn : ℕ → Option ℕ
fn n = if n == 2 then some 0 else none

abbrev pool : List ℕ → Option ℕ → List ℕ → List (Worker ℕ ℕ) → Pool ℕ ℕ
pool queue first_err finished workers = record {
  shared = record { queue = queue; first_err = first_err; finished = finished };
  workers = workers;
}

-- One worker takes 1, finishes it and finds the channel empty.
abbrev taken : Step fn (pool (1 ∷ []) none [] (receiving ∷ [])) (pool [] none [] (checking 1 ∷ []))
taken = step [] [] receiving (checking 1) _ refl (receive 1 [] refl)

one_item : Reach fn (start (1 ∷ []) (pos 4)) (pool [] none (1 ∷ []) (returned ∷ []))
unfolding start worker_count
one_item =
    next
      (next (next (next here taken) (step [] [] (checking 1) (running 1) _ refl (call 1 refl)))
        (step [] [] (running 1) receiving _ refl (succeed 1 refl)))
      (step [] [] receiving returned _ refl (closed refl))

parallel_success_example : Perm {A = ℕ} (1 ∷ []) (1 ∷ [])
parallel_success_example =
    parallel_success fn (1 ∷ []) (pos 4) (pool [] none (1 ∷ []) (returned ∷ [])) (λ e. cc) one_item
      (refl, tt) refl

failed_item : Reach fn (start (2 ∷ []) (pos 4)) (pool [] (some 0) [] (returned ∷ []))
unfolding start worker_count
failed_item =
    next
      (next
        (next (next here (step [] [] receiving (checking 2) _ refl (receive 2 [] refl)))
          (step [] [] (checking 2) (running 2) _ refl (call 2 refl)))
        (step [] [] (running 2) (reporting 2 0) _ refl (fail 2 0 refl)))
      (step [] [] (reporting 2 0) returned _ refl (report 2 0))

parallel_error_example : (a : ℕ) × In a (2 ∷ []) × (fn a ≡ some 0)
parallel_error_example =
    parallel_error fn (2 ∷ []) (pos 4) (pool [] (some 0) [] (returned ∷ [])) 0 failed_item refl

measure-step_example :
    measure (pool [] none [] (checking 1 ∷ [])) < measure (pool (1 ∷ []) none [] (receiving ∷ []))
measure-step_example = measure-step fn taken
