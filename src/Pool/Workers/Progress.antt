-- ===== src/Pool/Workers/Progress.antt =====
-- About `Parallel` of pool/pool.go: how many steps are left.
use baas_go_sdk.Base.{ℕ, ◌+◌, ◌*◌, ◌<◌, ◌≡◌, ap, Option, List, [], ◌∷◌, ◌++◌, arith, length}
use baas_go_sdk.Pool.Workers.{
  Worker, receiving, checking, running, reporting, returned, Shared, Pool, Move, receive, closed,
  abandon, call, succeed, fail, report, Step, step,
}

module _ {A E : Type 0} where
  -- The moves that a worker may make before it looks at the channel again.
  abbrev weight : Worker A E → ℕ
  weight receiving = 1
  weight (checking a) = 3
  weight (running a) = 2
  weight (reporting a e) = 1
  weight returned = 0

  abbrev weights : List (Worker A E) → ℕ
  weights [] = 0
  weights (w ∷ ws) = weight w + weights ws

  -- A bound on the steps that are left.
  abbrev pub measure : Pool A E → ℕ
  measure s = 3 * length s.queue + weights s.workers

  weights-append : (xs ys : List (Worker A E)) → weights (xs ++ ys) ≡ weights xs + weights ys
  weights-append [] ys = omega arith
  weights-append (x ∷ xs) ys = omega (arith, weights-append xs ys)

module _ {A E : Type 0} (fn : A → Option E) where
  measure-Move :
      {sh sh' : Shared A E} {w w' : Worker A E}
      → Move fn sh w sh' w'
      → 3 * length sh'.queue + weight w' < 3 * length sh.queue + weight w
  measure-Move (receive a rest e) = omega (arith, ap length e)
  measure-Move (closed e) = omega arith
  measure-Move (abandon a e f) = omega arith
  measure-Move (call a f) = omega arith
  measure-Move (succeed a f) = omega arith
  measure-Move (fail a e f) = omega arith
  measure-Move (report a e) = omega arith

-- Every step of every worker lowers the measure, so no run of the pool has more steps than the
-- measure of the state in which it starts.
pub measure-step :
    {A E : Type 0} (fn : A → Option E) {s t : Pool A E} → Step fn s t → measure t < measure s
measure-step fn (step before after w w' sh e m) = omega (
  arith,
  measure-Move fn m,
  ap weights e,
  weights-append before (w ∷ after),
  weights-append before (w' ∷ after),
)
