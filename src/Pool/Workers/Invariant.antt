-- ===== src/Pool/Workers/Invariant.antt =====
-- About `Parallel` of pool/pool.go: the invariant of the pool, and the result.
use mathlib.Core.List.{Perm}
use mathlib.Core.List.Perm
use mathlib.Core.Path.{subst}
use baas_go_sdk.Base.{
  ℕ, zero, suc, ◌≤◌, ◌≡◌, ◌≢◌, refl, sym, ◌∙◌, ap, Option, none, some, List, [], ◌∷◌, ◌++◌,
  append-nil, arith, length, length-append, replicate,
}
use baas_go_sdk.Base.Int.{ℤ, pos, negsuc}
use baas_go_sdk.Base.All.{All, In, All-append, All-left, All-right, All-mono, All-In}
use baas_go_sdk.Pool.Workers.{
  Worker, receiving, Shared, Pool, Step, step, Reach, here, next, start, worker_count,
}
use baas_go_sdk.Pool.Workers.Moves.{
  Returned, held, held-Returned, held-replicate, WorkerOk, everything, Invariant, WorkerOk-Move,
  WorkerOk-moved, queue-Move, Blamed-Move, whole-Move,
}

module _ {A E : Type 0} (fn : A → Option E) (items : List A) where
  Invariant-step : {s t : Pool A E} → Step fn s t → Invariant fn items s → Invariant fn items t
  Invariant-step {s} (step before after w w' sh e m) inv =
      let ok : All (WorkerOk fn items s.shared) (before ++ w ∷ after) =
        subst (All (WorkerOk fn items s.shared)) e inv.workers_ok in
      let right = All-right (WorkerOk fn items s.shared) before (w ∷ after) ok in
      record {
        workers_ok =
            All-append (WorkerOk fn items sh) before (w' ∷ after)
              (All-mono (WorkerOk fn items s.shared) (WorkerOk fn items sh) before
                (WorkerOk-Move fn items m)
                (All-left (WorkerOk fn items s.shared) before (w ∷ after) ok))
              (
                WorkerOk-moved fn items m right.0 inv.queue_ok,
                All-mono (WorkerOk fn items s.shared) (WorkerOk fn items sh) after
                    (WorkerOk-Move fn items m) right.1,
              );
        queue_ok = queue-Move fn items m inv.queue_ok;
        err_ok = Blamed-Move fn items m right.0 inv.err_ok;
        whole = λ n.
            let (n', same) = whole-Move fn items before after m n in
            Perm.trans same
              (subst (λ ws. Perm (everything fn items s.shared ws) items) e (inv.whole n'));
      }

  Invariant-start : (concurrency : ℤ) → Invariant fn items (start items concurrency)
  unfolding start
  Invariant-start concurrency =
      let n = worker_count concurrency (length items) in
      record {
        workers_ok = ready n;
        queue_ok = All-In items items (λ a h. h);
        err_ok = λ e h. cc;
        whole = λ h.
            subst (λ l. Perm (l ++ items) items) (sym (held-replicate A E n)) (Perm.refl items);
      }
    where
      ready :
          (n : ℕ)
          → All
              (WorkerOk fn items (record { queue = items; first_err = none; finished = [] }))
              (replicate n receiving)
      ready zero = tt
      ready (suc n) = (tt, ready n)

  Invariant-Reach : {s t : Pool A E} → Reach fn s t → Invariant fn items s → Invariant fn items t
  Invariant-Reach here inv = inv
  Invariant-Reach (next r st) inv = Invariant-step st (Invariant-Reach r inv)

module _ {A E : Type 0} (fn : A → Option E) where
  -- The number of workers does not change.
  length-Step : {s t : Pool A E} → Step fn s t → length t.workers ≡ length s.workers
  length-Step (step before after w w' sh e m) =
      omega
        (arith, ap length e, length-append before (w ∷ after), length-append before (w' ∷ after))

  pub length-Reach : {s t : Pool A E} → Reach fn s t → length t.workers ≡ length s.workers
  length-Reach here = refl
  length-Reach (next r st) = length-Step st ∙ length-Reach r

length-replicate : {A : Type 0} (n : ℕ) (a : A) → length (replicate n a) ≡ n
length-replicate zero a = refl
length-replicate (suc n) a = ap suc (length-replicate n a)

worker_count_pos : (c : ℤ) (n : ℕ) → 1 ≤ n → 1 ≤ worker_count c n
unfolding worker_count
worker_count_pos (pos c) n h = ground arith
worker_count_pos (negsuc c) n h = ground arith

pub workers-start :
    {A : Type 0} (E : Type 0) (items : List A) (c : ℤ)
    → length (start {A = A} {E = E} items c).workers ≡ worker_count c (length items)
unfolding start
workers-start E items c = length-replicate (worker_count c (length items)) receiving

positive : {A : Type 0} (xs : List A) → xs ≢ [] → 1 ≤ length xs
positive [] h = absurd (h refl)
positive (x ∷ xs) h = omega arith

-- A worker that has returned shows that the channel is empty.
drained :
    {A E : Type 0} (fn : A → Option E) (items : List A) (sh : Shared A E) (ws : List (Worker A E))
    → All (WorkerOk fn items sh) ws
    → All Returned ws
    → 1 ≤ length ws
    → sh.first_err ≡ none
    → sh.queue ≡ []
drained fn items sh [] ok over some_worker no_err = absurd (omega arith)
drained fn items sh (w ∷ ws) ok over some_worker no_err =
    subst (WorkerOk fn items sh) over.0 ok.0 no_err

-- For a list that is not empty, in a state that `Parallel` reaches: if every worker has returned and
-- no error was reported, then `fn` has returned nil on the items
-- of the list, on each as often as it stands there, and on nothing else.
pub parallel_success :
    {A E : Type 0} (fn : A → Option E) (items : List A) (concurrency : ℤ) (s : Pool A E)
    → items ≢ []
    → Reach fn (start items concurrency) s
    → All Returned s.workers
    → s.first_err ≡ none
    → Perm s.finished items
parallel_success {E = E} fn items concurrency s some_items reach over no_err =
    let inv = Invariant-Reach fn items reach (Invariant-start fn items concurrency) in
    let count = worker_count_pos concurrency (length items) (positive items some_items) in
    let empty =
      drained fn items s.shared s.workers inv.workers_ok over
        (omega (arith, length-Reach fn reach, workers-start E items concurrency)) no_err in
    let bare : s.finished ++ (held s.workers ++ s.queue) ≡ s.finished =
      rw (empty, held-Returned s.workers over) (append-nil s.finished) in
    subst (λ l. Perm l items) bare (inv.whole no_err)

-- If a first error is recorded in a state that `Parallel` reaches, which is what it returns in the
-- end, then it is the error that `fn` returned on one of the items.
pub parallel_error :
    {A E : Type 0} (fn : A → Option E) (items : List A) (concurrency : ℤ) (s : Pool A E) (e : E)
    → Reach fn (start items concurrency) s
    → s.first_err ≡ some e
    → (a : A) × In a items × (fn a ≡ some e)
parallel_error fn items concurrency s e reach failed =
    (Invariant-Reach fn items reach (Invariant-start fn items concurrency)).err_ok e failed
