-- ===== src/Pool/Workers.antt =====
-- `Parallel`: workers over a closed channel. A step is one visit of a worker to the channel or to
-- the mutex, or one call of `fn`; any worker may make the next step. What a worker does between Lock
-- and Unlock is one step, and the WaitGroup, on which only the caller waits, is left out.
pub mod Moves
pub mod Invariant
pub mod Progress
use baas_go_sdk.Base.{
  ℕ, zero, suc, ◌≡◌, Option, none, some, List, [], ◌∷◌, ◌++◌, ltb, leb, if◌then◌else◌, length,
  replicate,
}
use baas_go_sdk.Base.Int.{ℤ, pos, negsuc}

module _ (A E : Type 0) where
  -- What a worker is about to do: receive the next item; lock the mutex and look at the first error;
  -- call `fn`; lock the mutex and report the error of `fn`; nothing, after its return.
  pub data Worker : Type 0 where
    receiving : Worker
    checking : A → Worker
    running : A → Worker
    reporting : A → E → Worker
    returned : Worker

  -- What the workers share: the items in the channel, the first error, and (for the statements) the
  -- items on which `fn` returned nil.
  pub record Shared : Type 0 where
    pub queue : List A
    pub first_err : Option E
    pub finished : List A

  pub record Pool : Type 0 where
    pub shared : Shared
    pub open shared use *
    pub workers : List Worker

abbrev pub or_first : {E : Type 0} → Option E → E → Option E
or_first none e = some e
or_first (some e0) e = some e0

module _ {A E : Type 0} (fn : A → Option E) where
  -- The moves of one worker. `fn a` is `none` where it returns nil.
  pub data Move (sh : Shared A E) : Worker A E → Shared A E → Worker A E → Type 0 where
    receive :
        (a : A) (rest : List A)
        → sh.queue ≡ a ∷ rest
        → Move sh receiving (record sh { queue = rest }) (checking a)
    closed : sh.queue ≡ [] → Move sh receiving sh returned
    abandon : (a : A) (e : E) → sh.first_err ≡ some e → Move sh (checking a) sh returned
    call : (a : A) → sh.first_err ≡ none → Move sh (checking a) sh (running a)
    succeed :
        (a : A)
        → fn a ≡ none
        → Move sh (running a) (record sh { finished = a ∷ sh.finished }) receiving
    fail : (a : A) (e : E) → fn a ≡ some e → Move sh (running a) sh (reporting a e)
    report :
        (a : A) (e : E)
        → Move sh (reporting a e) (record sh { first_err = or_first sh.first_err e }) returned

  pub data Step (s : Pool A E) : Pool A E → Type 0 where
    step :
        (before after : List (Worker A E)) (w w' : Worker A E) (sh : Shared A E)
        → s.workers ≡ before ++ w ∷ after
        → Move s.shared w sh w'
        → Step s (record { shared = sh; workers = before ++ w' ∷ after })

  pub data Reach (s : Pool A E) : Pool A E → Type 0 where
    here : Reach s s
    next : {t u : Pool A E} → Reach s t → Step t u → Reach s u

-- At most one worker for each item, and at least one.
unfoldable pub worker_count : ℤ → ℕ → ℕ
worker_count (pos n) items = let c = if leb n 0 then 1 else n in if ltb items c then items else c
worker_count (negsuc n) items = if ltb items 1 then items else 1

-- The pool when the workers have been started; the channel holds all items and is closed.
unfoldable pub start : {A E : Type 0} → List A → ℤ → Pool A E
unfolding worker_count
start items concurrency = record {
  shared = record { queue = items; first_err = none; finished = [] };
  workers = replicate (worker_count concurrency (length items)) receiving;
}
