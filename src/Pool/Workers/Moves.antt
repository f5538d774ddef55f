-- ===== src/Pool/Workers/Moves.antt =====
-- About `Parallel` of pool/pool.go: the parts of its invariant, and one move of a worker.
use mathlib.Core.List.{Perm, perm_middle}
use mathlib.Core.List.Perm
use mathlib.Core.Path.{subst}
use baas_go_sdk.Base.{
  ℕ, zero, suc, ◌≡◌, ◌≢◌, refl, sym, Option, none, some, List, [], ◌∷◌, ◌++◌, append_assoc, arith,
  replicate,
}
use baas_go_sdk.Base.All.{All, In}
use baas_go_sdk.Pool.Workers.{
  Worker, receiving, checking, running, reporting, returned, Shared, Pool, Move, receive, closed,
  abandon, call, succeed, fail, report, or_first,
}

module _ {A E : Type 0} where
  -- The item that a worker holds.
  abbrev pub in_hand : Worker A E → List A
  in_hand receiving = []
  in_hand (checking a) = a ∷ []
  in_hand (running a) = a ∷ []
  in_hand (reporting a e) = a ∷ []
  in_hand returned = []

  abbrev pub held : List (Worker A E) → List A
  held [] = []
  held (w ∷ ws) = in_hand w ++ held ws

  abbrev pub Returned : Worker A E → Type 0
  Returned w = w ≡ returned

pub or_first_ne : {E : Type 0} (o : Option E) (e : E) → or_first o e ≢ none
or_first_ne none e h = cc
or_first_ne (some x) e h = cc

module _ {A E : Type 0} where
  pub held-Returned : (ws : List (Worker A E)) → All Returned ws → held ws ≡ []
  held-Returned [] h = refl
  held-Returned (w ∷ ws) (e, h) = rw (e, held-Returned ws h)

  pub held-append :
      (xs : List (Worker A E)) (w : Worker A E) (ys : List (Worker A E))
      → held (xs ++ w ∷ ys) ≡ held xs ++ (in_hand w ++ held ys)
  held-append [] w ys = refl
  held-append (x ∷ xs) w ys =
      rw (held-append xs w ys) (sym (append_assoc (in_hand x) (held xs) (in_hand w ++ held ys)))

module _ {A : Type 0} where
  -- An item moves from behind the held items to among them.
  perm_take :
      (f hb ha q : List A) (a : A)
      → Perm (f ++ ((hb ++ (a ∷ ha)) ++ q)) (f ++ ((hb ++ ha) ++ a ∷ q))
  perm_take f hb ha q a = Perm.append_left f (
      Perm.trans
        (subst (λ l. Perm l (a ∷ ((hb ++ ha) ++ q))) (sym (append_assoc hb (a ∷ ha) q))
          (subst (λ l. Perm (hb ++ a ∷ (ha ++ q)) (a ∷ l)) (sym (append_assoc hb ha q))
            (perm_middle hb (ha ++ q))))
        (Perm.symm (perm_middle (hb ++ ha) q)))

  -- An item moves from among the held items to the front.
  perm_finish :
      (f hb ha q : List A) (a : A)
      → Perm (a ∷ (f ++ ((hb ++ ha) ++ q))) (f ++ ((hb ++ (a ∷ ha)) ++ q))
  perm_finish f hb ha q a = Perm.trans (Perm.symm (perm_middle f ((hb ++ ha) ++ q))) (
      Perm.append_left f (
        Perm.symm (
          subst (λ l. Perm l (a ∷ ((hb ++ ha) ++ q))) (sym (append_assoc hb (a ∷ ha) q))
            (subst (λ l. Perm (hb ++ a ∷ (ha ++ q)) (a ∷ l)) (sym (append_assoc hb ha q))
              (perm_middle hb (ha ++ q))))))

pub held-replicate : (A E : Type 0) (n : ℕ) → held {A = A} {E = E} (replicate n receiving) ≡ []
held-replicate A E zero = refl
held-replicate A E (suc n) = held-replicate A E n

module _ {A E : Type 0} (fn : A → Option E) (items : List A) where
  -- After a worker has returned with no error reported, the channel is empty.
  abbrev pub Drained : Shared A E → Type 0
  Drained sh = sh.first_err ≡ none → sh.queue ≡ []

  abbrev pub WorkerOk : Shared A E → Worker A E → Type 0
  WorkerOk sh receiving = Unit
  WorkerOk sh (checking a) = In a items
  WorkerOk sh (running a) = In a items
  WorkerOk sh (reporting a e) = In a items × (fn a ≡ some e)
  WorkerOk sh returned = Drained sh

  -- The items that are done, held or waiting.
  abbrev pub everything : Shared A E → List (Worker A E) → List A
  everything sh ws = sh.finished ++ (held ws ++ sh.queue)

  pub record Invariant (s : Pool A E) : Type 0 where
    pub workers_ok : All (WorkerOk s.shared) s.workers
    pub queue_ok : All (λ a. In a items) s.queue
    pub err_ok : (e : E) → s.first_err ≡ some e → (a : A) × In a items × (fn a ≡ some e)
    pub whole : s.first_err ≡ none → Perm (everything s.shared s.workers) items

  Drained-Move :
      {sh sh' : Shared A E} {w w' : Worker A E} → Move fn sh w sh' w' → Drained sh → Drained sh'
  Drained-Move (receive a rest e) d = λ n. cc (d n)
  Drained-Move (closed e) d = d
  Drained-Move (abandon a e h) d = d
  Drained-Move (call a h) d = d
  Drained-Move (succeed a h) d = d
  Drained-Move (fail a e h) d = d
  Drained-Move {sh} (report a e) d = λ n. ground (arith, or_first_ne sh.first_err e)

  -- The other workers stay as they should be.
  pub WorkerOk-Move :
      {sh sh' : Shared A E} {w w' : Worker A E}
      → Move fn sh w sh' w'
      → (x : Worker A E) → WorkerOk sh x
      → WorkerOk sh' x
  WorkerOk-Move m receiving h = h
  WorkerOk-Move m (checking a) h = h
  WorkerOk-Move m (running a) h = h
  WorkerOk-Move m (reporting a e) h = h
  WorkerOk-Move m returned h = Drained-Move m h

  -- The worker that moves is as it should be behind its move.
  pub WorkerOk-moved :
      {sh sh' : Shared A E} {w w' : Worker A E}
      → Move fn sh w sh' w'
      → WorkerOk sh w
      → All (λ a. In a items) sh.queue
      → WorkerOk sh' w'
  WorkerOk-moved (receive a rest e) h q = (subst (All (λ a. In a items)) e q).0
  WorkerOk-moved (closed e) h q = λ n. e
  WorkerOk-moved (abandon a e f) h q = λ n. cc (f, n)
  WorkerOk-moved (call a f) h q = h
  WorkerOk-moved (succeed a f) h q = tt
  WorkerOk-moved (fail a e f) h q = (h, f)
  WorkerOk-moved {sh} (report a e) h q = λ n. absurd (or_first_ne sh.first_err e n)

  pub queue-Move :
      {sh sh' : Shared A E} {w w' : Worker A E}
      → Move fn sh w sh' w'
      → All (λ a. In a items) sh.queue
      → All (λ a. In a items) sh'.queue
  queue-Move (receive a rest e) q = (subst (All (λ a. In a items)) e q).1
  queue-Move (closed e) q = q
  queue-Move (abandon a e f) q = q
  queue-Move (call a f) q = q
  queue-Move (succeed a f) q = q
  queue-Move (fail a e f) q = q
  queue-Move (report a e) q = q

  -- An error that has been reported was returned by `fn` on one of the items.
  abbrev pub Blamed : Shared A E → Type 0
  Blamed sh = (e : E) → sh.first_err ≡ some e → (a : A) × In a items × (fn a ≡ some e)

  pub Blamed-Move :
      {sh sh' : Shared A E} {w w' : Worker A E}
      → Move fn sh w sh' w'
      → WorkerOk sh w
      → Blamed sh
      → Blamed sh'
  Blamed-Move (receive a rest e) h b = b
  Blamed-Move (closed e) h b = b
  Blamed-Move (abandon a e f) h b = b
  Blamed-Move (call a f) h b = b
  Blamed-Move (succeed a f) h b = b
  Blamed-Move (fail a e f) h b = b
  Blamed-Move {sh} (report a e) h b = λ x p. blame sh.first_err refl x p
    where
      blame :
          (o : Option E)
          → sh.first_err ≡ o
          → (x : E) → or_first sh.first_err e ≡ some x
          → (c : A) × In c items × (fn c ≡ some x)
      blame none q x p = (a, h.0, ground (arith, h.1))
      blame (some y) q x p = b x (ground arith)

  -- While no error has been reported, no item is lost or doubled.
  pub whole-Move :
      {sh sh' : Shared A E} {w w' : Worker A E} (before after : List (Worker A E))
      → Move fn sh w sh' w'
      → sh'.first_err ≡ none
      → (sh.first_err ≡ none)
        × Perm (everything sh' (before ++ w' ∷ after)) (everything sh (before ++ w ∷ after))
  whole-Move {sh} before after (receive a rest e) n = (
    n,
    rw (held-append before (checking a) after, held-append before receiving after, e)
        (perm_take sh.finished (held before) (held after) rest a),
  )
  whole-Move {sh} before after (closed e) n =
      (n, rw (held-append before returned after, held-append before receiving after) (Perm.refl _))
  whole-Move before after (abandon a x f) n = absurd (cc (f, n))
  whole-Move before after (call a f) n = (
    n,
    rw (held-append before (running a) after, held-append before (checking a) after) (Perm.refl _),
  )
  whole-Move {sh} before after (succeed a f) n = (
    n,
    rw (held-append before receiving after, held-append before (running a) after)
        (perm_finish sh.finished (held before) (held after) sh.queue a),
  )
  whole-Move before after (fail a x f) n = (
    n,
    rw (held-append before (reporting a x) after, held-append before (running a) after)
        (Perm.refl _),
  )
  whole-Move {sh} before after (report a x) n = absurd (or_first_ne sh.first_err x n)
