-- ===== src/Concurrent/Turns.antt =====
-- How many turns a thread needs to end, whatever the other threads do in between.
use gorder.Prelude.{
  ℕ, zero, suc, ◌≤◌, ◌≡◌, refl, ap, some, List, [], ◌∷◌, get_elem?, ◌≢◌, subst, ℕ_discrete, arith,
}
use gorder.Concurrent.{
  Thread, ended, acts, move, move_at, Written, Ending, Pool, Turn, consuming, serving, turn, run,
  turns_of, consumer_turns,
}

-- The thread ends after so many steps of its own at most.
abbrev pub Within : {S A : Type 0} → Thread S A → ℕ → Type 0
Within (ended a) n = Unit
Within (acts f next) zero = ⊥
Within {S} (acts f next) (suc n) = (s : S) → Within (next s) n

move-Within :
    {S A : Type 0} (t : Thread S A) (n : ℕ) (s : S) → Within t (suc n) → Within (move t s).1 n
move-Within (ended a) n s h = tt
move-Within (acts f next) n s h = h s

pub Within-more : {S A : Type 0} (t : Thread S A) (n m : ℕ) → n ≤ m → Within t n → Within t m
Within-more (ended a) n m few h = tt
Within-more (acts f next) zero m few h = elim h [ ]
Within-more (acts f next) (suc n) zero few h = absurd (omega arith)
Within-more (acts f next) (suc n) (suc m) few h = λ s. Within-more (next s) n m (omega arith) (h s)

ended-Within : {S A : Type 0} (t : Thread S A) (s : S) → Within t zero → Within (move t s).1 zero
ended-Within (acts _ _) s h = elim h [ ]
ended-Within (ended a) s h = tt

Within-ended : {S A : Type 0} (t : Thread S A) → Within t zero → (a : A) × (t ≡ ended a)
Within-ended (ended a) h = (a, refl)
Within-ended (acts f next) h = elim h [ ]

module _ {S : Type 0} where
  -- The thread at the index ends within so many steps of its own.
  abbrev pub EndsAt : List (Thread S Written) → ℕ → ℕ → Type 0
  EndsAt [] i n = ⊥
  EndsAt (t ∷ ts) zero n = Within t n
  EndsAt (t ∷ ts) (suc i) n = EndsAt ts i n

  move_at-EndsAt_self :
      (ts : List (Thread S Written)) (i n : ℕ) (s : S)
      → EndsAt ts i (suc n)
      → EndsAt (move_at i ts s).1 i n
  unfolding move_at
  move_at-EndsAt_self [] i n s h = elim h [ ]
  move_at-EndsAt_self (t ∷ ts) zero n s h = move-Within t n s h
  move_at-EndsAt_self (t ∷ ts) (suc i) n s h = move_at-EndsAt_self ts i n s h

  -- A step of another thread, or of one that has ended, changes nothing here.
  move_at-EndsAt_other :
      (ts : List (Thread S Written)) (i k n : ℕ) (s : S)
      → i ≢ k
      → EndsAt ts i n
      → EndsAt (move_at k ts s).1 i n
  unfolding move_at
  move_at-EndsAt_other [] i k n s other h = elim h [ ]
  move_at-EndsAt_other (t ∷ ts) zero zero n s other h = absurd (other refl)
  move_at-EndsAt_other (t ∷ ts) zero (suc k) n s other h = h
  move_at-EndsAt_other (t ∷ ts) (suc i) zero n s other h = h
  move_at-EndsAt_other (t ∷ ts) (suc i) (suc k) n s other h =
      move_at-EndsAt_other ts i k n s (λ e. other (ap suc e)) h

  move_at-EndsAt_ended :
      (ts : List (Thread S Written)) (i k : ℕ) (s : S)
      → EndsAt ts i zero
      → EndsAt (move_at k ts s).1 i zero
  unfolding move_at
  move_at-EndsAt_ended [] i k s h = elim h [ ]
  move_at-EndsAt_ended (t ∷ ts) zero zero s h = ended-Within t s h
  move_at-EndsAt_ended (t ∷ ts) zero (suc k) s h = h
  move_at-EndsAt_ended (t ∷ ts) (suc i) zero s h = h
  move_at-EndsAt_ended (t ∷ ts) (suc i) (suc k) s h = move_at-EndsAt_ended ts i k s h

  -- A thread that ends within as many steps as it gets turns has ended, whatever the others do.
  pub run-EndsAt :
      (turns : List Turn) (p : Pool S) (i n : ℕ)
      → EndsAt p.requests i n
      → n ≤ turns_of i turns
      → EndsAt (run turns p).requests i zero
  unfolding run turn
  run-EndsAt [] p i zero h few = h
  run-EndsAt [] p i (suc n) h few = absurd (omega arith)
  run-EndsAt (consuming ∷ turns) p i n h few = run-EndsAt turns (turn consuming p) i n h few
  run-EndsAt (serving k ∷ turns) p i zero h few =
      run-EndsAt turns (turn (serving k) p) i zero (move_at-EndsAt_ended p.requests i k p.state h)
        (omega arith)
  run-EndsAt (serving k ∷ turns) p i (suc n) h few = elim (ℕ_discrete i k) [
    | yes e ↦
        let own : EndsAt (move_at k p.requests p.state).1 i n =
          subst (λ m. EndsAt (move_at m p.requests p.state).1 i n) e
            (move_at-EndsAt_self p.requests i n p.state h) in
        run-EndsAt turns (turn (serving k) p) i n own (ground arith)
    | no other ↦
        run-EndsAt turns (turn (serving k) p) i (suc n)
          (move_at-EndsAt_other p.requests i k (suc n) p.state other h) (ground arith)
  ]

  pub EndsAt-ended :
      (ts : List (Thread S Written)) (i : ℕ)
      → EndsAt ts i zero
      → (a : Written) × (get_elem? ts i ≡ some (ended a))
  EndsAt-ended [] i h = elim h [ ]
  EndsAt-ended (ended a ∷ ts) zero h = (a, refl)
  EndsAt-ended (acts f next ∷ ts) zero h = absurd h
  EndsAt-ended (t ∷ ts) (suc i) h = EndsAt-ended ts i h

  -- The consumer has ended after as many turns of its own as it has steps.
  run-Within :
      (turns : List Turn) (p : Pool S) (n : ℕ)
      → Within p.consumer n
      → n ≤ consumer_turns turns
      → Within (run turns p).consumer zero
  unfolding run turn
  run-Within [] p n h few = Within-more p.consumer n zero (omega (arith, few)) h
  run-Within (serving i ∷ turns) p n h few = run-Within turns (turn (serving i) p) n h few
  run-Within (consuming ∷ turns) p zero h few =
      run-Within turns (turn consuming p) zero (ended-Within p.consumer p.state h) (omega arith)
  run-Within (consuming ∷ turns) p (suc n) h few =
      run-Within turns (turn consuming p) n (move-Within p.consumer n p.state h) (omega arith)

  pub run-consumer_ended :
      (turns : List Turn) (p : Pool S) (n : ℕ)
      → Within p.consumer n
      → n ≤ consumer_turns turns
      → (e : Ending) × ((run turns p).consumer ≡ ended e)
  run-consumer_ended turns p n h few =
      Within-ended (run turns p).consumer (run-Within turns p n h few)
