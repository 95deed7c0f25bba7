-- ===== src/Concurrent/Rely.antt =====
-- Rely and guarantee: what a thread keeps true while the others take their steps in between. The
-- consumer lets the tables grow and the requests leave the orders alone, so each side relies on what
-- the other one guarantees.
use gorder.Prelude.{ℕ, zero, suc, ◌≡◌, some, List, [], ◌∷◌, get_elem?, subst, arith}
use gorder.Concurrent.{
  Thread, ended, acts, move, move_at, Written, Ending, Pool, Turn, consuming, serving, turn, run,
}

module _ {S A : Type 0} (Inv : S → Type 0) (Rely Guar : S → S → Type 0)
    (Post : S → A → Type 0) where
  -- From the state on, and whatever the others do within `Rely`, each step of the thread keeps the
  -- invariant and stays within `Guar`, and the thread ends with `Post`.
  abbrev pub Safe : Thread S A → S → Type 0
  Safe (ended a) s = Post s a
  Safe (acts f next) s =
      (s' : S) → Rely s s' → Inv s' → Inv (f s') × Guar s' (f s') × Safe (next s') (f s')

  module _ (trans : (s t u : S) → Rely s t → Rely t u → Rely s u)
      (stable : (s t : S) (a : A) → Rely s t → Post s a → Post t a) where
    pub Safe-later : (t : Thread S A) (s s' : S) → Rely s s' → Safe t s → Safe t s'
    Safe-later (ended a) s s' r h = stable s s' a r h
    Safe-later (acts f next) s s' r h = λ s'' r' inv. h s'' (trans s s' s'' r r') inv

  module _ (same : (s : S) → Rely s s) (still : (s : S) → Guar s s) where
    pub move-Safe :
        (t : Thread S A) (s : S)
        → Inv s
        → Safe t s
        → Inv (move t s).0 × Guar s (move t s).0 × Safe (move t s).1 (move t s).0
    move-Safe (ended a) s inv h = (inv, still s, h)
    move-Safe (acts f next) s inv h = h s (same s) inv

pub Safe-map :
    {S A : Type 0} (Inv : S → Type 0) (Rely Guar : S → S → Type 0) (P Q : S → A → Type 0)
    → ((s : S) (a : A) → P s a → Q s a)
    → (t : Thread S A) (s : S) → Safe Inv Rely Guar P t s
    → Safe Inv Rely Guar Q t s
Safe-map Inv Rely Guar P Q f (ended a) s h = f s a h
Safe-map Inv Rely Guar P Q f (acts g next) s h = λ s' r inv.
    let (inv', guar, h') = h s' r inv in
    (inv', guar, Safe-map Inv Rely Guar P Q f (next s') (g s') h')

-- A thread that is safe anyway ends with what it would end with under a condition.
pub Safe-when :
    {S A : Type 0} (Inv : S → Type 0) (Rely Guar : S → S → Type 0) (P : S → A → Type 0) (H : Type 0)
    (t : Thread S A) (s : S)
    → Safe Inv Rely Guar (λ _ _. Unit) t s
    → (H → Safe Inv Rely Guar P t s)
    → Safe Inv Rely Guar (λ s' a. H → P s' a) t s
Safe-when Inv Rely Guar P H (ended a) s _ h = h
Safe-when Inv Rely Guar P H (acts g next) s anyway h = λ s' later inv.
    let (inv', within, anyway') = anyway s' later inv in
    (inv', within, Safe-when Inv Rely Guar P H (next s') (g s') anyway' (λ x. (h x s' later inv).2))

-- What holds at first and is kept on both sides holds at the end.
pub Safe-with :
    {S A : Type 0} (Inv : S → Type 0) (Rely Guar : S → S → Type 0) (P : S → A → Type 0)
    (R : S → Type 0)
    → ((s t : S) → Rely s t → R s → R t)
    → ((s t : S) → Guar s t → R s → R t)
    → (t : Thread S A) (s : S) → R s
    → Safe Inv Rely Guar P t s
    → Safe Inv Rely Guar (λ s' a. P s' a × R s') t s
Safe-with Inv Rely Guar P R rely guar (ended a) s r h = (h, r)
Safe-with Inv Rely Guar P R rely guar (acts g next) s r h = λ s' later inv.
    let (inv', within, h') = h s' later inv in
    (
      inv',
      within,
      Safe-with Inv Rely Guar P R rely guar (next s') (g s')
          (guar s' (g s') within (rely s s' later r)) h',
    )

module _ {S Q : Type 0} (Inv : S → Type 0) (Keeps Grows : S → S → Type 0)
    (PostC : S → Ending → Type 0) (Post : Q → Written → Type 0) where
  -- Each request's thread, over the requests that they serve.
  abbrev pub AllSafe : List Q → List (Thread S Written) → S → Type 0
  AllSafe [] [] s = Unit
  AllSafe [] (t ∷ ts) s = ⊥
  AllSafe (q ∷ qs) [] s = ⊥
  AllSafe (q ∷ qs) (t ∷ ts) s = Safe Inv Grows Keeps (λ _. Post q) t s × AllSafe qs ts s

  pub record IsSafe (qs : List Q) (p : Pool S) : Type 0 where
    pub inv : Inv p.state
    pub consumer : Safe Inv Keeps Grows PostC p.consumer p.state
    pub requests : AllSafe qs p.requests p.state

  pub ended-Post :
      (qs : List Q) (ts : List (Thread S Written)) (s : S) (i : ℕ) (q : Q) (a : Written)
      → AllSafe qs ts s
      → get_elem? qs i ≡ some q
      → get_elem? ts i ≡ some (ended a)
      → Post q a
  ended-Post (q' ∷ qs) [] s i q a h e f = elim h [ ]
  ended-Post [] (t ∷ ts) s i q a h e f = elim h [ ]
  ended-Post [] [] s i q a h e f = absurd (ground arith)
  ended-Post (q' ∷ qs) (t ∷ ts) s zero q a (h, _) e f =
      let same : q' ≡ q = cc in
      let over : t ≡ ended a = cc in
      subst (λ x. Post x a) same (subst (λ x. Safe Inv Grows Keeps (λ _. Post q') x s) over h)
  ended-Post (q' ∷ qs) (t ∷ ts) s (suc i) q a (_, h) e f = ended-Post qs ts s i q a h e f

  module _ (same : (s : S) → Keeps s s) (weaken : (s t : S) → Keeps s t → Grows s t)
      (keeps_trans : (s t u : S) → Keeps s t → Keeps t u → Keeps s u)
      (grows_trans : (s t u : S) → Grows s t → Grows t u → Grows s u)
      (stable : (s t : S) (e : Ending) → Keeps s t → PostC s e → PostC t e) where
    AllSafe-later :
        (qs : List Q) (ts : List (Thread S Written)) (s s' : S)
        → Grows s s'
        → AllSafe qs ts s
        → AllSafe qs ts s'
    AllSafe-later (q ∷ qs) [] s s' r h = elim h [ ]
    AllSafe-later [] (t ∷ ts) s s' r h = elim h [ ]
    AllSafe-later [] [] s s' r h = tt
    AllSafe-later (q ∷ qs) (t ∷ ts) s s' r (h, hs) = (
      Safe-later Inv Grows Keeps (λ _. Post q) grows_trans (λ _ _ _ _ h'. h') t s s' r h,
      AllSafe-later qs ts s s' r hs,
    )

    move_at-AllSafe :
        (qs : List Q) (ts : List (Thread S Written)) (i : ℕ) (s : S)
        → Inv s
        → AllSafe qs ts s
        → Inv (move_at i ts s).0
          × Keeps s (move_at i ts s).0
          × AllSafe qs (move_at i ts s).1 (move_at i ts s).0
    unfolding move_at
    move_at-AllSafe (q ∷ qs) [] i s inv h = elim h [ ]
    move_at-AllSafe [] (t ∷ ts) i s inv h = elim h [ ]
    move_at-AllSafe [] [] i s inv h = (inv, same s, tt)
    move_at-AllSafe (q ∷ qs) (t ∷ ts) zero s inv (h, hs) =
        let (inv', kept, h') =
          move-Safe Inv Grows Keeps (λ _. Post q) (λ x. weaken x x (same x)) same t s inv h in
        (inv', kept, (h', AllSafe-later qs ts s (move t s).0 (weaken _ _ kept) hs))
    move_at-AllSafe (q ∷ qs) (t ∷ ts) (suc i) s inv (h, hs) =
        let (inv', kept, hs') = move_at-AllSafe qs ts i s inv hs in
        (
          inv',
          kept,
          (
            Safe-later Inv Grows Keeps (λ _. Post q) grows_trans (λ _ _ _ _ h'. h') t s _
                (weaken _ _ kept) h,
            hs',
          ),
        )

    turn-IsSafe : (t : Turn) (qs : List Q) (p : Pool S) → IsSafe qs p → IsSafe qs (turn t p)
    unfolding turn
    turn-IsSafe consuming qs p h =
        let (inv, grown, consumer) =
          move-Safe Inv Keeps Grows PostC same (λ x. weaken x x (same x)) p.consumer p.state h.inv
            h.consumer in
        record {
          inv = inv;
          consumer = consumer;
          requests = AllSafe-later qs p.requests p.state _ grown h.requests;
        }
    turn-IsSafe (serving i) qs p h =
        let (inv, kept, requests) = move_at-AllSafe qs p.requests i p.state h.inv h.requests in
        record {
          inv = inv;
          consumer =
              Safe-later Inv Keeps Grows PostC keeps_trans stable p.consumer p.state _ kept
                h.consumer;
          requests = requests;
        }

    -- Whatever the order of the steps, the pool stays safe.
    pub run-IsSafe :
        (turns : List Turn) (qs : List Q) (p : Pool S) → IsSafe qs p → IsSafe qs (run turns p)
    unfolding run
    run-IsSafe [] qs p h = h
    run-IsSafe (t ∷ turns) qs p h = run-IsSafe turns qs (turn t p) (turn-IsSafe t qs p h)
