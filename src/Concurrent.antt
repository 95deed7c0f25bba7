-- ===== src/Concurrent.antt =====
-- The goroutines of the service, interleaved: internal/app/app.go starts the consumer, and net/http
-- one goroutine for each request. What a goroutine does between two accesses to what they share is
-- its own: a method of the cache runs under its mutex, a reading method of the repository and a
-- transaction is a step of the database. A thread is what a goroutine has still to do.
pub mod Requests
pub mod Messages
pub mod Alone
pub mod Rely
pub mod Turns
pub mod Whole
pub mod Lookups
pub mod Orders
pub mod Anyone
pub mod Saving
pub mod Steps
pub mod Served
pub mod Safety
pub mod Stored
use gorder.Prelude.{ℕ, zero, suc, List, [], ◌∷◌, Option, none, some, length, ◌==◌, if◌then◌else◌}
use gorder.Http.{Effect, Outcome, finished, panicked}

-- `acts f next`: the step changes the shared state by `f`, and how the thread goes on depends on the
-- state that the step has found.
pub data Thread (S A : Type 0) : Type 0 where
  ended : A → Thread S A
  acts : (S → S) → (S → Thread S A) → Thread S A

module _ {S A : Type 0} where
  -- a step with a result, which the thread goes on with
  abbrev pub atomic : {B : Type 0} → (S → S × B) → (B → Thread S A) → Thread S A
  atomic f k = acts (λ s. (f s).0) (λ s. k (f s).1)

  -- one step of the thread
  abbrev pub move : Thread S A → S → S × Thread S A
  move (ended a) s = (s, ended a)
  move (acts f next) s = (f s, next s)

  -- the thread with nobody else about, and what is made of its end
  unfoldable pub alone : {B : Type 0} → (S → A → B) → Thread S A → S → B
  alone finish (ended a) s = finish s a
  alone finish (acts f next) s = alone finish (next s) (f s)

  -- a step of one of several threads
  unfoldable pub move_at : ℕ → List (Thread S A) → S → S × List (Thread S A)
  move_at i [] s = (s, [])
  move_at zero (t ∷ ts) s = let (s', t') = move t s in (s', t' ∷ ts)
  move_at (suc i) (t ∷ ts) s = let (s', ts') = move_at i ts s in (s', t ∷ ts')

-- What a request's handler wrote; `none` where it panicked.
abbrev pub Written : Type 0
Written = Option (List Effect)

abbrev pub outcome : {S : Type 0} → S → Written → Outcome S
outcome s none = panicked s
outcome s (some es) = finished s es

-- How the consumer's goroutine ends: at a nil pointer, by its return, or waiting for a message.
pub data Ending : Type 0 where
  crashed : Ending
  returned : Ending
  idle : Ending

pub record Pool (S : Type 0) : Type 0 where
  pub state : S
  pub consumer : Thread S Ending
  pub requests : List (Thread S Written)

-- Whose step is next.
pub data Turn : Type 0 where
  consuming : Turn
  serving : ℕ → Turn

unfoldable pub turn : {S : Type 0} → Turn → Pool S → Pool S
turn consuming p = let (s, t) = move p.consumer p.state in record p { state = s; consumer = t }
turn (serving i) p =
    let (s, ts) = move_at i p.requests p.state in record p { state = s; requests = ts }

-- The goroutines take their steps in the order of the list.
unfoldable pub run : {S : Type 0} → List Turn → Pool S → Pool S
run [] p = p
run (t ∷ ts) p = run ts (turn t p)

-- how many of the turns are the request's
abbrev pub turns_of : ℕ → List Turn → ℕ
turns_of i [] = 0
turns_of i (consuming ∷ ts) = turns_of i ts
turns_of i (serving j ∷ ts) = let rest = turns_of i ts in if i == j then suc rest else rest

-- how many of the turns are the consumer's
abbrev pub consumer_turns : List Turn → ℕ
consumer_turns [] = 0
consumer_turns (consuming ∷ ts) = suc (consumer_turns ts)
consumer_turns (serving _ ∷ ts) = consumer_turns ts
