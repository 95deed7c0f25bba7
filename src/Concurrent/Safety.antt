-- ===== src/Concurrent/Safety.antt =====
-- The goroutines of the service in any order of their steps: the consumer of
-- internal/consumer/consumer.go and the handlers of internal/handler/handler.go over one cache and one
-- database.
use gorder.Prelude.{
  ℕ, zero, suc, ◌*◌, ◌≤◌, length, String, ◌≡◌, ◌≢◌, refl, ap, ◌∙◌, subst, some, List, [], ◌∷◌, map,
  All, get_elem?, arith,
}
use gorder.Prelude.Result.{Result, ok, err}
use gorder.Models.{Order}
use gorder.Middleware.Jwt.{Jwt}
use gorder.Repository.Driver.{Driver, DriverLaws}
use gorder.Repository.Interface.{repository}
use gorder.Handler.Orders.{App}
use gorder.Handler.Session.{Bcrypt}
use gorder.Consumer.{ReadError, canceled, deadline_exceeded, read_failed, Codec}
use gorder.System.Handlers.{IsSound}
use gorder.Concurrent.{ended, Written, Ending, crashed, Pool, Turn, run, turns_of, consumer_turns}
use gorder.Concurrent.Requests.{Request, thread_of}
use gorder.Concurrent.Messages.{ending_of, taken, consuming_thread}
use gorder.Concurrent.Lookups.{LeavesOrders, KeepsOrders, Leaves-KeepsOrders}
use gorder.Concurrent.Saving.{
  Learns, WellEnded, WellEnded-stays, nothing-Learns, consuming_thread-Safe,
}
use gorder.Concurrent.Steps.{thread_of-Within, consuming_thread-Within}
use gorder.Repository.Tables.{Tables}
use gorder.Concurrent.Rely.{Safe, AllSafe, IsSafe, ended-Post, run-IsSafe}
use gorder.Concurrent.Turns.{EndsAt, run-EndsAt, EndsAt-ended, run-consumer_ended}
use gorder.Concurrent.Served.{IsAdmitted, IsAnswered, Ends, thread_of-SafeRequest}

module _ (d : Driver) (laws : DriverLaws d) (capacity : ℕ) (j : Jwt) (b : Bcrypt)
    (secret : String) where
  abbrev pub Healthy : App d.Db → Type 0
  Healthy = IsSound d laws capacity

  abbrev Leaves : App d.Db → App d.Db → Type 0
  Leaves = LeavesOrders d laws capacity

  abbrev Keeps : App d.Db → App d.Db → Type 0
  Keeps = KeepsOrders d laws capacity

  abbrev pub Asked : Type 0
  Asked = Request (repository d) j b secret

  abbrev pub Admitted : Asked → Type 0
  Admitted = IsAdmitted d laws capacity j b secret

  abbrev pub Answered : Asked → Written → Type 0
  Answered = IsAnswered d laws capacity j b secret

  -- The service with these requests under way and these messages to come.
  abbrev pub started :
      Codec → List (Result ReadError String) → List Asked → App d.Db → Pool (App d.Db)
  started v reads qs s = record {
    state = s;
    consumer = consuming_thread d v reads;
    requests = map (thread_of (repository d) j b secret) qs;
  }

  abbrev EndsSo : Asked → Written → Type 0
  EndsSo = Ends d laws capacity j b secret

  started-AllSafe :
      (EndsWell : App d.Db → Ending → Type 0) (qs : List Asked) (s : App d.Db)
      → AllSafe Healthy Leaves Keeps EndsWell EndsSo qs
          (map (thread_of (repository d) j b secret) qs)
          s
  started-AllSafe well [] s = tt
  started-AllSafe well (q ∷ qs) s =
      (thread_of-SafeRequest d laws capacity j b secret q s, started-AllSafe well qs s)

  started-EndsAt :
      (qs : List Asked) (i : ℕ) (q : Asked)
      → get_elem? qs i ≡ some q
      → EndsAt (map (thread_of (repository d) j b secret) qs) i 3
  started-EndsAt [] i q e = absurd (ground arith)
  started-EndsAt (q' ∷ qs) zero q e = thread_of-Within (repository d) j b secret q'
  started-EndsAt (q' ∷ qs) (suc i) q e = started-EndsAt qs i q e

  Leaves-trans : (s t u : App d.Db) → Leaves s t → Leaves t u → Leaves s u
  Leaves-trans s t u p q = q ∙ ap (λ (x : Tables). record x { users = (d.tables u.db).users }) p

  -- What may be known of the orders from the messages.
  abbrev pub Known : Type 1
  Known = Order → App d.Db → Type 0

  abbrev pub EndsAs : Codec → Known → List (Result ReadError String) → App d.Db → Ending → Type 0
  EndsAs v known reads = WellEnded d laws capacity v known (ending_of reads) (taken v reads)

  abbrev pub AllLearn : Codec → Known → List (Result ReadError String) → Type 0
  AllLearn v known reads = All (λ o. Learns d laws capacity (known o) o) (taken v reads)

  abbrev nothing : Known
  nothing o s = Unit

  pub run-started-IsSafe :
      (v : Codec) (reads : List (Result ReadError String)) (qs : List Asked) (s : App d.Db)
      (turns : List Turn) (known : Known)
      → AllLearn v known reads
      → Healthy s
      → IsSafe Healthy Leaves Keeps
          (EndsAs v known reads)
          EndsSo
          qs
          (run turns (started v reads qs s))
  run-started-IsSafe v reads qs s turns known learns sound =
      run-IsSafe Healthy Leaves Keeps (EndsAs v known reads) EndsSo (λ x. refl)
        (Leaves-KeepsOrders d laws capacity) Leaves-trans (λ x y z f g o h. g o (f o h))
        (WellEnded-stays d laws capacity v known (ending_of reads) (taken v reads) learns) turns qs
        (started v reads qs s)
        (record {
          inv = sound;
          consumer = consuming_thread-Safe d laws capacity v known reads learns s;
          requests = started-AllSafe (EndsAs v known reads) qs s;
        })

  no_crash : (reads : List (Result ReadError String)) → crashed ≢ ending_of reads
  no_crash [] = λ e. cc
  no_crash (ok msg ∷ reads) = no_crash reads
  no_crash (err canceled ∷ reads) = λ e. cc
  no_crash (err deadline_exceeded ∷ reads) = λ e. cc
  no_crash (err (read_failed _) ∷ reads) = no_crash reads

  -- Whatever requests and messages there are, and in whatever order the goroutines take their steps:
  -- from a sound state, the state is sound after every step (the cache, within its capacity, holds
  -- only orders that the orders table holds with their customers, and the tables have no UID twice
  -- and no part without its order), and the consumer meets no nil pointer.
  pub run-IsSound :
      (v : Codec) (reads : List (Result ReadError String)) (qs : List Asked) (s : App d.Db)
      (turns : List Turn)
      → Healthy s
      → Healthy (run turns (started v reads qs s)).state
        × ((run turns (started v reads qs s)).consumer ≢ ended crashed)
  run-IsSound v reads qs s turns sound =
      let safe =
        run-started-IsSafe v reads qs s turns nothing
          (nothing-Learns d laws capacity (taken v reads)) sound in
      let p = run turns (started v reads qs s) in
      (
        safe.inv,
        λ e.
            let well : EndsAs v nothing reads p.state crashed =
              subst (λ t. Safe Healthy Leaves Keeps (EndsAs v nothing reads) t p.state) e
                safe.consumer in
            no_crash reads well.0,
      )

  -- Whatever requests and messages there are, and in whatever order the goroutines take their steps,
  -- from a sound state: a request that has had three turns has ended, in this way. A request for an
  -- order that comes with the values of the guards, a user ID and texts for its role and its username,
  -- has got one reply, and no panic: an error, or the order that was asked for, which is the user's
  -- own but for the API of the admins and an admin's page. Any request that is not for an order has
  -- got what its handler writes in some sound state.
  pub run-answers :
      (v : Codec) (reads : List (Result ReadError String)) (qs : List Asked) (s : App d.Db)
      (turns : List Turn)
      → Healthy s
      → (i : ℕ) (q : Asked) → get_elem? qs i ≡ some q
      → Admitted q
      → 3 ≤ turns_of i turns
      → (out : Written) × (get_elem? (run turns (started v reads qs s)).requests i
          ≡ some (ended out))
        × Answered q out
  run-answers v reads qs s turns sound i q listed admitted enough =
      let safe =
        run-started-IsSafe v reads qs s turns nothing
          (nothing-Learns d laws capacity (taken v reads)) sound in
      let p = run turns (started v reads qs s) in
      let (out, at_end) =
        EndsAt-ended p.requests i
          (run-EndsAt turns (started v reads qs s) i 3 (started-EndsAt qs i q listed) enough) in
      (
        out,
        at_end,
        ended-Post Healthy Leaves Keeps (EndsAs v nothing reads) EndsSo qs p.requests p.state i q
            out safe.requests listed at_end admitted,
      )

  -- The consumer has ended, after enough turns, as the loop does, and what is known of the orders.
  pub consumed :
      (v : Codec) (reads : List (Result ReadError String)) (qs : List Asked) (s : App d.Db)
      (turns : List Turn) (known : Known)
      → AllLearn v known reads
      → Healthy s
      → 4 * length reads ≤ consumer_turns turns
      → let p : Pool (App d.Db) = run turns (started v reads qs s) in
        (p.consumer ≡ ended (ending_of reads)) × All (λ o. known o p.state) (taken v reads)
  consumed v reads qs s turns known learns sound enough =
      let safe = run-started-IsSafe v reads qs s turns known learns sound in
      let p = run turns (started v reads qs s) in
      let (e, at_end) =
        run-consumer_ended turns (started v reads qs s) (4 * length reads)
          (consuming_thread-Within d v reads) enough in
      let well : EndsAs v known reads p.state e =
        subst (λ t. Safe Healthy Leaves Keeps (EndsAs v known reads) t p.state) at_end
          safe.consumer in
      (at_end ∙ ap ended well.0, well.1)

  -- Whatever requests and messages there are, and in whatever order the goroutines take their steps,
  -- from a sound state: a consumer that has had four turns for each result of the reader has ended as
  -- the loop does. It has returned where one of the results is an error of an ended context, and else
  -- it waits for the next message.
  pub run-consumes :
      (v : Codec) (reads : List (Result ReadError String)) (qs : List Asked) (s : App d.Db)
      (turns : List Turn)
      → Healthy s
      → 4 * length reads ≤ consumer_turns turns
      → (run turns (started v reads qs s)).consumer ≡ ended (ending_of reads)
  run-consumes v reads qs s turns sound enough =
      (consumed v reads qs s turns nothing (nothing-Learns d laws capacity (taken v reads)) sound
        enough).0
