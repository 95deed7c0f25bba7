-- ===== src/Tests/Concurrent.antt =====
-- An order that arrives while alice, who is an admin, asks for it.
use gorder.Prelude.{ℕ, zero, suc, ◌≡◌, ◌≢◌, refl, some, List, [], ◌∷◌, get_elem?, arith}
use gorder.Http.{Ctx}
use gorder.Repository.Tables.{Tables}
use gorder.Handler.Orders.{App}
use gorder.Handler.PageAccess.{IsSignedIn}
use gorder.System.Handlers.{IsSound}
use gorder.Concurrent.{Pool, ended, crashed, returned, Written, Turn, consuming, serving, run}
use gorder.Concurrent.Requests.{Request, order_page, any_order}
use gorder.Concurrent.Served.{IsAnswered}
use gorder.Concurrent.Safety.{started, run-IsSound, run-answers, run-consumes}
use gorder.Tests.Access.{storage, alice-IsSignedIn}
use gorder.Tests.Samples.{
  memory, memory_laws, plain_codec, plain_jwt, plain_bcrypt, request, app-Fits,
}
use gorder.Tests.Storage.{reads, empty_app, empty_tables-IsConsistent}

abbrev asking : Ctx
asking = record request { uid = "a1" }

asking-IsSignedIn : IsSignedIn storage 2 asking "admin" "alice"
asking-IsSignedIn =
    let who = alice-IsSignedIn in
    record { id = who.id; user_id = who.user_id; role_lem = who.role_lem; username = who.username }

abbrev pub requests : List (Request storage plain_jwt plain_bcrypt "secret")
requests = order_page asking ∷ any_order asking ∷ []

pub empty_app-IsSound : IsSound memory memory_laws 2 empty_app
empty_app-IsSound = record {
  orders = [];
  fits = app-Fits;
  backed = tt;
  consistent = empty_tables-IsConsistent;
}

-- The page is asked for before the order is there, and reads it after it has been added.
abbrev turns : List Turn
turns =
    serving 0
    ∷ consuming
    ∷ consuming
    ∷ serving 1
    ∷ serving 0
    ∷ consuming
    ∷ serving 0
    ∷ consuming
    ∷ []

abbrev last : Pool (App Tables)
last = run turns (
    started memory memory_laws 2 plain_jwt plain_bcrypt "secret" plain_codec reads requests
      empty_app)

run-IsSound_example : IsSound memory memory_laws 2 last.state × (last.consumer ≢ ended crashed)
run-IsSound_example =
    run-IsSound memory memory_laws 2 plain_jwt plain_bcrypt "secret" plain_codec reads requests
      empty_app turns empty_app-IsSound

run-answers_example :
    (out : Written) × (get_elem? last.requests 0 ≡ some (ended out))
    × IsAnswered memory memory_laws 2 plain_jwt plain_bcrypt "secret" (order_page asking) out
run-answers_example =
    run-answers memory memory_laws 2 plain_jwt plain_bcrypt "secret" plain_codec reads requests
      empty_app turns empty_app-IsSound 0 (order_page asking) refl
      ("admin", "alice", asking-IsSignedIn) (omega arith)

-- The consumer and alice take turns.
abbrev pub rounds : ℕ → List Turn
rounds zero = []
rounds (suc n) = consuming ∷ serving 0 ∷ rounds n

run-consumes_example :
    (run (rounds 20) (
      started memory memory_laws 2 plain_jwt plain_bcrypt "secret" plain_codec reads requests
        empty_app)).consumer
    ≡ ended returned
run-consumes_example =
    run-consumes memory memory_laws 2 plain_jwt plain_bcrypt "secret" plain_codec reads requests
      empty_app (rounds 20) empty_app-IsSound (omega arith)
