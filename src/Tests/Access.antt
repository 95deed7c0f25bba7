-- ===== src/Tests/Access.antt =====
-- The guards and the order handlers on a request of alice, who is an admin.
use gorder.Prelude.{String, ◌≡◌, refl, none, some, List, [], ◌∷◌, arith, string_discrete}
use mathlib.Core.Bool.{false≢true}
use text.Mathlib.TextEquality.{eq_iff}
use gorder.Prelude.Dict.{lookup}
use gorder.Prelude.Result.{done, failed}
use gorder.Http.{Ctx, str, order, error, json, html, Handler, reply}
use gorder.Cache.Lru.{find}
use gorder.Repository.Tables.{Tables}
use gorder.Repository.Interface.{Interface, repository, repository-ReadLaws}
use gorder.Handler.Orders.{App, api, get_order_by_uid_handle, get_user_order_by_uid_handle}
use gorder.Handler.Pages.{order_page_handle}
use gorder.Handler.Access.{IsAnswered, get_user_order_by_uid_handle-owned}
use gorder.Handler.PageAccess.{IsSignedIn, order_page_handle-admin_twice}
use gorder.Handler.CacheAside.{get_user_order_by_uid_handle-again}
use gorder.Handler.System.{
  consumer_first, ready_check_handle, readiness, ready_check_handle-readiness,
}
use gorder.Tests.Samples.{empty_tables, memory, memory_laws, request, app, app-Fits}
use gorder.Tests.Storage.{read_bob, bob_found, bob_found_by_user}

abbrev roles : List String
roles = "user" ∷ "admin" ∷ []

abbrev pub storage : Interface Tables
storage = repository memory

abbrev next : Handler (App Tables)
next = get_order_by_uid_handle storage

user_id_held : lookup "user_id" request.values ≡ some (str "1")
unfolding lookup string_discrete
user_id_held = refl

role_held : lookup "role" request.values ≡ some (str "admin")
unfolding lookup string_discrete
role_held = refl

username_held : lookup "username" request.values ≡ some (str "alice")
unfolding lookup string_discrete
username_held = refl

get_user_order_by_uid_handle-owned_example :
    IsAnswered 2 api
      (λ o. (o.customer_id ≡ "alice") × (o.order_uid ≡ "b1"))
      app.db
      (get_user_order_by_uid_handle storage request app)
get_user_order_by_uid_handle-owned_example =
    get_user_order_by_uid_handle-owned storage (repository-ReadLaws memory memory_laws) 2 request
      app [] app-Fits (str "1") "alice" user_id_held username_held

pub alice-IsSignedIn : IsSignedIn storage 2 request "admin" "alice"
alice-IsSignedIn = record {
  id = str "1";
  user_id = user_id_held;
  role_lem = role_held;
  username = username_held;
}

nothing_cached : find "b1" [] ≡ none
unfolding find
nothing_cached = refl

order_page_handle-admin_twice_example :
    (s1 s2 : App Tables) × (order_page_handle storage request app
      ≡ reply (html 200 "order.html" (order read_bob)) s1)
    × (order_page_handle storage request s1
        ≡ reply (html 404 "error.html" (error "Cached order doesn't belong to user")) s2)
order_page_handle-admin_twice_example =
    order_page_handle-admin_twice storage 2 request app [] app-Fits "alice" read_bob
      alice-IsSignedIn (λ e. false≢true ((eq_iff "b1" "").1 e)) nothing_cached bob_found refl
      (λ e. false≢true ((eq_iff "bob" "alice").1 e)) (omega arith)

-- bob asks for his order, and again when the database is empty.
abbrev bob_request : Ctx
bob_request = record request { values = ("user_id", str "2") ∷ ("username", str "bob") ∷ [] }

bob_id_held : lookup "user_id" bob_request.values ≡ some (str "2")
unfolding lookup string_discrete
bob_id_held = refl

bob_held : lookup "username" bob_request.values ≡ some (str "bob")
unfolding lookup string_discrete
bob_held = refl

get_user_order_by_uid_handle-again_example :
    (s1 s2 : App Tables) × (get_user_order_by_uid_handle storage bob_request app
      ≡ reply (json 200 (order read_bob)) s1)
    × (get_user_order_by_uid_handle storage bob_request (record s1 { db = empty_tables })
        ≡ reply (json 200 (order read_bob)) s2)
get_user_order_by_uid_handle-again_example =
    get_user_order_by_uid_handle-again storage (repository-ReadLaws memory memory_laws) 2
      bob_request app [] app-Fits (str "2") "bob" read_bob empty_tables bob_id_held bob_held
      (λ e. false≢true ((eq_iff "b1" "").1 e)) nothing_cached bob_found_by_user (omega arith)

-- Kafka is down.
ready_check_handle-readiness_example :
    ready_check_handle storage (failed "connection refused") consumer_first request app
    ≡ reply (readiness done (failed "connection refused")) app
ready_check_handle-readiness_example =
    ready_check_handle-readiness storage (failed "connection refused") consumer_first request app
