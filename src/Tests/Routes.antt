-- ===== src/Tests/Routes.antt =====
-- The router on a request of alice, who is an admin.
use gorder.Prelude.{
  ℕ, List, ap, ◌∙◌, String, ◌≡◌, ◌⊎◌, inl, inr, refl, [], ◌∷◌, Bool, true, In, string_discrete,
}
use gorder.Prelude.Dict.{lookup}
use gorder.Prelude.Result.{Result, ok, err, done}
use gorder.Http.{str, Effect, json, html, redirect, reply}
use gorder.Prelude.Decimal.{itoa}
use gorder.Router.Observed.{measured, measured-observed}
use gorder.Repository.Tables.{Tables}
use gorder.Repository.Interface.{Interface, repository, repository-ReadLaws}
use gorder.Middleware.Jwt.{Claims, hmac}
use gorder.Middleware.Auth.{claim}
use gorder.Handler.Orders.{App, get_order_by_uid_handle}
use gorder.Handler.Pages.{order_page_handle}
use gorder.Handler.System.{consumer_first}
use gorder.Router.{Server, Route, get, serve, group, create_router}
use gorder.Router.Answers.{IsReplied, create_router-replies}
use gorder.Router.Guards.{IsPermitted, IsTurnedAway, create_router-guarded}
use gorder.Tests.Samples.{
  admin_claims, memory, memory_laws, plain_jwt, plain_jwt_laws, plain_bcrypt, request, app,
  app-Fits,
}

abbrev storage : Interface Tables
storage = repository memory

-- The limiter has seen too many requests.
abbrev reached : String → App Tables → App Tables × Result String Bool
reached ip s = (s, ok true)

abbrev server : Server Tables
server = record {
  r = storage;
  j = plain_jwt;
  b = plain_bcrypt;
  secret = "secret";
  bodies = record { login = λ _. err "EOF"; refresh = λ _. err "EOF" };
  check_health = done;
  finish = consumer_first;
  limit = reached;
}

abbrev admin_route : Route (App Tables)
admin_route = record {
  verb = get;
  path = "/api/admin/orders/:uid";
  chain = group server ("admin" ∷ []) (get_order_by_uid_handle storage);
}

admin_route-In : In admin_route (create_router server)
unfolding create_router
admin_route-In = inr (inr (inr (inr (inr (inr (inr (inr (inr (inr (inr (inl refl)))))))))))

create_router-guarded_example :
    IsPermitted plain_jwt "secret" ("admin" ∷ []) request
    ⊎ IsTurnedAway app (serve admin_route.chain request app)
create_router-guarded_example =
    create_router-guarded server plain_jwt_laws admin_route admin_route-In ("admin" ∷ []) refl
      request app

abbrev page_route : Route (App Tables)
page_route = record {
  verb = get;
  path = "/:uid";
  chain = group server ("user" ∷ "admin" ∷ []) (order_page_handle storage);
}

page_route-In : In page_route (create_router server)
unfolding create_router
page_route-In = inr (inr (inr (inr (inr (inr (inr (inr (inr (inr (inl refl))))))))))

alice_named : claim "username" admin_claims ≡ str "alice"
unfolding lookup string_discrete
alice_named = refl

admin_named :
    (token : String) (claims : Claims)
    → plain_jwt.Signed hmac "secret" token claims
    → (name : String) × (claim "username" claims ≡ str name)
admin_named token claims (_, _, same) = ("alice", ap (claim "username") same ∙ alice_named)

create_router-replies_example : IsReplied (serve page_route.chain request app)
create_router-replies_example =
    create_router-replies server plain_jwt_laws (repository-ReadLaws memory memory_laws) 2
      admin_named page_route page_route-In ("user" ∷ "admin" ∷ []) refl request app [] app-Fits

-- The status of a response with one reply, and 200 of one with none.
abbrev written_status : List Effect → ℕ
written_status (json code _ ∷ _) = code
written_status (html code _ _ ∷ _) = code
written_status (redirect code _ ∷ _) = code
written_status _ = 200

measured-observed_example :
    (e : Effect) × (s : App Tables) × (serve page_route.chain request app ≡ reply e s)
    × (measured written_status page_route request app
        ≡ (reply e s, ("GET" ∷ "/:uid" ∷ itoa (written_status (e ∷ [])) ∷ []) ∷ []))
measured-observed_example =
    measured-observed server plain_jwt_laws (repository-ReadLaws memory memory_laws) 2
      written_status admin_named page_route page_route-In ("user" ∷ "admin" ∷ []) refl request app
      [] app-Fits
