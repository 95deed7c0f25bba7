-- ===== src/Concurrent/Alone.antt =====
-- The threads of the requests against the handlers of internal/handler/handler.go: with nobody else
-- about, a thread does what the handler does in one piece.
use gorder.Prelude.{
  String, ◌≡◌, refl, Option, none, some, Bool, true, false, str_eq, Bool-cases, Option-cases, inl,
  inr,
}
use gorder.Prelude.Dict.{lookup}
use gorder.Prelude.Result.{Result, ok, err}
use gorder.Models.{Order}
use gorder.Http.{Claim, Ctx, Outcome, finished, panicked, reply, json, order, Handler, state_of}
use gorder.Cache.{Cache, get, set}
use gorder.Middleware.Jwt.{Jwt}
use gorder.Repository.Errors.{RepoError, is_no_rows}
use gorder.Repository.Interface.{Interface}
use gorder.Handler.Orders.{
  App, View, api, page, as_string, with_cached, cache_and_reply, answer, cached_for, stored_for,
  get_order_by_uid_handle, get_user_order_by_uid_handle,
}
use gorder.Handler.Pages.{stored_for_role, order_page_handle}
use gorder.Handler.Session.{Bcrypt, register_handle}
use gorder.Concurrent.{Thread, alone, Written, outcome}
use gorder.Concurrent.Requests.{
  looked, kept, answering, hit_for, looking, reading, reading_for, reading_by_role,
  any_order_thread, user_order_thread, order_page_thread, Request, any_order, user_order,
  order_page, register, other, thread_of, handled, at_once, written,
}

module _ {Db : Type 0} (r : Interface Db) where
  -- The thread does what the code does.
  abbrev Does : Thread (App Db) Written → (App Db → Outcome (App Db)) → Type 0
  Does t code = (s : App Db) → alone outcome t s ≡ code s

  pub kept-set :
      (o : Order) (s : App Db) (c : Option Cache)
      → set (some o) s.cache ≡ c
      → kept o s ≡ elim c [ none ↦ (s, false) | some c' ↦ (record s { cache = c' }, true) ]
  unfolding kept
  kept-set o s c e = rw (kept, e) refl

  answering-Does :
      (view : View) (missing : String) (result : Result RepoError Order)
      → Does (answering view missing result) (answer r view missing result)
  unfolding alone answering answer
  answering-Does view missing (ok o) s = elim (Option-cases (set (some o) s.cache)) [
    | inl e ↦ rw (alone, kept-set o s none e, answer, cache_and_reply, e) refl
    | inr (c, e) ↦ rw (alone, kept-set o s (some c) e, answer, cache_and_reply, e) refl
  ]
  answering-Does view missing (err e) s = elim (Bool-cases (is_no_rows e)) [
    | inl p ↦ rw (answer, p) refl
    | inr p ↦ rw (answer, p) refl
  ]

  hit_for-Does :
      (view : View) (username : Option Claim) (o : Order)
      → Does (hit_for view username o) (cached_for r view username o)
  unfolding alone hit_for cached_for
  hit_for-Does view username o s = elim (Option-cases (as_string username)) [
    | inl e ↦ rw (hit_for, cached_for, e) refl
    | inr (name, e) ↦ elim (Bool-cases (str_eq o.customer_id name)) [
      | inl p ↦ rw (hit_for, cached_for, e, p) refl
      | inr p ↦ rw (hit_for, cached_for, e, p) refl
    ]
  ]

  pub looked-get :
      (uid : String) (s : App Db) (g : Option (Cache × Option Order × Bool))
      → get uid s.cache ≡ g
      → looked uid s
        ≡ elim g [ none ↦ (s, none) | some (c, v, e) ↦ (record s { cache = c }, some (v, e)) ]
  unfolding looked
  looked-get uid s g e = rw (looked, e) refl

  looking-Does :
      (uid : String) (hit : Order → Thread (App Db) Written) (miss : Thread (App Db) Written)
      (hit' : Order → App Db → Outcome (App Db)) (miss' : App Db → Outcome (App Db))
      → ((o : Order) → Does (hit o) (hit' o))
      → Does miss miss'
      → Does (looking uid hit miss) (λ s. with_cached r uid s hit' miss')
  unfolding alone
  looking-Does uid hit miss hit' miss' on_hit on_miss s = elim (Option-cases (get uid s.cache)) [
    | inl e ↦ rw (alone, looked-get uid s none e, with_cached, e) refl
    | inr ((c, v, false), e) ↦
        rw (alone, looked-get uid s (some (c, v, false)) e, with_cached, e) (on_miss _)
    | inr ((c, none, true), e) ↦
        rw (alone, looked-get uid s (some (c, none, true)) e, with_cached, e) refl
    | inr ((c, some o, true), e) ↦
        rw (alone, looked-get uid s (some (c, some o, true)) e, with_cached, e) (on_hit o _)
  ]

  reading-Does :
      (view : View) (missing uid : String)
      → Does
          (reading r view missing uid)
          (λ s. answer r view missing (r.get_order_by_uid uid s.db) s)
  unfolding alone reading
  reading-Does view missing uid s = answering-Does view missing (r.get_order_by_uid uid s.db) s

  reading_for-Does :
      (view : View) (missing : String) (username : Option Claim) (uid : String)
      → Does (reading_for r view missing username uid) (stored_for r view missing username uid)
  unfolding alone reading_for stored_for
  reading_for-Does view missing username uid s = elim (Option-cases (as_string username)) [
    | inl e ↦ rw (reading_for, stored_for, e) refl
    | inr (name, e) ↦
        rw (reading_for, stored_for, e)
          (answering-Does view missing (r.get_order_by_uid_and_user uid name s.db) s)
  ]

  reading_by_role-Does :
      (role : Claim) (username : Option Claim) (uid : String)
      → Does (reading_by_role r role username uid) (stored_for_role r role username uid)
  unfolding alone reading_by_role stored_for_role
  reading_by_role-Does role username uid s = elim (Option-cases (as_string (some role))) [
    | inl e ↦ rw (reading_by_role, stored_for_role, e) refl
    | inr (name, e) ↦ elim (Bool-cases (str_eq name "admin")) [
      | inl p ↦
          rw (reading_by_role, stored_for_role, e, p)
            (reading-Does (page "order.html") "Orders not found" uid s)
      | inr p ↦
          rw (reading_by_role, stored_for_role, e, p)
            (reading_for-Does (page "order.html") "Orders not found" username uid s)
    ]
  ]

  any_order-Does : (ctx : Ctx) → Does (any_order_thread r ctx) (get_order_by_uid_handle r ctx)
  unfolding alone any_order_thread get_order_by_uid_handle
  any_order-Does ctx s = elim (Option-cases (lookup "user_id" ctx.values)) [
    | inl e ↦ rw (any_order_thread, get_order_by_uid_handle, e) refl
    | inr (id, e) ↦ elim (Bool-cases (str_eq ctx.uid "")) [
      | inl p ↦ rw (any_order_thread, get_order_by_uid_handle, e, p) refl
      | inr p ↦
          rw (any_order_thread, get_order_by_uid_handle, e, p)
            (looking-Does ctx.uid _ _ (λ o. reply (json 200 (order o)))
              (λ s'. answer r api "Failed to find order" (r.get_order_by_uid ctx.uid s'.db) s')
              (λ o s'. refl) (reading-Does api "Failed to find order" ctx.uid) s)
    ]
  ]

  user_order-Does :
      (ctx : Ctx) → Does (user_order_thread r ctx) (get_user_order_by_uid_handle r ctx)
  unfolding alone user_order_thread get_user_order_by_uid_handle
  user_order-Does ctx s = elim (Option-cases (lookup "user_id" ctx.values)) [
    | inl e ↦ rw (user_order_thread, get_user_order_by_uid_handle, e) refl
    | inr (id, e) ↦ elim (Option-cases (lookup "username" ctx.values)) [
      | inl n ↦ rw (user_order_thread, get_user_order_by_uid_handle, e, n) refl
      | inr (name, n) ↦ elim (Bool-cases (str_eq ctx.uid "")) [
        | inl p ↦ rw (user_order_thread, get_user_order_by_uid_handle, e, n, p) refl
        | inr p ↦
            rw (user_order_thread, get_user_order_by_uid_handle, e, n, p)
              (looking-Does ctx.uid _ _ (cached_for r api (some name))
                (stored_for r api "Failed to find order" (some name) ctx.uid)
                (hit_for-Does api (some name))
                (reading_for-Does api "Failed to find order" (some name) ctx.uid) s)
      ]
    ]
  ]

  order_page-Does : (ctx : Ctx) → Does (order_page_thread r ctx) (order_page_handle r ctx)
  unfolding alone order_page_thread order_page_handle
  order_page-Does ctx s =
      let username = lookup "username" ctx.values in
      elim (Option-cases (lookup "user_id" ctx.values)) [
        | inl e ↦ rw (order_page_thread, order_page_handle, e) refl
        | inr (id, e) ↦ elim (Option-cases (lookup "role" ctx.values)) [
          | inl n ↦ rw (order_page_thread, order_page_handle, e, n) refl
          | inr (role, n) ↦ elim (Bool-cases (str_eq ctx.uid "")) [
            | inl p ↦ rw (order_page_thread, order_page_handle, e, n, p) refl
            | inr p ↦
                rw (order_page_thread, order_page_handle, e, n, p)
                  (looking-Does ctx.uid _ _ (cached_for r (page "order.html") username)
                    (stored_for_role r role username ctx.uid)
                    (hit_for-Does (page "order.html") username)
                    (reading_by_role-Does role username ctx.uid) s)
          ]
        ]
      ]

  at_once-Does : (h : Handler (App Db)) (ctx : Ctx) → Does (at_once h ctx) (h ctx)
  unfolding alone
  at_once-Does h ctx s = go (h ctx s)
    where
      go : (out : Outcome (App Db)) → outcome (state_of out) (written out) ≡ out
      go (finished s' es) = refl
      go (panicked s') = refl

  module _ (j : Jwt) (b : Bcrypt) (secret : String) where
    -- Each request's thread does what its handler does.
    pub handled-Does :
        (q : Request r j b secret) → Does (thread_of r j b secret q) (handled r j b secret q)
    handled-Does (any_order ctx) = any_order-Does ctx
    handled-Does (user_order ctx) = user_order-Does ctx
    handled-Does (order_page ctx) = order_page-Does ctx
    handled-Does (register body ctx) = at_once-Does (register_handle r j b secret body) ctx
    handled-Does (other h _ ctx) = at_once-Does h ctx
