-- ===== src/Concurrent/Served.antt =====
-- The requests that the service serves: which of them get to their handlers, how each may end, and that
-- its thread is safe among the others.
use gorder.Prelude.{ℕ, String, ◌≡◌, ◌⊎◌, refl, sym, subst, some, inl, inr}
use gorder.Prelude.Dict.{lookup}
use gorder.Prelude.Result.{Result, ok, err}
use gorder.Http.{str, Ctx, Handler, state_of}
use gorder.Middleware.Jwt.{Jwt}
use gorder.Repository.Driver.{Driver, DriverLaws}
use gorder.Repository.Interface.{repository}
use gorder.Handler.Orders.{App, api, page}
use gorder.Handler.PageAccess.{IsSignedIn}
use gorder.Handler.Session.{Bcrypt, LoginRequest, register_handle}
use gorder.Handler.Tokens.{register_handle-cases}
use gorder.System.Handlers.{IsSound, create_user-db, register_handle-Preserves}
use gorder.Concurrent.{Written}
use gorder.Concurrent.Requests.{
  written, user_order_thread, order_page_thread, Request, any_order, user_order, order_page,
  register, other, thread_of,
}
use gorder.Concurrent.Lookups.{IsAnswer, LeavesOrders, KeepsOrders, SafeRequest}
use gorder.Concurrent.Rely.{Safe-map, Safe-when}
use gorder.Concurrent.Anyone.{SafeAnyway, any_order_anyway, user_order_anyway, order_page_anyway}
use gorder.Concurrent.Orders.{any_order-Safe, user_order-Safe, order_page-Safe}

module _ (d : Driver) (laws : DriverLaws d) (capacity : ℕ) where
  abbrev pub Sound : App d.Db → Type 0
  Sound = IsSound d laws capacity

  -- A registration leaves the orders alone.
  register_handle-LeavesOrders :
      (j : Jwt) (b : Bcrypt) (secret : String) (body : Result String LoginRequest) (ctx : Ctx)
      (s : App d.Db)
      → LeavesOrders d laws capacity s
          (state_of (register_handle (repository d) j b secret body ctx s))
  unfolding register_handle
  register_handle-LeavesOrders j b secret (err e) ctx s = refl
  register_handle-LeavesOrders j b secret (ok req) ctx s =
      elim (register_handle-cases (repository d) j b secret req ctx s) [
        | inl (code, message, e) ↦
            subst (λ out. LeavesOrders d laws capacity s (state_of out)) (sym e) refl
        | inr (hash, user, _, _, _, _, left, _) ↦
            subst (LeavesOrders d laws capacity s) (sym left) (
              subst (λ db. d.tables db ≡ record (d.tables s.db) { users = (d.tables db).users })
                (sym (create_user-db d laws capacity user s.db)) (laws.exec_user_lem _ s.db))
      ]

  module _ (j : Jwt) (b : Bcrypt) (secret : String) where
    abbrev pub Req : Type 0
    Req = Request (repository d) j b secret

    -- A request for orders has passed the guards, with texts for its role and its username.
    abbrev pub IsAdmitted : Req → Type 0
    IsAdmitted (any_order ctx) =
        (role name : String) × IsSignedIn (repository d) capacity ctx role name
    IsAdmitted (user_order ctx) =
        (role name : String) × IsSignedIn (repository d) capacity ctx role name
    IsAdmitted (order_page ctx) =
        (role name : String) × IsSignedIn (repository d) capacity ctx role name
    IsAdmitted (register body ctx) = Unit
    IsAdmitted (other h silent ctx) = Unit

    -- What the handler writes in some sound state.
    abbrev pub WrittenBy : Handler (App d.Db) → Ctx → Written → Type 0
    WrittenBy h ctx out = (s : App d.Db) × Sound s × (out ≡ written (h ctx s))

    -- How a request may end: a request for an order with one reply, and an order that it gets is the
    -- one that was asked for, and the user's own, but for the API of the admins and an admin's page.
    abbrev pub IsAnswered : Req → Written → Type 0
    IsAnswered (any_order ctx) out = IsAnswer api (λ o. o.order_uid ≡ ctx.uid) out
    IsAnswered (user_order ctx) out =
        (name : String) × (lookup "username" ctx.values ≡ some (str name))
        × IsAnswer api (λ o. (o.customer_id ≡ name) × (o.order_uid ≡ ctx.uid)) out
    IsAnswered (order_page ctx) out =
        (role name : String) × (lookup "role" ctx.values ≡ some (str role))
        × (lookup "username" ctx.values ≡ some (str name))
        × IsAnswer (page "order.html")
            (λ o. ((role ≡ "admin") ⊎ (o.customer_id ≡ name)) × (o.order_uid ≡ ctx.uid)) out
    IsAnswered (register body ctx) out =
        WrittenBy (register_handle (repository d) j b secret body) ctx out
    IsAnswered (other h silent ctx) out = WrittenBy h ctx out

    thread_of-Safe :
        (q : Req) (s : App d.Db)
        → IsAdmitted q
        → SafeRequest d laws capacity (IsAnswered q) (thread_of (repository d) j b secret q) s
    thread_of-Safe (any_order ctx) s (role, name, who) =
        any_order-Safe d laws capacity ctx role name who s
    thread_of-Safe (user_order ctx) s (role, name, who) =
        Safe-map Sound (KeepsOrders d laws capacity) (LeavesOrders d laws capacity)
          (λ _. IsAnswer api (λ o. (o.customer_id ≡ name) × (o.order_uid ≡ ctx.uid)))
          (λ _. IsAnswered (user_order ctx)) (λ _ out a. (name, who.username, a))
          (user_order_thread (repository d) ctx) s
          (user_order-Safe d laws capacity ctx role name who s)
    thread_of-Safe (order_page ctx) s (role, name, who) =
        Safe-map Sound (KeepsOrders d laws capacity) (LeavesOrders d laws capacity)
          (λ _.
            IsAnswer (page "order.html")
              (λ o. ((role ≡ "admin") ⊎ (o.customer_id ≡ name)) × (o.order_uid ≡ ctx.uid)))
          (λ _. IsAnswered (order_page ctx))
          (λ _ out a. (role, name, who.role_lem, who.username, a))
          (order_page_thread (repository d) ctx) s
          (order_page-Safe d laws capacity ctx role name who s)
    thread_of-Safe (register body ctx) s _ = λ s' later sound. (
      register_handle-Preserves d laws capacity j b secret body ctx s' sound,
      register_handle-LeavesOrders j b secret body ctx s',
      (s', sound, refl),
    )
    thread_of-Safe (other h silent ctx) s _ = λ s' later sound. (
      subst Sound (sym (silent ctx s')) sound,
      subst (LeavesOrders d laws capacity s') (sym (silent ctx s')) refl,
      (s', sound, refl),
    )

    -- What is known of the end of any request: that of an admitted one.
    abbrev pub Ends : Req → Written → Type 0
    Ends q out = IsAdmitted q → IsAnswered q out

    thread_of_anyway :
        (q : Req) (s : App d.Db)
        → SafeAnyway d laws capacity (thread_of (repository d) j b secret q) s
    thread_of_anyway (any_order ctx) s = any_order_anyway d laws capacity ctx s
    thread_of_anyway (user_order ctx) s = user_order_anyway d laws capacity ctx s
    thread_of_anyway (order_page ctx) s = order_page_anyway d laws capacity ctx s
    thread_of_anyway (register body ctx) s = λ s' later sound.
        let (kept, left, _) = thread_of-Safe (register body ctx) s tt s' later sound in
        (kept, left, tt)
    thread_of_anyway (other h silent ctx) s = λ s' later sound.
        let (kept, left, _) = thread_of-Safe (other h silent ctx) s tt s' later sound in
        (kept, left, tt)

    pub thread_of-SafeRequest :
        (q : Req) (s : App d.Db)
        → SafeRequest d laws capacity (Ends q) (thread_of (repository d) j b secret q) s
    thread_of-SafeRequest q s =
        Safe-when Sound (KeepsOrders d laws capacity) (LeavesOrders d laws capacity)
          (λ _. IsAnswered q) (IsAdmitted q) (thread_of (repository d) j b secret q) s
          (thread_of_anyway q s) (thread_of-Safe q s)
