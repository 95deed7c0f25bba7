-- ===== src/Concurrent/Steps.antt =====
-- How many steps the threads have: that of a request of internal/handler/handler.go, and that of the
-- consumer of internal/consumer/consumer.go.
use gorder.Prelude.{
  ℕ, suc, ◌*◌, String, List, [], ◌∷◌, length, arith, none, some, Option, Bool, true, false, str_eq,
  Bool-cases, Option-cases, inl, inr,
}
use gorder.Prelude.Dict.{lookup}
use gorder.Prelude.Result.{Result, ok, err, Status, done, failed, Result-cases}
use gorder.Models.{Order}
use gorder.Http.{Claim, Ctx}
use gorder.Middleware.Jwt.{Jwt}
use gorder.Repository.Errors.{RepoError, is_no_rows}
use gorder.Consumer.{ReadError, Codec, process_message, is_stop}
use gorder.Repository.Driver.{Driver}
use gorder.Repository.Insert.{order_exists}
use gorder.Repository.Interface.{Interface}
use gorder.Handler.Orders.{App, View, api, page, as_string}
use gorder.Handler.Session.{Bcrypt}
use gorder.Concurrent.{Thread, Written, Ending}
use gorder.Concurrent.Requests.{
  kept, looked, found_by, answering, hit_for, looking, reading, reading_for, reading_by_role,
  any_order_thread, user_order_thread, order_page_thread, Request, any_order, user_order,
  order_page, register, other, thread_of,
}
use gorder.Concurrent.Messages.{kept_order, adding, saving, consuming_thread}
use gorder.Concurrent.Turns.{Within, Within-more}

module _ {Db : Type 0} (r : Interface Db) where
  answering-Within :
      (view : View) (missing : String) (result : Result RepoError Order) (n : ℕ)
      → Within (answering {Db = Db} view missing result) (suc n)
  unfolding answering
  answering-Within view missing (ok o) n =
      λ s. elim (Bool-cases ((kept o s).1)) [ inl p ↦ rw p tt | inr p ↦ rw p tt ]
  answering-Within view missing (err e) n = elim (Bool-cases (is_no_rows e)) [
    | inl p ↦ rw (answering, p) tt
    | inr p ↦ rw (answering, p) tt
  ]

  hit_for-Within :
      (view : View) (username : Option Claim) (o : Order) (n : ℕ)
      → Within (hit_for {Db = Db} view username o) n
  unfolding hit_for
  hit_for-Within view username o n = elim (Option-cases (as_string username)) [
    | inl e ↦ rw (hit_for, e) tt
    | inr (name, e) ↦ elim (Bool-cases (str_eq o.customer_id name)) [
      | inl p ↦ rw (hit_for, e, p) tt
      | inr p ↦ rw (hit_for, e, p) tt
    ]
  ]

  reading-Within :
      (view : View) (missing uid : String) (n : ℕ)
      → Within (reading r view missing uid) (suc (suc n))
  unfolding reading
  reading-Within view missing uid n s =
      answering-Within view missing (r.get_order_by_uid uid s.db) n

  reading_for-Within :
      (view : View) (missing : String) (username : Option Claim) (uid : String) (n : ℕ)
      → Within (reading_for r view missing username uid) (suc (suc n))
  unfolding reading_for
  reading_for-Within view missing username uid n = elim (Option-cases (as_string username)) [
    | inl e ↦ rw (reading_for, e) tt
    | inr (name, e) ↦
        rw (reading_for, e)
          (λ s. answering-Within view missing (r.get_order_by_uid_and_user uid name s.db) n)
  ]

  reading_by_role-Within :
      (role : Claim) (username : Option Claim) (uid : String) (n : ℕ)
      → Within (reading_by_role r role username uid) (suc (suc n))
  unfolding reading_by_role
  reading_by_role-Within role username uid n = elim (Option-cases (as_string (some role))) [
    | inl e ↦ rw (reading_by_role, e) tt
    | inr (name, e) ↦ elim (Bool-cases (str_eq name "admin")) [
      | inl p ↦
          rw (reading_by_role, e, p) (reading-Within (page "order.html") "Orders not found" uid n)
      | inr p ↦
          rw (reading_by_role, e, p)
            (reading_for-Within (page "order.html") "Orders not found" username uid n)
    ]
  ]

  found-Within :
      (hit : Order → Thread (App Db) Written) (miss : Thread (App Db) Written) (n : ℕ)
      → ((o : Order) → Within (hit o) n)
      → Within miss n
      → (found : Option (Option Order × Bool)) → Within (found_by hit miss found) n
  found-Within hit miss n on_hit on_miss none = tt
  found-Within hit miss n on_hit on_miss (some (none, true)) = tt
  found-Within hit miss n on_hit on_miss (some (some o, true)) = on_hit o
  found-Within hit miss n on_hit on_miss (some (value, false)) = on_miss

  looking-Within :
      (uid : String) (hit : Order → Thread (App Db) Written) (miss : Thread (App Db) Written)
      (n : ℕ)
      → ((o : Order) → Within (hit o) n)
      → Within miss n
      → Within (looking uid hit miss) (suc n)
  looking-Within uid hit miss n on_hit on_miss s =
      found-Within hit miss n on_hit on_miss (looked uid s).1

  any_order-Within : (ctx : Ctx) → Within (any_order_thread r ctx) 3
  unfolding any_order_thread
  any_order-Within ctx = elim (Option-cases (lookup "user_id" ctx.values)) [
    | inl e ↦ rw (any_order_thread, e) tt
    | inr (id, e) ↦ elim (Bool-cases (str_eq ctx.uid "")) [
      | inl p ↦ rw (any_order_thread, e, p) tt
      | inr p ↦
          rw (any_order_thread, e, p)
            (looking-Within ctx.uid _ _ 2 (λ o. tt)
              (reading-Within api "Failed to find order" ctx.uid 0))
    ]
  ]

  user_order-Within : (ctx : Ctx) → Within (user_order_thread r ctx) 3
  unfolding user_order_thread
  user_order-Within ctx = elim (Option-cases (lookup "user_id" ctx.values)) [
    | inl e ↦ rw (user_order_thread, e) tt
    | inr (id, e) ↦ elim (Option-cases (lookup "username" ctx.values)) [
      | inl n ↦ rw (user_order_thread, e, n) tt
      | inr (name, n) ↦ elim (Bool-cases (str_eq ctx.uid "")) [
        | inl p ↦ rw (user_order_thread, e, n, p) tt
        | inr p ↦
            rw (user_order_thread, e, n, p)
              (looking-Within ctx.uid _ _ 2 (λ o. hit_for-Within api (some name) o 2)
                (reading_for-Within api "Failed to find order" (some name) ctx.uid 0))
      ]
    ]
  ]

  order_page-Within : (ctx : Ctx) → Within (order_page_thread r ctx) 3
  unfolding order_page_thread
  order_page-Within ctx =
      let username = lookup "username" ctx.values in
      elim (Option-cases (lookup "user_id" ctx.values)) [
        | inl e ↦ rw (order_page_thread, e) tt
        | inr (id, e) ↦ elim (Option-cases (lookup "role" ctx.values)) [
          | inl n ↦ rw (order_page_thread, e, n) tt
          | inr (role, n) ↦ elim (Bool-cases (str_eq ctx.uid "")) [
            | inl p ↦ rw (order_page_thread, e, n, p) tt
            | inr p ↦
                rw (order_page_thread, e, n, p)
                  (looking-Within ctx.uid _ _ 2
                    (λ o. hit_for-Within (page "order.html") username o 2)
                    (reading_by_role-Within role username ctx.uid 0))
          ]
        ]
      ]

  -- A request has three steps at most.
  pub thread_of-Within :
      (j : Jwt) (b : Bcrypt) (secret : String) (q : Request r j b secret)
      → Within (thread_of r j b secret q) 3
  thread_of-Within j b secret (any_order ctx) = any_order-Within ctx
  thread_of-Within j b secret (user_order ctx) = user_order-Within ctx
  thread_of-Within j b secret (order_page ctx) = order_page-Within ctx
  thread_of-Within j b secret (register body ctx) = λ s. tt
  thread_of-Within j b secret (other h _ ctx) = λ s. tt

module _ (d : Driver) where
  status-Within :
      (o : Order) (rest : Thread (App d.Db) Ending) (n : ℕ)
      → Within rest n
      → (status : Status RepoError)
      → Within {S = App d.Db}
          (elim status [ failed _ ↦ rest | done ↦ kept_order d o rest ])
          (suc (suc n))
  status-Within o rest n h (failed e) = Within-more rest n (suc (suc n)) (omega arith) h
  status-Within o rest n h done =
      λ s. elim (Bool-cases ((kept o s).1)) [ inl p ↦ rw p (λ _. h) | inr p ↦ rw p tt ]

  saving-Within :
      (o : Order) (rest : Thread (App d.Db) Ending) (n : ℕ)
      → Within rest n
      → Within (saving d o rest) (suc (suc (suc (suc n))))
  unfolding saving
  saving-Within o rest n h s = elim (Result-cases (order_exists d o.order_uid s.db)) [
    | inr (e, p) ↦ rw p (Within-more rest n (suc (suc (suc n))) (omega arith) h)
    | inl (true, p) ↦ rw p (Within-more rest n (suc (suc (suc n))) (omega arith) h)
    | inl (false, p) ↦ rw p (λ s'. status-Within o rest n h (adding d o s').1)
  ]

  -- The consumer has four steps for a message at most.
  pub consuming_thread-Within :
      (v : Codec) (reads : List (Result ReadError String))
      → Within (consuming_thread d v reads) (4 * length reads)
  unfolding consuming_thread
  consuming_thread-Within v [] = tt
  consuming_thread-Within v (err e ∷ reads) = elim (Bool-cases (is_stop e)) [
    | inl p ↦ rw (consuming_thread, p) tt
    | inr p ↦
        rw (consuming_thread, p)
          (Within-more _ (4 * length reads) _ (omega arith) (consuming_thread-Within v reads))
  ]
  consuming_thread-Within v (ok msg ∷ reads) =
      let rest = consuming_thread-Within v reads in
      elim (Result-cases (process_message v msg)) [
        | inr (e, p) ↦
            rw (consuming_thread, p) (Within-more _ (4 * length reads) _ (omega arith) rest)
        | inl (o, p) ↦
            rw (consuming_thread, p)
              (Within-more _ (suc (suc (suc (suc (4 * length reads))))) _ (omega arith)
                (saving-Within o _ (4 * length reads) rest))
      ]
