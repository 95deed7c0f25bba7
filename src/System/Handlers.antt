-- ===== src/System/Handlers.antt =====
-- The invariant of the service's state, and that each handler over the repository preserves it.
use gorder.Prelude.{ℕ, String, ◌≡◌, refl, sym, ap, ◌∙◌, subst, List, All, inl, inr}
use gorder.Prelude.Result.{Result, ok, err, Status-cases}
use gorder.Models.{Order, User}
use gorder.Http.{Handler, state_of}
use gorder.Cache.Trace.{Fits}
use gorder.Repository.Driver.{Driver, DriverLaws}
use gorder.Repository.Tables.{Tables, UserRow}
use gorder.Repository.Insert.{create_user}
use gorder.Repository.Unique.{IsConsistent}
use gorder.Repository.Interface.{repository}
use gorder.Handler.Orders.{App, get_order_by_uid_handle, get_user_order_by_uid_handle}
use gorder.Handler.Pages.{order_page_handle}
use gorder.Handler.Session.{Bcrypt, LoginRequest, register_handle}
use gorder.Handler.Tokens.{register_handle-cases}
use gorder.Handler.Silent.{IsSilent}
use gorder.Middleware.Jwt.{Jwt}
use gorder.Consumer.Coherence.{Backed, All-map}
use gorder.Coherence.{
  Coherent, get_order_by_uid_handle-Keeps, get_user_order_by_uid_handle-Keeps,
  order_page_handle-Keeps,
}
use gorder.Router.Preserves.{Preserves}

module _ (d : Driver) (laws : DriverLaws d) (capacity : ℕ) where
  -- The cache stands for a list of orders within its capacity, each of them has its row in the orders
  -- table with its customer, and the tables have no UID twice and no part without its order.
  pub record IsSound (s : App d.Db) : Type 0 where
    pub orders : List Order
    pub fits : Fits capacity s.cache orders
    pub backed : All (Backed (d.tables s.db)) orders
    pub consistent : IsConsistent (d.tables s.db)

  pub silent-Preserves : (h : Handler (App d.Db)) → IsSilent h → Preserves IsSound h
  silent-Preserves h k ctx s sound = subst IsSound (sym (k ctx s)) sound

  Keeps-IsSound :
      (h : Handler (App d.Db))
      → ((s : App d.Db) (ctx : _) (os : List Order) (fits : Fits capacity s.cache os)
            (all : All (Backed (d.tables s.db)) os)
          → Coherent d laws capacity ctx s os fits all (h ctx s))
      → Preserves IsSound h
  Keeps-IsSound h k ctx s sound =
      let kept = k s ctx sound.orders sound.fits sound.backed in
      subst IsSound (sym kept.left) (record {
        orders = kept.orders;
        fits = kept.fits;
        backed = kept.kept;
        consistent = sound.consistent;
      })

  pub get_order_by_uid_handle-Preserves : Preserves IsSound (get_order_by_uid_handle (repository d))
  get_order_by_uid_handle-Preserves =
      Keeps-IsSound _
        (λ s ctx os fits all. get_order_by_uid_handle-Keeps d laws capacity ctx s os fits all)

  pub get_user_order_by_uid_handle-Preserves :
      Preserves IsSound (get_user_order_by_uid_handle (repository d))
  get_user_order_by_uid_handle-Preserves =
      Keeps-IsSound _
        (λ s ctx os fits all. get_user_order_by_uid_handle-Keeps d laws capacity ctx s os fits all)

  pub order_page_handle-Preserves : Preserves IsSound (order_page_handle (repository d))
  order_page_handle-Preserves =
      Keeps-IsSound _
        (λ s ctx os fits all. order_page_handle-Keeps d laws capacity ctx s os fits all)

  -- A change of the users leaves the orders alone.
  users-IsSound :
      (s : App d.Db) (db : d.Db) (rows : List (ℕ × UserRow))
      → IsSound s
      → d.tables db ≡ record (d.tables s.db) { users = rows }
      → IsSound (record s { db = db })
  users-IsSound s db rows sound e =
      let t : Tables = record (d.tables s.db) { users = rows } in
      let backed : All (Backed t) sound.orders =
        All-map (Backed (d.tables s.db)) (Backed t)
          (λ o h. record {
            row = h.row;
            listed = h.listed;
            uid_lem = h.uid_lem;
            customer_lem = h.customer_lem;
          })
          sound.orders sound.backed in
      let consistent : IsConsistent t = record {
        distinct = sound.consistent.distinct;
        owned = λ uid absent.
            let fresh = sound.consistent.owned uid absent in
            record {
              no_order = fresh.no_order;
              no_delivery = fresh.no_delivery;
              no_payment = fresh.no_payment;
              no_item = fresh.no_item;
            };
      } in
      record {
        orders = sound.orders;
        fits = sound.fits;
        backed = subst (λ x. All (Backed x) sound.orders) (sym e) backed;
        consistent = subst IsConsistent (sym e) consistent;
      }

  pub create_user-db :
      (user : User) (db : d.Db)
      → (create_user d user db).0
        ≡ (d.exec_user
            (record {
              username = user.username;
              password_hash = user.password_hash;
              role = user.role;
            })
            db).0
  unfolding create_user
  create_user-db user db =
      let row : UserRow = record {
        username = user.username;
        password_hash = user.password_hash;
        role = user.role;
      } in
      elim (Status-cases (d.exec_user row db).1) [
        | inl e ↦ rw (create_user, e) refl
        | inr (x, e) ↦ rw (create_user, e) refl
      ]

  pub register_handle-Preserves :
      (j : Jwt) (b : Bcrypt) (secret : String) (body : Result String LoginRequest)
      → Preserves IsSound (register_handle (repository d) j b secret body)
  unfolding register_handle
  register_handle-Preserves j b secret (err e) ctx s sound = sound
  register_handle-Preserves j b secret (ok req) ctx s sound =
      elim (register_handle-cases (repository d) j b secret req ctx s) [
        | inl (code, message, e) ↦ subst (λ out. IsSound (state_of out)) (sym e) sound
        | inr (hash, user, _, _, _, _, left, _) ↦
            let inserted = create_user-db user s.db in
            subst IsSound (sym left) (
              users-IsSound s (create_user d user s.db).0 _ sound
                (ap d.tables inserted ∙ laws.exec_user_lem _ s.db))
      ]
