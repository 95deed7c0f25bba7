-- ===== src/Repository/Interface.antt =====
-- `repository.Interface`: what the consumer and the handlers use of the storage, over the type of
-- its states; and that the repository over a driver offers it.
use gorder.Prelude.{ℕ, String, List, Bool, ◌≡◌}
use gorder.Prelude.Result.{Result, ok, Status}
use gorder.Models.{Order, User}
use gorder.Repository.Driver.{Driver, DriverLaws, DbError}
use gorder.Repository.Errors.{RepoError}
use gorder.Repository.Ownership.{get_order_by_uid-IsStored, get_order_by_uid_and_user-IsStored}
use gorder.Repository.Insert.{order_exists, add_order, add_order_if_not_exists, create_user}
use gorder.Repository.Select.{
  get_order_by_uid, get_order_by_uid_and_user, get_all_orders_uid, get_all_orders_uid_by_user,
  get_recent_orders_uid, get_user,
}

pub record Interface (Db : Type 0) : Type 0 where
  pub check_health_db : Db → Status DbError
  pub get_order_by_uid : String → Db → Result RepoError Order
  pub get_order_by_uid_and_user : String → String → Db → Result RepoError Order
  pub get_all_orders_uid : Db → Result RepoError (List String)
  pub get_all_orders_uid_by_user : String → Db → Result RepoError (List String)
  pub get_recent_orders_uid : ℕ → Db → Result RepoError (List String)
  pub order_exists : String → Db → Result RepoError Bool
  pub add_order : Order → Db → Db × Status RepoError
  pub add_order_if_not_exists : Order → Db → Db × Status RepoError
  pub create_user : User → Db → Db × Status RepoError
  pub get_user : String → Db → Result RepoError User

-- What a reader may rely on: an order that is returned has the UID that was asked for, and one
-- that is asked for by a user belongs to the user.
pub record ReadLaws {Db : Type 0} (r : Interface Db) : Type 0 where
  pub uid_lem :
      (uid : String) (db : Db) (o : Order) → r.get_order_by_uid uid db ≡ ok o → o.order_uid ≡ uid
  pub user_lem :
      (uid user : String) (db : Db) (o : Order)
      → r.get_order_by_uid_and_user uid user db ≡ ok o
      → (o.customer_id ≡ user) × (o.order_uid ≡ uid)

abbrev pub repository : (d : Driver) → Interface d.Db
repository d = record {
  check_health_db = d.ping;
  get_order_by_uid = get_order_by_uid d;
  get_order_by_uid_and_user = get_order_by_uid_and_user d;
  get_all_orders_uid = get_all_orders_uid d;
  get_all_orders_uid_by_user = get_all_orders_uid_by_user d;
  get_recent_orders_uid = get_recent_orders_uid d;
  order_exists = order_exists d;
  add_order = add_order d;
  add_order_if_not_exists = add_order_if_not_exists d;
  create_user = create_user d;
  get_user = get_user d;
}

pub repository-ReadLaws : (d : Driver) → DriverLaws d → ReadLaws (repository d)
repository-ReadLaws d laws = record {
  uid_lem = λ uid db o e. (get_order_by_uid-IsStored d laws uid db o e).0;
  user_lem = λ uid user db o e.
      let (owned, named, _) = get_order_by_uid_and_user-IsStored d laws uid user db o e in
      (owned, named);
}
