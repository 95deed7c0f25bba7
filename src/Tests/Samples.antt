-- ===== src/Tests/Samples.antt =====
-- Concrete instances for the tests: two orders, a database in memory, tokens that are their own
-- secret, and a request.
use gorder.Prelude.{
  String, ◌≡◌, refl, sym, ap, Option, none, some, List, [], ◌∷◌, Bool, true, false, if◌then◌else◌,
  str_eq, arith, In, inl, inr, Bool-cases, subst,
}
use mathlib.Core.List.{Perm}
use mathlib.Core.List.Perm
use text.Mathlib.TextEquality.{eq_iff}
use gorder.Prelude.Result.{Result, ok, err, Status, done}
use gorder.Models.{Order}
use gorder.Http.{str, Ctx}
use gorder.Cache.{new_cache}
use gorder.Cache.Trace.{Fits, new_cache-Refines}
use gorder.Repository.Tables.{Tables, apply, OrderRow, exists_query, orders_with}
use gorder.Repository.Driver.{Driver, DriverLaws, DbError, no_rows, other}
use gorder.Repository.RoundTrip.{added}
use gorder.Middleware.Jwt.{Jwt, JwtLaws, Method, hmac, Token, Claims}
use gorder.Handler.Orders.{App}
use gorder.Handler.Session.{Bcrypt, token_claims}
use gorder.Consumer.{Codec}

abbrev pub order_of : String → String → Order
order_of uid customer = record {
  order_uid = uid;
  track_number = "TRACK";
  entry = "WBIL";
  locale = "en";
  internal_signature = "";
  customer_id = customer;
  delivery_service = "meest";
  shard_key = "9";
  smid = 99;
  date_created = 1000;
  oof_shard = "1";
  delivery = record {
    order_uid = uid;
    name = "Test";
    phone = "+9720000000";
    zip = "2639809";
    city = "Kiryat Mozkin";
    address = "Ploshad Mira 15";
    region = "Kraiot";
    email = "test@gmail.com";
  };
  payment = record {
    order_uid = uid;
    transaction = uid;
    request_id = "";
    currency = "USD";
    provider = "wbpay";
    amount = 1817;
    payment_dt = 1637907727;
    bank = "alpha";
    delivery_cost = 1500;
    goods_total = 317;
    custom_fee = 0;
  };
  items =
      record {
        id = 1;
        order_uid = uid;
        chrt_id = 9934930;
        track_number = "TRACK";
        price = 453;
        rid = "ab4219087a764ae0btest";
        name = "Mascaras";
        sale = 30;
        size = "0";
        total_price = 317;
        nm_id = 2389212;
        brand = "Vivienne Sabo";
        status = 202;
      }
      ∷ [];
}

abbrev pub alice_order : Order
alice_order = order_of "a1" "alice"

abbrev pub bob_order : Order
bob_order = order_of "b1" "bob"

abbrev pub empty_tables : Tables
empty_tables = record { orders = []; delivery = []; payment = []; item = []; users = [] }

abbrev pub stocked : Tables
stocked = added bob_order empty_tables

abbrev pub first : {A : Type 0} → List A → Result DbError A
first [] = err no_rows
first (row ∷ rows) = ok row

-- A transaction is the tables that it has written.
abbrev pub memory : Driver
memory = record {
  Db = Tables;
  Tx = Tables;
  tables = λ t. t;
  pending = λ t. t;
  ping = λ _. done;
  begin = ok;
  exec = λ s t. (apply s t, done);
  commit = λ tx db. (tx, done);
  rollback = λ tx db. (db, done);
  exec_user = λ user t. (record t { users = (1, user) ∷ t.users }, done);
  query = λ q t. ok (q t, done);
  query_recent = λ n t. err (other "not here");
  query_row = λ q t. first (q t);
}

first-ok : {A : Type 0} (rows : List A) (row : A) → first rows ≡ ok row → In row rows
first-ok [] row e = absurd (ground arith)
first-ok (x ∷ rows) row e = inl cc

pub exists_query-first :
    (uid : String) (t : Tables) → (b : Bool) × (first (exists_query uid t) ≡ ok b)
unfolding exists_query
exists_query-first uid t = go (orders_with uid t.orders) refl
  where
    go :
        (rows : List OrderRow)
        → orders_with uid t.orders ≡ rows
        → (b : Bool) × (first (exists_query uid t) ≡ ok b)
    go [] e = (false, rw (exists_query, e))
    go (x ∷ xs) e = (true, rw (exists_query, e))

first-none : {A : Type 0} (rows : List A) → first rows ≡ err no_rows → rows ≡ []
first-none [] e = refl
first-none (x ∷ rows) e = absurd (ground arith)

rows_of :
    {A : Type 0} {xs ys : List A}
    → ◌≡◌ {A = Result DbError (List A × Status DbError)} (ok (xs, done)) (ok (ys, done))
    → xs ≡ ys
rows_of e = cc

pub memory_laws : DriverLaws memory
memory_laws = record {
  begin_lem = λ db tx e. cc;
  exec_lem = λ s tx _. refl;
  commit_lem = λ tx db _. refl;
  commit_failed = λ tx db x e. absurd (ground arith);
  rollback_lem = λ tx db. refl;
  exec_user_lem = λ user db. refl;
  query_lem = λ q db rows e. subst (λ xs. Perm rows xs) (sym (rows_of e)) (Perm.refl rows);
  query_row_lem = λ q db row e. first-ok (q db) row e;
  query_row_none = λ q db e. first-none (q db) e;
  query_recent_lem = λ n db uids e. absurd (ground arith);
}

-- The secret itself is the only token.
abbrev pub admin_claims : Claims
admin_claims = token_claims "1" "alice" "admin" "access" 900 0

abbrev pub read_token : Option String → String → Result String Token
read_token none token = err "signature is invalid"
read_token (some k) token =
    if str_eq token k
    then ok (record { valid = true; claims = some admin_claims })
    else err "token is malformed"

abbrev pub plain_jwt : Jwt
plain_jwt = record {
  parse = λ key token now. read_token (key hmac) token;
  sign = λ claims key. ok key;
  Signed = λ m k token claims. (m ≡ hmac) × (token ≡ k) × (claims ≡ admin_claims);
}

pub plain_jwt_laws : JwtLaws plain_jwt
plain_jwt_laws = record {
  parse_lem = λ key token now t claims p v c. go key token t claims (key hmac) refl p c;
}
  where
    read :
        (k token : String) (t : Token) (claims : Claims)
        → read_token (some k) token ≡ ok t
        → t.claims ≡ some claims
        → (token ≡ k) × (claims ≡ admin_claims)
    read k token t claims p c = elim (Bool-cases (str_eq token k)) [
      | inr e ↦ absurd (ground arith)
      | inl e ↦
          let whole : ◌≡◌ {A = Token} (record { valid = true; claims = some admin_claims }) t =
            ground arith in
          let same : some admin_claims ≡ t.claims = ap (λ (x : Token). x.claims) whole in
          ((eq_iff token k).0 e, cc)
    ]

    go :
        (key : Method → Option String) (token : String) (t : Token) (claims : Claims)
        (k : Option String)
        → key hmac ≡ k
        → read_token (key hmac) token ≡ ok t
        → t.claims ≡ some claims
        → (m : Method) × (k' : String) × (key m ≡ some k')
          × ((m ≡ hmac) × (token ≡ k') × (claims ≡ admin_claims))
    go key token t claims none e p c = absurd (ground arith)
    go key token t claims (some k) e p c =
        let known : read_token (some k) token ≡ ok t = subst (λ x. read_token x token ≡ ok t) e p in
        let (same, named) = read k token t claims known c in (hmac, k, e, (refl, same, named))

abbrev pub plain_bcrypt : Bcrypt
plain_bcrypt = record { compare = str_eq; generate = ok }

abbrev pub plain_codec : Codec
plain_codec = record {
  unmarshal = λ msg. if str_eq msg "a1" then ok alice_order else err "unexpected end of JSON input";
  validate = λ _. done;
}

-- The token stands in the cookie.
abbrev pub request : Ctx
request = record {
  header = λ _. "";
  cookie = λ _. some "secret";
  uid = "b1";
  client_ip = "10.0.0.1";
  values = ("user_id", str "1") ∷ ("username", str "alice") ∷ ("role", str "admin") ∷ [];
  now = 100;
}

abbrev pub app : App Tables
app = record { db = stocked; cache = new_cache 2 none }

pub app-Fits : Fits 2 (new_cache 2 none) []
app-Fits = record { refines = new_cache-Refines 2 none tt; limit = refl; room = omega arith }
