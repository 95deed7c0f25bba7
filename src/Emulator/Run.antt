-- ===== src/Emulator/Run.antt =====
-- `run` of cmd/emulator/emulator.go: ten random orders and the five of testdata/, sent one by one.
-- kafka-go's writer, encoding/json and the files are parameters; log lines and sleeps are left out.
use Prim.Native.String
use gorder.Prelude.{
  ℕ, zero, suc, ◌≤◌, ◌≡◌, refl, String, List, [], ◌∷◌, ◌++◌, length, length-append, ap, arith, inl,
  inr, if◌then◌else◌, str_eq, split_commas,
}
use gorder.Prelude.Decimal.{itoa}
use gorder.Prelude.Result.{Result, ok, err, Result-cases, Status, done, failed, Status-cases}
use gorder.Models.{Order}
use gorder.Emulator.{Rand, Moment, generate_random_order}

-- a message's key and value
abbrev pub Message : Type 0
Message = String × String

pub record Kafka : Type 1 where
  pub Writer : Type 0
  -- the brokers and the topic
  pub new_writer : List String → String → Writer
  pub write_messages : Message → Writer → Writer × Status String
  pub close : Writer → Writer × Status String

abbrev pub brokers_of : String → List String
brokers_of env = split_commas (if str_eq env "" then "kafka:9092" else env)

abbrev pub filename : ℕ → String
filename i = String.◌++◌ "testdata/order" (String.◌++◌ (itoa i) ".json")

module _ (k : Kafka) (marshal : Order → Result String String) where
  -- The end of a loop's body: an order that cannot be marshalled is passed over, and an error of the
  -- writer returns.
  unfoldable pub send :
      Order → (k.Writer → k.Writer × Status String) → k.Writer → k.Writer × Status String
  send order next w = elim (marshal order) [
    | err _ ↦ next w
    | ok value ↦
        let (w', status) = k.write_messages (order.order_uid, value) w in
        elim status [ failed e ↦ (w', failed e) | done ↦ next w' ]
  ]

  -- `for i := 0; i < 10; i++`, by the turns that are left; `clock` gives each turn its time
  unfoldable pub send_random :
      (rand : Rand)
      → (ℕ → Moment)
      → ℕ
      → rand.Seed
      → (k.Writer → k.Writer × Status String)
      → k.Writer
      → k.Writer × Status String
  send_random rand clock zero seed next = next
  send_random rand clock (suc turns) seed next =
      let (order, seed') = generate_random_order rand (clock turns) seed in
      send order (send_random rand clock turns seed' next)

  -- `for i := 1; i < 6; i++`, from `i` on
  unfoldable pub send_files :
      (String → Result String Order) → ℕ → ℕ → k.Writer → k.Writer × Status String
  send_files load i zero w = (w, done)
  send_files load i (suc turns) w =
      let rest = send_files load (suc i) turns in
      elim (load (filename i)) [ err _ ↦ rest w | ok order ↦ send order rest w ]

  -- The deferred `Close` runs last; its error is only logged.
  unfoldable pub run :
      (rand : Rand)
      → (ℕ → Moment)
      → (String → Result String Order)
      → String
      → rand.Seed
      → k.Writer × Status String
  run rand clock load env seed =
      let (w, status) =
        send_random rand clock 10 seed (send_files load 1 5)
          (k.new_writer (brokers_of env) "wbl0_orders") in
      ((k.close w).0, status)

  -- The description: messages are written until one fails.
  unfoldable pub write_all : List Message → k.Writer → k.Writer × Status String
  write_all [] w = (w, done)
  write_all (message ∷ messages) w =
      let (w', status) = k.write_messages message w in
      elim status [ failed e ↦ (w', failed e) | done ↦ write_all messages w' ]

  unfoldable pub messages_of : List Order → List Message
  messages_of [] = []
  messages_of (order ∷ orders) =
      let rest = messages_of orders in
      elim (marshal order) [ err _ ↦ rest | ok value ↦ (order.order_uid, value) ∷ rest ]

  abbrev Writes : (k.Writer → k.Writer × Status String) → List Order → Type 0
  Writes f orders = (w : k.Writer) → f w ≡ write_all (messages_of orders) w

  send-Writes :
      (order : Order) (next : k.Writer → k.Writer × Status String) (orders : List Order)
      → Writes next orders
      → Writes (send order next) (order ∷ orders)
  unfolding send write_all messages_of
  send-Writes order next orders h w = elim (Result-cases (marshal order)) [
    | inr (e, p) ↦ rw (send, messages_of, p) (h w)
    | inl (value, p) ↦ elim (Status-cases (k.write_messages (order.order_uid, value) w).1) [
      | inl q ↦ rw (send, messages_of, p, write_all, q) (h _)
      | inr (e, q) ↦ rw (send, messages_of, p, write_all, q) refl
    ]
  ]

-- the orders of the two loops
unfoldable pub random_orders : (rand : Rand) → (ℕ → Moment) → ℕ → rand.Seed → List Order
random_orders rand clock zero seed = []
random_orders rand clock (suc turns) seed =
    let (order, seed') = generate_random_order rand (clock turns) seed in
    order ∷ random_orders rand clock turns seed'

unfoldable pub file_orders : (String → Result String Order) → ℕ → ℕ → List Order
file_orders load i zero = []
file_orders load i (suc turns) =
    let rest = file_orders load (suc i) turns in
    elim (load (filename i)) [ err _ ↦ rest | ok order ↦ order ∷ rest ]

length-random_orders :
    (rand : Rand) (clock : ℕ → Moment) (turns : ℕ) (seed : rand.Seed)
    → length (random_orders rand clock turns seed) ≡ turns
unfolding random_orders
length-random_orders rand clock zero seed = refl
length-random_orders rand clock (suc turns) seed = ap suc (length-random_orders rand clock turns _)

length-file_orders :
    (load : String → Result String Order) (i turns : ℕ) → length (file_orders load i turns) ≤ turns
unfolding file_orders
length-file_orders load i zero = omega arith
length-file_orders load i (suc turns) = ground (arith, length-file_orders load (suc i) turns)

module _ (k : Kafka) (marshal : Order → Result String String) where
  send_random-Writes :
      (rand : Rand) (clock : ℕ → Moment) (turns : ℕ) (seed : rand.Seed)
      (next : k.Writer → k.Writer × Status String) (orders : List Order)
      → Writes k marshal next orders
      → Writes k marshal
          (send_random k marshal rand clock turns seed next)
          (random_orders rand clock turns seed ++ orders)
  unfolding send_random random_orders
  send_random-Writes rand clock zero seed next orders h = h
  send_random-Writes rand clock (suc turns) seed next orders h =
      send-Writes k marshal _ _ _ (send_random-Writes rand clock turns _ next orders h)

  send_files-Writes :
      (load : String → Result String Order) (i turns : ℕ)
      → Writes k marshal (send_files k marshal load i turns) (file_orders load i turns)
  unfolding send_files file_orders write_all messages_of
  send_files-Writes load i zero w = refl
  send_files-Writes load i (suc turns) w = elim (Result-cases (load (filename i))) [
    | inr (e, p) ↦ rw (send_files, file_orders, p) (send_files-Writes load (suc i) turns w)
    | inl (order, p) ↦
        rw (send_files, file_orders, p)
          (send-Writes k marshal order _ _ (send_files-Writes load (suc i) turns) w)
  ]

  length-messages_of : (orders : List Order) → length (messages_of k marshal orders) ≤ length orders
  unfolding messages_of
  length-messages_of [] = omega arith
  length-messages_of (order ∷ orders) = ground (arith, length-messages_of orders)

  -- What `run` does with the broker: it opens a writer to KAFKA_BROKERS, or to kafka:9092 where that
  -- is empty, and writes the marshalled orders, ten random ones and those of the five files that can
  -- be loaded, in this order and until a write fails; then it closes the writer, and it returns the
  -- error of the write. They are fifteen at most.
  pub run-write_all :
      (rand : Rand) (clock : ℕ → Moment) (load : String → Result String Order) (env : String)
      (seed : rand.Seed)
      → let messages =
          messages_of k marshal (random_orders rand clock 10 seed ++ file_orders load 1 5) in
        let sent = write_all k marshal messages (k.new_writer (brokers_of env) "wbl0_orders") in
        (run k marshal rand clock load env seed ≡ ((k.close sent.0).0, sent.1))
        × (length messages ≤ 15)
  unfolding run
  run-write_all rand clock load env seed =
      let random = random_orders rand clock 10 seed in
      let files = file_orders load 1 5 in
      (
        ap (λ (sent : k.Writer × Status String). ((k.close sent.0).0, sent.1))
            (send_random-Writes rand clock 10 seed _ files (send_files-Writes load 1 5) _),
        omega (
          arith,
          length-messages_of (random ++ files),
          length-append random files,
          length-random_orders rand clock 10 seed,
          length-file_orders load 1 5,
        ),
      )
