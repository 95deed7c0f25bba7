-- ===== src/Consumer/Health.antt =====
-- `CheckHealth` of internal/consumer/consumer.go, over `kafka.DialContext`.
use Prim.Native.Char.{code}
use gorder.Prelude.{
  String, ◌≡◌, refl, Option, none, some, List, [], ◌∷◌, Bool-cases, ◌==◌, inl, inr, split_commas,
}
use gorder.Prelude.Result.{Status}

-- The first broker of the list; `none` is an index out of range.
abbrev pub check_health : (String → Status String) → String → Option (Status String)
check_health dial kafka_brokers = elim (split_commas kafka_brokers) [
  | [] ↦ none
  | broker ∷ _ ↦ some (dial broker)
]

split_commas-cons :
    (s : String) → (broker : String) × (rest : List String) × (split_commas s ≡ broker ∷ rest)
unfolding split_commas
split_commas-cons String.[] = ("", [], refl)
split_commas-cons (String.◌∷◌ c s) = elim (Bool-cases (code c == 44)) [
  | inl e ↦ ("", split_commas s, rw (split_commas, e) refl)
  | inr e ↦
      let (broker, rest, p) = split_commas-cons s in
      (String.◌∷◌ c broker, rest, rw (split_commas, e, p) refl)
]

-- `CheckHealth` dials a broker, whatever the setting is, and never indexes out of range.
pub check_health-total :
    (dial : String → Status String) (kafka_brokers : String)
    → (broker : String) × (check_health dial kafka_brokers ≡ some (dial broker))
check_health-total dial kafka_brokers =
    let (broker, rest, e) = split_commas-cons kafka_brokers in (broker, rw (check_health, e) refl)
