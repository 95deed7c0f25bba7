-- ===== src/Prelude/Decimal.antt =====
-- Numerals in base ten.
use Prim.Native.String
use text.Mathlib.TextLemmas.{length-append, length-cons}
use Prim.Native.Nat.{ℕ, zero, suc, ◌*◌, ◌/◌, ◌%◌, ◌<◌, ◌≤◌}
use mathlib.Core.Path.{◌≡◌, refl}
use mathlib.Core.Logic.{◌⊎◌, inl, inr}
use native.Mathlib.Omega.{arith}
use Prim.Native.String.{String}
use gorder.Prelude.Text.{Each, IsDigit, append-Each, char_at, char_at-Each}
use gorder.Prelude.Tests.{ltb, if◌then◌else◌, Bool-cases}

-- `strconv.Itoa` of a number that is not negative
abbrev pub digit : ℕ → String
digit n = String.◌∷◌ (char_at "0123456789" n) ""

unfoldable pub itoa_from : ℕ → ℕ → String
itoa_from zero n = ""
itoa_from (suc fuel) n =
    let rest = itoa_from fuel (n / 10) in
    if ltb n 10 then digit n else String.◌++◌ rest (digit (n % 10))

-- a number has fewer digits than its successor counts
unfoldable pub itoa : ℕ → String
itoa n = itoa_from (suc n) n

abbrev pub pow10 : ℕ → ℕ
pow10 zero = 1
pow10 (suc k) = 10 * pow10 k

-- `s` has from `low` to `high` characters, all digits.
pub record IsNumeral (low high : ℕ) (s : String) : Type 0 where
  pub digits : Each IsDigit s
  pub low_lem : low ≤ String.count s
  pub high_lem : String.count s ≤ high

digits-IsDigit : Each IsDigit "0123456789"
digits-IsDigit = ground arith

digit-IsNumeral : (n : ℕ) → n < 10 → IsNumeral 1 1 (digit n)
digit-IsNumeral n l = record {
  digits = (char_at-Each IsDigit "0123456789" n digits-IsDigit l, tt);
  low_lem = omega (arith, length-cons (char_at "0123456789" n) "");
  high_lem = omega (arith, length-cons (char_at "0123456789" n) "");
}

append-IsNumeral :
    (l h : ℕ) (s t : String)
    → IsNumeral l h s
    → IsNumeral 1 1 t
    → IsNumeral (suc l) (suc h) (String.◌++◌ s t)
append-IsNumeral l h s t a b = record {
  digits = append-Each IsDigit s t a.digits b.digits;
  low_lem = omega (arith, length-append s t, a.low_lem, b.low_lem);
  high_lem = omega (arith, length-append s t, a.high_lem, b.high_lem);
}

widen : (l h l' h' : ℕ) (s : String) → l' ≤ l → h ≤ h' → IsNumeral l h s → IsNumeral l' h' s
widen l h l' h' s p q a = record {
  digits = a.digits;
  low_lem = omega (arith, a.low_lem);
  high_lem = omega (arith, a.high_lem);
}

pow10_pos : (k : ℕ) → 1 ≤ pow10 k
pow10_pos zero = omega arith
pow10_pos (suc k) = omega (arith, pow10_pos k)

one_digit : (l n : ℕ) → (l ≡ 0) ⊎ (pow10 l ≤ n) → n < 10 → l ≡ 0
one_digit zero n _ _ = refl
one_digit (suc l) n p q = ground (arith, pow10_pos l)

-- one digit more than those of `n / 10`
append_digit :
    (n : ℕ) (s : String)
    → ((l h : ℕ)
        → (l ≡ 0) ⊎ (pow10 l ≤ n / 10)
        → n / 10 < pow10 (suc h)
        → IsNumeral (suc l) (suc h) s)
    → 10 ≤ n
    → (l h : ℕ) → (l ≡ 0) ⊎ (pow10 l ≤ n)
    → n < pow10 (suc h)
    → IsNumeral (suc l) (suc h) (String.◌++◌ s (digit (n % 10)))
append_digit n s rest ten l zero p q = absurd (omega arith)
append_digit n s rest ten zero (suc h) p q =
    widen 2 (suc (suc h)) 1 (suc (suc h)) _ (omega arith) (omega arith) (
      append-IsNumeral 1 (suc h) s _ (rest 0 h (inl refl) (omega (arith, pow10_pos h)))
        (digit-IsNumeral (n % 10) (omega arith)))
append_digit n s rest ten (suc l) (suc h) p q =
    let more : (l ≡ 0) ⊎ (pow10 l ≤ n / 10) = ground (arith, pow10_pos l) in
    append-IsNumeral (suc l) (suc h) s _ (rest l h more (omega (arith, pow10_pos h)))
      (digit-IsNumeral (n % 10) (omega arith))

-- The number of digits by the size: more than `l` and at most h + 1.
itoa_from-IsNumeral :
    (fuel n l h : ℕ)
    → n < fuel
    → (l ≡ 0) ⊎ (pow10 l ≤ n)
    → n < pow10 (suc h)
    → IsNumeral (suc l) (suc h) (itoa_from fuel n)
unfolding itoa_from
itoa_from-IsNumeral zero n l h f p q = absurd (omega arith)
itoa_from-IsNumeral (suc fuel) n l h f p q = elim (Bool-cases (ltb n 10)) [
  | inl small ↦
      let none_more : l ≡ 0 = one_digit l n p (ground arith) in
      rw (itoa_from, small)
        (widen 1 1 (suc l) (suc h) (digit n) (omega arith) (omega arith)
          (digit-IsNumeral n (ground arith)))
  | inr large ↦
      let ten : 10 ≤ n = ground arith in
      rw (itoa_from, large)
        (append_digit n (itoa_from fuel (n / 10))
          (λ l' h'. itoa_from-IsNumeral fuel (n / 10) l' h' (omega arith)) ten l h p q)
]

-- A number is written with digits only, more than `l` where it is at least 10 ^ l, and at most h + 1
-- where it is below 10 ^ (h + 1).
pub itoa-IsNumeral :
    (n l h : ℕ) → (l ≡ 0) ⊎ (pow10 l ≤ n) → n < pow10 (suc h) → IsNumeral (suc l) (suc h) (itoa n)
unfolding itoa
itoa-IsNumeral n l h = itoa_from-IsNumeral (suc n) n l h (omega arith)
