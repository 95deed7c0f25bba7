-- ===== src/Handler/Numerals.antt =====
-- The fuel of `itoa`, which stands for `strconv.Itoa`.
use gorder.Prelude.{ℕ, zero, suc, ◌/◌, ◌%◌, ◌<◌, ◌≤◌, ◌≡◌, ap, arith, Bool-cases, inl, inr, ltb}
use Prim.Native.String
use gorder.Prelude.Decimal.{digit, itoa_from, itoa}

-- Any fuel above the number gives the same numeral.
itoa_from-enough : (f g n : ℕ) → n < f → n < g → itoa_from f n ≡ itoa_from g n
unfolding itoa_from
itoa_from-enough zero g n p q = absurd (omega arith)
itoa_from-enough (suc f) zero n p q = absurd (omega arith)
itoa_from-enough (suc f) (suc g) n p q = elim (Bool-cases (ltb n 10)) [
  | inl small ↦ rw (itoa_from, small)
  | inr large ↦
      let ten : 10 ≤ n = ground arith in
      let less : n / 10 < n = omega arith in
      rw (itoa_from, large)
        (ap (λ s. String.◌++◌ s (digit (n % 10)))
          (itoa_from-enough f g (n / 10) (omega arith) (omega arith)))
]

-- `itoa` has fuel enough: with more it gives the same numeral.
itoa-enough : (f n : ℕ) → n < f → itoa_from f n ≡ itoa n
unfolding itoa
itoa-enough f n p = itoa_from-enough f (suc n) n p (omega arith)
