-- ===== src/Prelude/Text.antt =====
-- Texts: equality as a Boolean and as a decision.
use Prim.Native.Nat.{ℕ, zero, suc, ◌≤◌, ◌<◌}
use Prim.Native.Char.{Char, code, nul}
use Prim.Native.String.{String}
use Prim.Native.String
use mathlib.Core.Path.{◌≡◌, refl, sym, ◌∙◌}
use mathlib.Core.Logic.{◌⊎◌}
use mathlib.Core.Bool.{Bool, true, false, false≢true}
use native.Mathlib.Omega.{arith}
use text.Mathlib.TextLemmas.{nil-append, cons-append, length-cons}
use mathlib.Core.List.{List, [], ◌∷◌}
use gorder.Prelude.Tests.{◌==◌, if◌then◌else◌}
use text.Mathlib.Text
use text.Mathlib.TextEquality.{eq_iff}

abbrev pub str_eq : String → String → Bool
str_eq a b = Text.◌==◌ a b

decide_str : (a b : String) (t : Bool) → str_eq a b ≡ t → Dec (a ≡ b)
decide_str a b true e = yes ((eq_iff a b).0 e)
decide_str a b false e = no (λ p. false≢true (sym e ∙ (eq_iff a b).1 p))

unfoldable pub string_discrete : Discrete String
unfolding decide_str
string_discrete a b = decide_str a b (str_eq a b) refl

abbrev pub Each : (Char → Type 0) → String → Type 0
Each P String.[] = Unit
Each P (String.◌∷◌ c s) = P c × Each P s

-- 0-9, and with A-Z and a-z
abbrev pub IsDigit : Char → Type 0
IsDigit c = (48 ≤ code c) × (code c ≤ 57)

abbrev pub IsAlphanum : Char → Type 0
IsAlphanum c = IsDigit c ⊎ (((65 ≤ code c) × (code c ≤ 90)) ⊎ ((97 ≤ code c) × (code c ≤ 122)))

pub append-Each :
    (P : Char → Type 0) (s t : String) → Each P s → Each P t → Each P (String.◌++◌ s t)
append-Each P String.[] t _ h = rw nil-append h
append-Each P (String.◌∷◌ c s) t (p, h) k = rw cons-append (p, append-Each P s t h k)

-- Go's `s[i]` where each character is one byte
abbrev pub char_at : String → ℕ → Char
char_at String.[] i = nul
char_at (String.◌∷◌ c s) zero = c
char_at (String.◌∷◌ c s) (suc i) = char_at s i

pub char_at-Each :
    (P : Char → Type 0) (s : String) (i : ℕ) → Each P s → i < String.count s → P (char_at s i)
char_at-Each P String.[] i _ l = absurd (omega arith)
char_at-Each P (String.◌∷◌ c s) zero (p, _) l = p
char_at-Each P (String.◌∷◌ c s) (suc i) (_, h) l =
    char_at-Each P s i h (omega (arith, length-cons c s))

abbrev pub in_first : Char → List String → List String
in_first c [] = String.◌∷◌ c "" ∷ []
in_first c (s ∷ rest) = String.◌∷◌ c s ∷ rest

-- `strings.Split(s, ",")`
unfoldable pub split_commas : String → List String
split_commas String.[] = "" ∷ []
split_commas (String.◌∷◌ c s) =
    let rest = split_commas s in if code c == 44 then "" ∷ rest else in_first c rest
