-- ===== src/Config/Atoi.antt =====
-- `strconv.Atoi` on a machine with 64-bit `int`: an optional sign and decimal digits, in range.
use Prim.Native.Char.{code}
use gorder.Prelude.{
  ℕ, suc, zero, ◌+◌, ◌*◌, ◌-◌, ◌^◌, String, Option, none, some, if◌then◌else◌, ◌&&◌, leb, ltb, ◌==◌,
  ◌>>=◌,
}
use gorder.Prelude.Int.{ℤ, pos, negsuc}

unfoldable pub digits : String → ℕ → Option ℕ
digits String.[] n = some n
digits (String.◌∷◌ c s) n =
    let rest = digits s (n * 10 + (code c - 48)) in
    if leb 48 (code c) && leb (code c) 57 then rest else none

-- at least one digit
unfoldable pub magnitude : String → Option ℕ
magnitude String.[] = none
magnitude (String.◌∷◌ c s) = digits (String.◌∷◌ c s) 0

abbrev pub negative : ℕ → ℤ
negative zero = pos 0
negative (suc n) = negsuc n

unfoldable pub atoi : String → Option ℤ
atoi String.[] = none
atoi (String.◌∷◌ c s) =
    if code c == 45
    then (do n ← magnitude s; if leb n (2 ^ 63) then some (negative n) else none)
    else (do
      n ← magnitude (if code c == 43 then s else String.◌∷◌ c s)
      if ltb n (2 ^ 63) then some (pos n) else none)
