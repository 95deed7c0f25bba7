-- ===== src/Emulator/Fields.antt =====
-- How the shapes of the generated fields stand to the tags of internal/models/models.go.
use Prim.Native.Char.{Char}
use Prim.Native.String
use text.Mathlib.TextLemmas.{length-append}
use text.Mathlib.TextEquality.{eq_iff}
use gorder.Prelude.{
  ℕ, zero, suc, ◌+◌, ◌≤◌, ◌≡◌, ◌↔◌, inl, String, [], ◌∷◌, true, arith, Each, IsDigit, IsAlphanum,
  sym, subst, str_eq,
}
use gorder.Models.Validation.{
  Validator, ValidatorLaws, Field, passes, required, omitempty, min, max, uuid4, alphanum, e164,
  email, gte, string, number,
}
use gorder.Emulator.{customer}
use gorder.Emulator.Forms.{IsCode, IsShort, IsPhone, IsEmail}

Each-map : (P Q : Char → Type 0) (s : String) → ((c : Char) → P c → Q c) → Each P s → Each Q s
Each-map P Q String.[] f _ = tt
Each-map P Q (String.◌∷◌ c s) f (p, h) = (f c p, Each-map P Q s f h)

module _ (v : Validator) (laws : ValidatorLaws v) where
  abbrev pub Passes : Field → Type 0
  Passes (value, tags) = passes v.holds tags value ≡ true

  pub set : (s : String) → 1 ≤ String.count s → v.holds required (string s) ≡ true
  set s p =
      let given : str_eq s "" ≡ true → 1 ≤ 0 =
        λ e. subst (λ t. 1 ≤ String.count t) ((eq_iff s "").0 e) p in
      ground (arith, laws.required_text s, given)

  pub set_text :
      (m : ℕ) (s : String)
      → 1 ≤ String.count s
      → String.count s ≤ m
      → passes v.holds (required ∷ max m ∷ []) (string s) ≡ true
  set_text m s p q = ground (arith, set s p, laws.max_text m s)

  pub set_code :
      (m : ℕ) (s : String)
      → Each IsAlphanum s
      → 1 ≤ String.count s
      → String.count s ≤ m
      → passes v.holds (required ∷ alphanum ∷ max m ∷ []) (string s) ≡ true
  set_code m s a p q =
      let accepted : v.holds alphanum (string s) ≡ true = laws.alphanum_accepts s a p in
      ground (arith, set s p, laws.max_text m s)

  pub code :
      (n m : ℕ) (s : String)
      → IsCode n s
      → 1 ≤ n
      → n ≤ m
      → Passes (string s, required ∷ alphanum ∷ max m ∷ [])
  code n m s h p q = set_code m s h.chars (omega (arith, h.count_lem)) (omega (arith, h.count_lem))

  pub prose :
      (n m : ℕ) (s : String) → IsCode n s → 1 ≤ n → n ≤ m → Passes (string s, required ∷ max m ∷ [])
  prose n m s h p q = set_text m s (omega (arith, h.count_lem)) (omega (arith, h.count_lem))

  pub numeral :
      (h m : ℕ) (s : String)
      → IsShort h s
      → h ≤ m
      → Passes (string s, required ∷ alphanum ∷ max m ∷ [])
  numeral h m s n p =
      set_code m s (Each-map IsDigit IsAlphanum s (λ c d. inl d) n.digits) n.low_lem
        (omega (arith, n.high_lem))

  pub positive : (n : ℕ) → 1 ≤ n → Passes (number n, required ∷ min 1 ∷ [])
  positive n p = ground (arith, laws.required_number n, laws.min_number 1 n)

  pub phone_iff :
      (s : String) → IsPhone s → Passes (string s, required ∷ e164 ∷ []) ↔ (8 ≤ String.count s)
  phone_iff s h = (
    λ e. ground (arith, laws.e164_count s),
    λ long.
        let whole : String.count s ≡ 1 + String.count h.number =
          subst (λ x. String.count x ≡ 1 + String.count h.number) (sym h.phone_lem)
            (length-append "+" h.number) in
        let digits = h.number_lem in
        let accepted : v.holds e164 (string s) ≡ true =
          subst (λ x. v.holds e164 (string x) ≡ true) (sym h.phone_lem)
            (laws.e164_accepts h.number digits.digits (omega arith)
              (omega (arith, digits.high_lem))) in
        ground (arith, set s (omega arith)),
  )

  pub email_lem : (s : String) → IsEmail s → Passes (string s, required ∷ email ∷ [])
  email_lem s h =
      let n = h.name_lem in
      let m = h.host_lem in
      let accepted =
        laws.email_accepts h.name h.host n.chars m.chars (omega (arith, n.count_lem))
          (omega (arith, n.count_lem)) (omega (arith, m.count_lem)) (omega (arith, m.count_lem)) in
      let address = String.◌++◌ h.name (String.◌++◌ "@" (String.◌++◌ h.host ".com")) in
      let some_chars = length-append h.name (String.◌++◌ "@" (String.◌++◌ h.host ".com")) in
      subst (λ x. Passes (string x, required ∷ email ∷ [])) (sym h.email_lem)
        (ground (arith, accepted, set address (omega (arith, some_chars, n.count_lem))))

  pub literal :
      (m : ℕ) (s t : String)
      → s ≡ t
      → 1 ≤ String.count t
      → String.count t ≤ m
      → Passes (string s, required ∷ max m ∷ [])
  literal m s t e p q =
      subst (λ x. Passes (string x, required ∷ max m ∷ [])) (sym e) (set_text m t p q)

  pub customer_code : (who : ℕ) → Passes (string (customer who), required ∷ alphanum ∷ max 50 ∷ [])
  customer_code zero = set_code 50 "admin" (ground arith) (omega arith) (omega arith)
  customer_code (suc zero) = set_code 50 "alice" (ground arith) (omega arith) (omega arith)
  customer_code (suc (suc _)) = set_code 50 "bob" (ground arith) (omega arith) (omega arith)

  pub any_number : (n : ℕ) → Passes (number n, gte 0 ∷ [])
  any_number n = ground (arith, laws.gte_number 0 n)

  pub uuid_code :
      (s uid : String)
      → v.holds uuid4 (string uid) ≡ true
      → s ≡ uid
      → Passes (string s, required ∷ uuid4 ∷ [])
  uuid_code s uid u e =
      let long = laws.uuid4_count uid u in
      subst (λ x. Passes (string x, required ∷ uuid4 ∷ [])) (sym e)
        (ground (arith, u, set uid (omega (arith, long))))

  pub optional_code :
      (n m : ℕ) (s : String)
      → IsCode n s
      → 1 ≤ n
      → n ≤ m
      → Passes (string s, omitempty ∷ alphanum ∷ max m ∷ [])
  optional_code n m s h p q = ground (arith, code n m s h p q)

  pub optional_prose :
      (n m : ℕ) (s : String)
      → IsCode n s
      → 1 ≤ n
      → n ≤ m
      → Passes (string s, omitempty ∷ max m ∷ [])
  optional_prose n m s h p q = ground (arith, prose n m s h p q)
