-- ===== src/Tests/Validator.antt =====
-- A concrete validator: the formats are judged by the lengths of the texts.
use Prim.Native.String
use text.Mathlib.TextLemmas.{length-append}
use gorder.Prelude.{
  ◌≡◌, ◌↔◌, refl, List, [], ◌∷◌, Bool, true, not, ◌&&◌, ◌==◌, leb, str_eq, if◌then◌else◌, All,
  arith,
}
use gorder.Prelude.Result.{done, failed}
use gorder.Models.{Order}
use gorder.Models.Validation.{
  Tag, required, max, min, gte, uuid4, e164, Value, string, number, time, slice, Field, passes,
  Validator, ValidatorLaws,
}
use gorder.Tests.Samples.{order_of}

abbrev plain_holds : Tag → Value → Bool
plain_holds required (string s) = not (str_eq s "")
plain_holds required (number n) = not (n == 0)
plain_holds required (time t) = not (t == 0)
plain_holds required _ = true
plain_holds (max n) (string s) = leb (String.count s) n
plain_holds (max n) (number m) = leb m n
plain_holds (min n) (number m) = leb n m
plain_holds (min n) (slice m) = leb n m
plain_holds (gte n) (number m) = leb n m
plain_holds uuid4 (string s) = String.count s == 36
plain_holds e164 (string s) = leb 8 (String.count s) && leb (String.count s) 16
plain_holds _ _ = true

abbrev all_pass : List Field → Bool
all_pass [] = true
all_pass ((value, tags) ∷ fs) = passes plain_holds tags value && all_pass fs

abbrev pub plain_validator : Validator
plain_validator = record {
  holds = plain_holds;
  struct = λ fs. if all_pass fs then done else failed "validation failed";
}

all_pass_iff :
    (fs : List Field)
    → (all_pass fs ≡ true) ↔ All (λ (f : Field). passes plain_holds f.1 f.0 ≡ true) fs
all_pass_iff [] = (λ _. tt, λ _. refl)
all_pass_iff ((value, tags) ∷ fs) = ground (arith, all_pass_iff fs)

pub plain_validator_laws : ValidatorLaws plain_validator
plain_validator_laws = record {
  struct_iff = λ fs. ground (arith, all_pass_iff fs);
  required_text = λ s. refl;
  required_number = λ n. refl;
  required_time = λ t. refl;
  required_slice = λ n _. refl;
  required_structure = refl;
  max_text = λ n s. refl;
  max_number = λ n m. refl;
  min_number = λ n m. refl;
  min_slice = λ n m. refl;
  gte_number = λ n m. refl;
  dive_slice = λ n. refl;
  uuid4_count = λ s h. ground arith;
  e164_count = λ s h. ground arith;
  e164_accepts = λ s _ low high. ground (arith, length-append "+" s);
  alphanum_accepts = λ s _ _. refl;
  email_accepts = λ s t _ _ _ _ _ _. refl;
}

abbrev pub valid_order : Order
valid_order = order_of "b563feb7-b2b8-4b6a-9f5d-1c2e3f4a5b6c" "test"
