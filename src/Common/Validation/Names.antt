-- ===== src/Common/Validation/Names.antt =====
-- What the validation functions accept.
use wardnet_cloud.Prelude.{
  ◌≤◌, ◌≡◌, ◌↔◌, true, false, List, [], ◌∷◌, Option, none, some, arith, length, All,
}
use wardnet_cloud.Prelude.Text.{Str}
use wardnet_cloud.Common.Validation.{
  is_valid_name, ok, validate_acme_values, find_long, by_long, all_name_chars, max_acme_values,
  max_acme_value_len, is_name_char, starts_with_hyphen, ends_with_hyphen, is_reserved,
}

-- What a registered name is.
pub record IsName (name : Str) : Type 0 where
  pub long_enough : 3 ≤ length name
  pub short_enough : length name ≤ 32
  pub characters : All (λ c. is_name_char c ≡ true) name
  pub no_first_hyphen : starts_with_hyphen name ≡ false
  pub no_last_hyphen : ends_with_hyphen name ≡ false
  pub free : is_reserved name ≡ false

all_name_chars_iff : (s : Str) → (all_name_chars s ≡ true) ↔ All (λ c. is_name_char c ≡ true) s
unfolding all_name_chars
all_name_chars_iff [] = ground arith
all_name_chars_iff (c ∷ s) = ground (arith, all_name_chars_iff s)

pub valid-IsName : (name : Str) → is_valid_name name ≡ true → IsName name
unfolding is_valid_name
valid-IsName name e = record {
  long_enough = ground arith;
  short_enough = ground arith;
  characters = (all_name_chars_iff name).0 (ground arith);
  no_first_hyphen = ground arith;
  no_last_hyphen = ground arith;
  free = ground arith;
}

find_long_iff :
    (vs : List Str) → (find_long vs ≡ none) ↔ All (λ v. length v ≤ max_acme_value_len) vs
unfolding find_long
find_long_iff [] = ground arith
find_long_iff (v ∷ vs) = ground (arith, find_long_iff vs)

by_long_iff : (found : Option Str) → (by_long found ≡ ok tt) ↔ (found ≡ none)
unfolding by_long
by_long_iff none = ground arith
by_long_iff (some v) = ground arith

-- A request to set an ACME challenge passes exactly with one to four values of at most 255 bytes.
validate_acme_values_iff :
    (vs : List Str)
    → (validate_acme_values vs ≡ ok tt) ↔ (
        (1 ≤ length vs)
        × (length vs ≤ max_acme_values)
        × All (λ v. length v ≤ max_acme_value_len) vs)
unfolding validate_acme_values
validate_acme_values_iff [] = ((λ e. absurd (ground arith)), (λ h. absurd (omega (arith, h.0))))
validate_acme_values_iff (v ∷ vs) =
    ground (arith, find_long_iff (v ∷ vs), by_long_iff (find_long (v ∷ vs)))

pub valid-all_name_chars : (name : Str) → is_valid_name name ≡ true → all_name_chars name ≡ true
unfolding is_valid_name
valid-all_name_chars name e = ground arith
