-- ===== src/Prelude/Decimal.antt =====
-- Decimal texts of signed integers: `Display` and `FromStr` of an `i64`.
use wardnet_cloud.Prelude.{
  ℕ, zero, suc, ◌+◌, ◌-◌, ◌*◌, ◌/◌, ◌%◌, ◌≤◌, ◌<◌, ◌≡◌, ◌≢◌, ap, sym, ◌∙◌, Bool, false, ◌&&◌, ◌==◌,
  leb, ltb, [], ◌∷◌, Option, none, some, arith, All, Bool-cases, inl, inr, if◌then◌else◌, subst,
}
use wardnet_cloud.Prelude.Int.{ℤ, pos, negsuc}
use wardnet_cloud.Prelude.Text.{Str}

-- The digits of a number before a text; `fuel` above the number is enough.
unfoldable pub digits : ℕ → ℕ → Str → Str
digits zero n rest = rest
digits (suc fuel) n rest =
    let more = digits fuel (n / 10) ((48 + n % 10) ∷ rest) in
    if ltb n 10 then (48 + n) ∷ rest else more

unfoldable pub show_i64 : ℤ → Str
show_i64 (pos n) = digits (suc n) n []
show_i64 (negsuc n) = 45 ∷ digits (suc (suc n)) (suc n) []

abbrev is_digit : ℕ → Bool
is_digit c = leb 48 c && leb c 57

unfoldable pub parse_digits : Str → ℕ → Option ℕ
parse_digits [] n = some n
parse_digits (c ∷ s) n =
    let rest = parse_digits s (n * 10 + (c - 48)) in if is_digit c then rest else none

parse_positive : Str → Option ℕ
parse_positive [] = none
parse_positive (c ∷ s) = parse_digits (c ∷ s) 0

abbrev i64_limit : ℕ
i64_limit = 9223372036854775808

below_limit : Option ℕ → Option ℤ
below_limit none = none
below_limit (some n) = if ltb n i64_limit then some (pos n) else none

negative : Option ℕ → Option ℤ
negative none = none
negative (some n) =
    if n == 0 then some (pos 0) else if leb n i64_limit then some (negsuc (n - 1)) else none

unfoldable pub parse_i64 : Str → Option ℤ
unfolding negative below_limit parse_positive
parse_i64 [] = none
parse_i64 (c ∷ s) =
    if c == 45
    then negative (parse_positive s)
    else if c == 43
    then below_limit (parse_positive s)
    else below_limit (parse_positive (c ∷ s))

value : Str → ℕ → ℕ
value [] n = n
value (c ∷ s) n = value s (n * 10 + (c - 48))

value-digits : (fuel n : ℕ) (rest : Str) → n < fuel → value (digits fuel n rest) 0 ≡ value rest n
unfolding value digits
value-digits zero n rest h = absurd (omega arith)
value-digits (suc fuel) n rest h = elim (Bool-cases (ltb n 10)) [
  | inl small ↦ rw small (ap (value rest) (digit n))
  | inr big ↦
      rw big (
        value-digits fuel (n / 10) ((48 + n % 10) ∷ rest) (smaller big) ∙ ap (value rest) (whole n))
]
  where
    digit : (n : ℕ) → 0 * 10 + ((48 + n) - 48) ≡ n
    digit n = omega arith

    whole : (n : ℕ) → n / 10 * 10 + ((48 + n % 10) - 48) ≡ n
    whole n = omega arith

    smaller : ltb n 10 ≡ false → n / 10 < fuel
    smaller big = ground arith

digits-above :
    (fuel n : ℕ) (rest : Str) → All (λ c. 48 ≤ c) rest → All (λ c. 48 ≤ c) (digits fuel n rest)
unfolding digits
digits-above zero n rest h = h
digits-above (suc fuel) n rest h = elim (Bool-cases (ltb n 10)) [
  | inl small ↦ rw small (omega arith, h)
  | inr big ↦ rw big (digits-above fuel (n / 10) ((48 + n % 10) ∷ rest) (omega arith, h))
]

above_mono : (s : Str) → All (λ c. 48 ≤ c) s → All (λ c. 45 ≤ c) s
above_mono [] h = tt
above_mono (c ∷ s) h = (omega (arith, h.0), above_mono s h.1)

-- A text of an integer has no byte below the sign.
pub show_i64-above : (a : ℤ) → All (λ c. 45 ≤ c) (show_i64 a)
unfolding show_i64
show_i64-above (pos n) = above_mono (digits (suc n) n []) (digits-above (suc n) n [] tt)
show_i64-above (negsuc n) = (
  omega arith,
  above_mono (digits (suc (suc n)) (suc n) []) (digits-above (suc (suc n)) (suc n) [] tt),
)

same_digits : (m n : ℕ) → digits (suc m) m [] ≡ digits (suc n) n [] → m ≡ n
unfolding value
same_digits m n e =
    sym (value-digits (suc m) m [] (omega arith))
    ∙ ap (λ s. value s 0) e
    ∙ value-digits (suc n) n [] (omega arith)

no_sign : (n : ℕ) (s : Str) → digits (suc n) n [] ≢ 45 ∷ s
no_sign n s e =
    let signed = subst (λ t. All (λ c. 48 ≤ c) t) e (digits-above (suc n) n [] tt) in
    absurd (omega (arith, signed.0))

tail : Str → Str
tail [] = []
tail (c ∷ s) = s

pub show_i64_injective : (a b : ℤ) → show_i64 a ≡ show_i64 b → a ≡ b
unfolding show_i64 tail
show_i64_injective (pos m) (pos n) e = ap pos (same_digits m n e)
show_i64_injective (pos m) (negsuc n) e = absurd (no_sign m _ e)
show_i64_injective (negsuc m) (pos n) e = absurd (no_sign n _ (sym e))
show_i64_injective (negsuc m) (negsuc n) e =
    let same : suc m ≡ suc n = same_digits (suc m) (suc n) (ap tail e) in
    ap negsuc (omega (arith, same))
