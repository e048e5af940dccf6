-- ===== src/Tunneller/Sni/Slug.antt =====
-- `extract_slug`: which hosts reach the tunnel of a name.
use wardnet_cloud.Prelude.{
  ℕ, zero, suc, ◌-◌, ◌≡◌, ◌↔◌, ◌⊎◌, refl, sym, ap, ◌∙◌, true, false, ◌&&◌, ◌==◌, leb, [], ◌∷◌, ◌++◌,
  some, arith, Bool-cases, Option-cases, inl, inr, length, take, drop, length-append, take-append,
  drop-append,
}
use wardnet_cloud.Prelude.Text.{Str, same, same_iff, same_refl}
use wardnet_cloud.Common.Validation.{is_valid_name, all_name_chars}
use wardnet_cloud.Common.Validation.Names.{valid-all_name_chars}
use wardnet_cloud.Tunneller.Sni.{strip_suffix, dot, has_byte, last_part, valid_only, extract_slug}

take-drop : (n : ℕ) (s : Str) → take n s ++ drop n s ≡ s
take-drop zero s = refl
take-drop (suc n) [] = refl
take-drop (suc n) (c ∷ s) = ap (◌∷◌ c) (take-drop n s)

strip_suffix-append : (p suffix : Str) → strip_suffix suffix (p ++ suffix) ≡ some p
unfolding strip_suffix
strip_suffix-append p suffix =
    rw (cut, take-append p suffix, drop-append p suffix, same_refl suffix, fits) refl
  where
    cut : length (p ++ suffix) - length suffix ≡ length p
    cut = omega (arith, length-append p suffix)

    fits : leb (length suffix) (length (p ++ suffix)) ≡ true
    fits = ground (arith, length-append p suffix)

strip_suffix_sound : (suffix s p : Str) → strip_suffix suffix s ≡ some p → s ≡ p ++ suffix
unfolding strip_suffix
strip_suffix_sound suffix s p e =
    elim (Bool-cases (leb (length suffix) (length s) && same (drop n s) suffix)) [
      | inr miss ↦ absurd (ground arith)
      | inl hit ↦
          let ends : drop n s ≡ suffix = (same_iff (drop n s) suffix).0 (ground arith) in
          let front : take n s ≡ p = ground arith in sym (take-drop n s) ∙ rw (ends, front) refl
    ]
  where
    n : ℕ
    n = length s - length suffix

last_part-whole : (c : ℕ) (s : Str) → has_byte c s ≡ false → last_part c s ≡ s
unfolding has_byte last_part
last_part-whole c [] h = refl
last_part-whole c (b ∷ s) h = ground (arith, last_part-whole c s)

has_byte-append : (c : ℕ) (l s : Str) → has_byte c (l ++ c ∷ s) ≡ true
unfolding has_byte
has_byte-append c [] s = ground arith
has_byte-append c (b ∷ l) s = ground (arith, has_byte-append c l s)

last_part-append : (c : ℕ) (l s : Str) → has_byte c s ≡ false → last_part c (l ++ c ∷ s) ≡ s
unfolding last_part
last_part-append c [] s h = ground arith
last_part-append c (b ∷ l) s h = ground (arith, has_byte-append c l s, last_part-append c l s h)

has_byte-last_part : (c : ℕ) (s : Str) → has_byte c (last_part c s) ≡ false
unfolding has_byte last_part
has_byte-last_part c [] = refl
has_byte-last_part c (b ∷ s) = ground (arith, has_byte-last_part c s)

-- Before the last part stands nothing, or a separator.
last_part-cases :
    (c : ℕ) (s : Str) → (s ≡ last_part c s) ⊎ ((l : Str) × (s ≡ l ++ c ∷ last_part c s))
unfolding last_part
last_part-cases c [] = inl refl
last_part-cases c (b ∷ s) = elim (Bool-cases (has_byte c s)) [
  | inl more ↦ rw more (elim (last_part-cases c s) [
    | inl whole ↦ absurd (ground (arith, has_byte-last_part c s, ap (has_byte c) whole))
    | inr (l, e) ↦ inr (b ∷ l, ap (◌∷◌ b) e)
  ])
  | inr last ↦ rw last (elim (Bool-cases (b == c)) [
    | inl sep ↦ let same_byte : b ≡ c = ground arith in rw (sep, same_byte) (inr ([], refl))
    | inr char ↦ rw char (inl refl)
  ])
]

-- A valid name has no dot.
valid-no_dot : (s : Str) → all_name_chars s ≡ true → has_byte dot s ≡ false
unfolding all_name_chars has_byte
valid-no_dot [] h = refl
valid-no_dot (c ∷ s) h = ground (arith, valid-no_dot s)

extracts :
    (p suffix slug : Str)
    → last_part dot p ≡ slug
    → is_valid_name slug ≡ true
    → extract_slug (p ++ suffix) suffix ≡ some slug
unfolding extract_slug
extracts p suffix slug e valid = rw (strip_suffix-append p suffix, e, valid) refl

module _ (host suffix slug : Str) where
  abbrev Under : Type 0
  Under = (host ≡ slug ++ suffix) ⊎ ((labels : Str) × (host ≡ labels ++ dot ∷ slug ++ suffix))

  under_of :
      (p : Str)
      → host ≡ p ++ suffix
      → last_part dot p ≡ slug
      → (p ≡ last_part dot p) ⊎ ((l : Str) × (p ≡ l ++ dot ∷ last_part dot p))
      → Under
  under_of p e last (inl whole) = inl (e ∙ ap (λ x. x ++ suffix) (whole ∙ last))
  under_of p e last (inr (l, before)) =
      inr (l, e ∙ ap (λ x. x ++ suffix) (before ∙ ap (λ x. l ++ dot ∷ x) last))

  slug_under : extract_slug host suffix ≡ some slug → (is_valid_name slug ≡ true) × Under
  unfolding extract_slug valid_only
  slug_under e = elim (Option-cases (strip_suffix suffix host)) [
    | inl missing ↦ absurd (ground arith)
    | inr (p, stripped) ↦ elim (Bool-cases (is_valid_name (last_part dot p))) [
      | inr invalid ↦ absurd (ground arith)
      | inl valid ↦
          let last : last_part dot p ≡ slug = ground arith in
          (
            rw (← last) valid,
            under_of p (strip_suffix_sound suffix host p stripped) last (last_part-cases dot p),
          )
    ]
  ]

  under_slug : (is_valid_name slug ≡ true) × Under → extract_slug host suffix ≡ some slug
  under_slug (valid, inl e) = rw e (
      extracts slug suffix slug
        (last_part-whole dot slug (valid-no_dot slug (valid-all_name_chars slug valid))) valid)
  under_slug (valid, inr (l, e)) = rw e (
      extracts (l ++ dot ∷ slug) suffix slug
        (last_part-append dot l slug (valid-no_dot slug (valid-all_name_chars slug valid))) valid)

-- A registered name reaches its tunnel under its own host and under every host below it, and no
-- other host does: the host is the name and the suffix, with nothing or further labels before it.
pub extract_slug_iff :
    (host suffix slug : Str)
    → (extract_slug host suffix ≡ some slug) ↔ (
        (is_valid_name slug ≡ true)
        × ((host ≡ slug ++ suffix) ⊎ ((labels : Str) × (host ≡ labels ++ dot ∷ slug ++ suffix))))
extract_slug_iff host suffix slug = (slug_under host suffix slug, under_slug host suffix slug)
