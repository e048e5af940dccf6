-- ===== src/Prelude/Text.antt =====
-- A `&str` or `&[u8]` that the program walks, as the list of its bytes. All the texts compared here
-- are ASCII literals, so a test on characters is one on bytes.
use Prim.Native.Char.{code}
use Prim.Native.String.{String}
use wardnet_cloud.Prelude.{
  ℕ, ◌+◌, ◌*◌, ◌≡◌, refl, ◌↔◌, Bool, true, false, ◌&&◌, List, [], ◌∷◌, ◌++◌, Option, none, some,
  arith, ◌==◌, if◌then◌else◌, ◌||◌,
}

abbrev pub Str : Type 0
Str = List ℕ

-- A literal.
abbrev pub codes : String → Str
codes String.[] = []
codes (String.◌∷◌ c s) = code c ∷ codes s

-- Equality of two texts.
unfoldable pub same : Str → Str → Bool
same [] [] = true
same (a ∷ s) (b ∷ t) = a == b && same s t
same _ _ = false

pub same_iff : (s t : Str) → (same s t ≡ true) ↔ (s ≡ t)
unfolding same
same_iff [] [] = ground arith
same_iff [] (b ∷ t) = ground arith
same_iff (a ∷ s) [] = ground arith
same_iff (a ∷ s) (b ∷ t) = ground (arith, same_iff s t)

pub same_refl : (s : Str) → same s s ≡ true
same_refl s = (same_iff s s).1 refl

-- `str::strip_prefix`.
unfoldable pub strip_prefix : Str → Str → Option Str
strip_prefix [] s = some s
strip_prefix (p ∷ ps) [] = none
strip_prefix (p ∷ ps) (c ∷ s) = let rest = strip_prefix ps s in if p == c then rest else none

pub strip_prefix-append : (p s : Str) → strip_prefix p (p ++ s) ≡ some s
unfolding strip_prefix
strip_prefix-append [] s = refl
strip_prefix-append (p ∷ ps) s = ground (arith, strip_prefix-append ps s)

-- The only texts that a prefix is stripped from are those that it begins.
pub strip_prefix_sound : (p s : Str) {r : Str} → strip_prefix p s ≡ some r → s ≡ p ++ r
unfolding strip_prefix
strip_prefix_sound [] s e = ground arith
strip_prefix_sound (p ∷ ps) [] e = cc
strip_prefix_sound (p ∷ ps) (c ∷ s) {r} e = ground (arith, strip_prefix_sound ps s {r = r})

unfoldable pub extend : ℕ → List Str → List Str
extend c [] = (c ∷ []) ∷ []
extend c (part ∷ parts) = (c ∷ part) ∷ parts

-- `str::split` at one separator byte: always at least one part.
unfoldable pub split : ℕ → Str → List Str
unfolding extend
split sep [] = [] ∷ []
split sep (c ∷ s) = let rest = split sep s in if c == sep then [] ∷ rest else extend c rest

-- `u16::from_be_bytes` and `to_be_bytes`, and the same of a `u32`.
abbrev pub u16_from_be : ℕ → ℕ → ℕ
u16_from_be a b = a * 256 + b

-- `<[&str]>::contains`.
unfoldable pub contains : Str → List Str → Bool
contains s [] = false
contains s (t ∷ ts) = same t s || contains s ts
