-- ===== src/Prelude/Bytes.antt =====
-- Buffers read by index and by slice, as lists of bytes, and UTF-8.
-- A read is `none` where the index or the slice is out of range, which is a panic of the program.
use wardnet_cloud.Prelude.{
  ℕ, zero, suc, ◌+◌, ◌-◌, ◌*◌, ◌≤◌, ◌<◌, ◌≡◌, refl, Bool, true, false, ◌&&◌, ◌||◌, ◌==◌, leb, ltb,
  List, [], ◌∷◌, Option, none, some, arith, if◌then◌else◌, length, get_elem?, take, drop,
  length-take, length-drop,
}

infixl 5 ◌>>=◌
abbrev pub ◌>>=◌ {ℓ κ} : {A : Type ℓ} {B : Type κ} → Option A → (A → Option B) → Option B
none >>= f = none
some a >>= f = f a

in_bounds : (a b n : ℕ) → a ≤ b → b ≤ n → (leb a b && leb b n) ≡ true
in_bounds a b n h k = ground arith

module _ {ℓ} {A : Type ℓ} where
  -- `xs[a..b]`.
  unfoldable pub slice : ℕ → ℕ → List A → Option (List A)
  slice a b xs = if leb a b && leb b (length xs) then some (take (b - a) (drop a xs)) else none

  pub get-in_range : (xs : List A) (i : ℕ) → i < length xs → (v : A) × (get_elem? xs i ≡ some v)
  get-in_range [] i h = absurd (omega arith)
  get-in_range (x ∷ xs) zero h = (x, refl)
  get-in_range (x ∷ xs) (suc i) h = get-in_range xs i (omega arith)

  pub slice-in_range :
      (a b : ℕ) (xs : List A)
      → a ≤ b
      → b ≤ length xs
      → (ys : List A) × (slice a b xs ≡ some ys) × (length ys ≡ b - a)
  unfolding slice
  slice-in_range a b xs h k = (
    take (b - a) (drop a xs),
    rw (in_bounds a b (length xs) h k) refl,
    omega (arith, length-take (b - a) (drop a xs), length-drop a xs),
  )

-- `u16::from_be_bytes([xs[i], xs[i + 1]])`, and `u32::from_be_bytes` of three bytes after a zero.
abbrev pub u16_at : ℕ → List ℕ → Option ℕ
u16_at i xs = do a ← get_elem? xs i; b ← get_elem? xs (suc i); some (a * 256 + b)

abbrev pub u24_at : ℕ → List ℕ → Option ℕ
u24_at i xs = do
  a ← get_elem? xs i
  b ← get_elem? xs (suc i)
  c ← get_elem? xs (suc (suc i))
  some ((a * 256 + b) * 256 + c)

pub u16-in_range : (xs : List ℕ) (i : ℕ) → i + 1 < length xs → (v : ℕ) × (u16_at i xs ≡ some v)
u16-in_range xs i h =
    let (a, ea) = get-in_range xs i (omega arith) in
    let (b, eb) = get-in_range xs (suc i) (omega arith) in (a * 256 + b, rw (ea, eb) refl)

pub u24-in_range : (xs : List ℕ) (i : ℕ) → i + 2 < length xs → (v : ℕ) × (u24_at i xs ≡ some v)
u24-in_range xs i h =
    let (a, ea) = get-in_range xs i (omega arith) in
    let (b, eb) = get-in_range xs (suc i) (omega arith) in
    let (c, ec) = get-in_range xs (suc (suc i)) (omega arith) in
    ((a * 256 + b) * 256 + c, rw (ea, eb, ec) refl)

-- How many bytes follow a lead byte, and the range of the first of them.
abbrev following : ℕ → ℕ
following b = if ltb b 128 then 0 else if ltb b 224 then 1 else if ltb b 240 then 2 else 3

abbrev first_low : ℕ → ℕ
first_low b = if b == 224 then 160 else if b == 240 then 144 else 128

abbrev first_high : ℕ → ℕ
first_high b = if b == 237 then 159 else if b == 244 then 143 else 191

abbrev is_lead : ℕ → Bool
is_lead b = ltb b 128 || (leb 194 b && leb b 244)

-- The text from a point where some bytes of a character are still due, the next one in a range.
unfoldable pub utf8_from : ℕ → ℕ → ℕ → List ℕ → Bool
utf8_from zero low high [] = true
utf8_from zero low high (b ∷ s) =
    is_lead b && utf8_from (following b) (first_low b) (first_high b) s
utf8_from (suc n) low high [] = false
utf8_from (suc n) low high (b ∷ s) = leb low b && leb b high && utf8_from n 128 191 s

-- `std::str::from_utf8` accepts these bytes.
abbrev pub is_utf8 : List ℕ → Bool
is_utf8 s = utf8_from 0 0 0 s
