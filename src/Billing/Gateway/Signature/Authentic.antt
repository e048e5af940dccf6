-- ===== src/Billing/Gateway/Signature/Authentic.antt =====
-- Which webhooks are acted on.
use wardnet_cloud.Prelude.{ℕ, ◌≡◌, Bool, true, List, ◌∷◌, Option, some}
use wardnet_cloud.Prelude.Int.{ℤ}
use wardnet_cloud.Prelude.Text.{Str, codes, same, split}
use wardnet_cloud.Prelude.Decimal.{parse_i64}
use wardnet_cloud.Billing.Run.{Run}
use wardnet_cloud.Billing.Gateway.Signature.{split_once, matches, in_tolerance}

-- A part of a list that has a property.
pub data Has (P : Str → Type 0) : List Str → Type 0 where
  at : {part : Str} {parts : List Str} → P part → Has P (part ∷ parts)
  later : {part : Str} {parts : List Str} → Has P parts → Has P (part ∷ parts)

module _ (trim : Str → Str) where
  -- A part `t=…` that names the time, and a part `v1=…` whose value passes a test.
  abbrev pub Stamp : ℤ → Str → Type 0
  Stamp t part =
      (key : Str) × (value : Str) × (split_once b'=' part ≡ some (key, value))
      × (same (trim key) (codes "t") ≡ true)
      × (parse_i64 (trim value) ≡ some t)

  abbrev pub Signs : (Str → Bool) → Str → Type 0
  Signs test part =
      (key : Str) × (value : Str) × (split_once b'=' part ≡ some (key, value))
      × (same (trim key) (codes "v1") ≡ true)
      × (test (trim value) ≡ true)

module _ (trim : Str → Str) (decode_hex : Str → Option (List ℕ))
    (hmac_verifies : ℤ → Str → List ℕ → Bool) where
  -- The header names a time within the tolerance and carries a signature of the payload at that time.
  abbrev pub Authentic : Str → Str → ℤ → Type 0
  Authentic payload sig_header now =
      (t : ℤ) × Has (Stamp trim t) (split b',' sig_header)
      × Has (Signs trim (matches trim decode_hex hmac_verifies t payload)) (split b',' sig_header)
      × (in_tolerance now t ≡ true)
