-- ===== src/Billing/Gateway/Signature.antt =====
-- crates/billing/src/gateway.rs: `verify_signature` and `construct_event`, and `handle_webhook` of
-- service.rs. `trim`, the decoding of hex and the check of an HMAC under the webhook secret are
-- arguments, where `hmac_verifies t payload bytes` is the one over "{t}.{payload}"; `parse_event` reads
-- and normalizes a payload.
pub mod Authentic
use wardnet_cloud.Prelude.{
  ℕ, String, Bool, true, false, not, ◌||◌, ◌==◌, List, [], ◌∷◌, ◌++◌, Option, none, some,
  if◌then◌else◌,
}
use wardnet_cloud.Prelude.Int.{ℤ, pos, ◌-ℤ◌, ltb_ℤ}
use wardnet_cloud.Prelude.Text.{Str, codes, same, split}
use wardnet_cloud.Prelude.Decimal.{parse_i64}
use wardnet_cloud.Prelude.Table.{exists}
use wardnet_cloud.Billing.Types.{StripeEvent}
use wardnet_cloud.Billing.Run.{BillingError, invalid_request, Outcome, ok, err, World, Run}
use mathlib.Core.Option

abbrev pub signature_tolerance_secs : ℤ
signature_tolerance_secs = pos 300

abbrev pub cons_key : ℕ → Option (Str × Str) → Option (Str × Str)
cons_key c none = none
cons_key c (some (key, value)) = some (c ∷ key, value)

unfoldable pub split_once : ℕ → Str → Option (Str × Str)
split_once sep [] = none
split_once sep (c ∷ s) =
    let rest = split_once sep s in if c == sep then some ([], s) else cons_key c rest

-- `(now - t).abs() <= tolerance`, as two comparisons.
abbrev pub in_tolerance : ℤ → ℤ → Bool
in_tolerance now t =
    not (ltb_ℤ signature_tolerance_secs (now -ℤ t) || ltb_ℤ signature_tolerance_secs (t -ℤ now))

-- What is collected from the parts of the header: the timestamp of the last `t`, and every `v1`.
pub record Header : Type 0 where
  pub timestamp : Option ℤ
  pub signatures : List Str

module _ (trim : Str → Str) where
  unfoldable pub with_field : Option (Str × Str) → Header → Header
  with_field none h = h
  with_field (some (key, value)) h =
      if same (trim key) (codes "t")
      then record h { timestamp = parse_i64 (trim value) }
      else if same (trim key) (codes "v1")
      then record h { signatures = h.signatures ++ trim value ∷ [] }
      else h

  unfoldable pub collect : List Str → Header → Header
  unfolding with_field
  collect [] h = h
  collect (part ∷ parts) h = collect parts (with_field (split_once b'=' part) h)

module _ (trim : Str → Str) (decode_hex : Str → Option (List ℕ))
    (hmac_verifies : ℤ → Str → List ℕ → Bool) where
  abbrev pub matches : ℤ → Str → Str → Bool
  matches t payload sig = elim (decode_hex sig) [
    | none ↦ false
    | some bytes ↦ hmac_verifies t payload bytes
  ]

  abbrev pub verify_header : Str → ℤ → Option ℤ → List Str → Bool
  verify_header payload now none signatures = false
  verify_header payload now (some t) signatures =
      if exists (matches t payload) signatures then in_tolerance now t else false

  unfoldable pub verify_signature : Str → Str → ℤ → Bool
  unfolding collect
  verify_signature payload sig_header now =
      let h = collect trim (split b',' sig_header) (record { timestamp = none; signatures = [] }) in
      verify_header payload now h.timestamp h.signatures

  unfoldable pub construct_event : (Str → Option StripeEvent) → Str → Str → ℤ → Option StripeEvent
  unfolding verify_signature
  construct_event parse_event payload sig_header now =
      if verify_signature payload sig_header now then parse_event payload else none

  applied : {S : Type 0} → (StripeEvent → Run S (Unit {0})) → Option StripeEvent → Run S (Unit {0})
  applied apply none w = (err (invalid_request "invalid Stripe webhook"), w)
  applied apply (some event) w = apply event w

  unfoldable pub handle_webhook :
      {S : Type 0}
      → (StripeEvent → Run S (Unit {0}))
      → (Str → Option StripeEvent)
      → Str
      → Str
      → ℤ
      → Run S (Unit {0})
  unfolding construct_event applied
  handle_webhook apply parse_event payload sig_header now =
      applied apply (construct_event parse_event payload sig_header now)
