-- ===== src/Common/Auth/Payload.antt =====
-- What a signature covers: the canonical payload tells every part of the request apart.
use wardnet_cloud.Prelude.{ℕ, ◌≤◌, ◌≡◌, ◌≢◌, refl, [], ◌∷◌, ◌++◌, arith, All, ◌<◌}
use wardnet_cloud.Prelude.Decimal.{show_i64, show_i64-above, show_i64_injective}
use wardnet_cloud.Prelude.Int.{ℤ}
use wardnet_cloud.Prelude.Text.{Str}
use wardnet_cloud.Common.Auth.{canonical_request_payload}

abbrev pub Without : ℕ → Str → Type 0
Without c s = All (λ b. b ≢ c) s

-- Two texts that agree up to a separator that neither part before it has.
split_unique :
    (c : ℕ) (a a' b b' : Str)
    → Without c a
    → Without c a'
    → a ++ (c ∷ b) ≡ a' ++ (c ∷ b')
    → (a ≡ a') × (b ≡ b')
split_unique c [] [] b b' h h' e = (refl, ground arith)
split_unique c [] (x ∷ a') b b' h h' e = absurd (h'.0 (ground arith))
split_unique c (x ∷ a) [] b b' h h' e = absurd (h.0 (ground arith))
split_unique c (x ∷ a) (y ∷ a') b b' h h' e =
    let (same, rest) = split_unique c a a' b b' h.1 h'.1 (ground arith) in
    (ground (arith, same), rest)

low_missing : (c : ℕ) (s : Str) → c < 45 → All (λ b. 45 ≤ b) s → Without c s
low_missing c [] low h = tt
low_missing c (b ∷ s) low h = ((λ e. absurd (omega (arith, h.0, e))), low_missing c s low h.1)

-- Requests with the same canonical payload have the same method, path, timestamp and body hash, where
-- neither the methods nor the paths have a line break (HTTP allows none in them).
pub canonical_request_payload_injective :
    (method method' path path' : Str) (timestamp timestamp' : ℤ) (hash hash' : Str)
    → Without 10 method
    → Without 10 method'
    → Without 10 path
    → Without 10 path'
    → canonical_request_payload method path timestamp hash
      ≡ canonical_request_payload method' path' timestamp' hash'
    → (method ≡ method') × (path ≡ path') × (timestamp ≡ timestamp') × (hash ≡ hash')
unfolding canonical_request_payload
canonical_request_payload_injective m m' p p' t t' h h' wm wm' wp wp' e =
    let (same_m, rest) = split_unique 10 m m' _ _ wm wm' e in
    let (same_p, rest') = split_unique 10 p p' _ _ wp wp' rest in
    let (same_t, same_h) =
      split_unique 10 (show_i64 t) (show_i64 t') h h'
        (low_missing 10 (show_i64 t) (omega arith) (show_i64-above t))
        (low_missing 10 (show_i64 t') (omega arith) (show_i64-above t')) rest' in
    (same_m, same_p, show_i64_injective t t' same_t, same_h)
