-- ===== src/Common/Auth/Decisions.antt =====
-- Who gets through `authenticate`, and that a signed request gets through once.
use wardnet_cloud.Prelude.{
  ℕ, ◌≡◌, ◌≢◌, refl, Bool, true, false, List, [], Option, none, some, arith, All, Bool-cases,
  Option-cases, inl, inr, subst,
}
use wardnet_cloud.Prelude.Bytes.{◌>>=◌}
use wardnet_cloud.Prelude.Decimal.{parse_i64}
use wardnet_cloud.Prelude.Int.{ℤ, ◌+ℤ◌, ◌<ℤ◌, pos, negsuc, ◌-ℤ◌, ◌≤ℤ◌, int_laws}
use wardnet_cloud.Prelude.Text.{Str}
use wardnet_cloud.Contract.License.{Time}
use wardnet_cloud.Common.ReplayCache.{ReplayCache, replay_window_secs, contains_or_insert}
use wardnet_cloud.Common.ReplayCache.Window.{Call, calls, replay_refused, forgotten, fresh_key}
use wardnet_cloud.Common.Auth.{
  daemon, user, Claims, Crypto, CallerType, ServiceIdentity, Caller, service_caller, daemon_caller,
  user_caller, Request, canonical_request_payload, replay_key, in_window, pop_public_key,
  verify_signature_bytes, verify_pop, or_empty, remember, verify_pop_request, bearer,
}

-- A signed request that stands: its timestamp is in the window, the signature of the canonical
-- payload verifies under the key, and the replay cache had not seen it.
pub record Signed (crypto : Crypto) (r : Request) (key : List ℕ) (subject : Str) (now later : Time)
    (cache : ReplayCache) : Type 0 where
  pub timestamp : ℤ
  pub parsed : (r.timestamp >>= parse_i64) ≡ some timestamp
  pub on_time : in_window now timestamp ≡ true
  pub verified :
      verify_signature_bytes crypto key
        (canonical_request_payload r.method r.path_and_query timestamp (crypto.sha256_hex r.body))
        (or_empty r.signature)
      ≡ true
  pub first_use :
      (contains_or_insert (replay_key subject timestamp (crypto.sha256_hex r.body)) later cache).0
      ≡ false

module _ (crypto : Crypto) (r : Request) (key : List ℕ) (subject : Str) (now later : Time)
    (cache : ReplayCache) where
  abbrev hash : Str
  hash = crypto.sha256_hex r.body

  abbrev verifies_at : ℤ → Bool
  verifies_at timestamp =
      verify_signature_bytes crypto key
        (canonical_request_payload r.method r.path_and_query timestamp hash) (or_empty r.signature)

  verify_pop_request-Signed :
      (verify_pop_request crypto r key subject now later cache).0 ≡ none
      → Signed crypto r key subject now later cache
  unfolding verify_pop_request verify_pop remember
  verify_pop_request-Signed e = elim (Option-cases (r.timestamp >>= parse_i64)) [
    | inl missing ↦ absurd (ground arith)
    | inr (timestamp, parsed) ↦ elim (Bool-cases (in_window now timestamp)) [
      | inr late ↦ absurd (ground arith)
      | inl on_time ↦ elim (Bool-cases (verifies_at timestamp)) [
        | inr forged ↦ absurd (ground arith)
        | inl verified ↦ record {
          timestamp = timestamp;
          parsed = parsed;
          on_time = on_time;
          verified = verified;
          first_use = ground arith;
        }
      ]
    ]
  ]

  -- What a request that stands leaves in the cache.
  verify_pop_request_cache :
      (v : Signed crypto r key subject now later cache)
      → (verify_pop_request crypto r key subject now later cache).1
        ≡ (contains_or_insert (replay_key subject v.timestamp hash) later cache).1
  unfolding verify_pop_request verify_pop remember
  verify_pop_request_cache v = rw (v.parsed, v.on_time, v.verified) refl

  -- A request whose replay key is in the cache does not stand, whenever it is checked.
  replayed_fails :
      (timestamp : ℤ)
      → (r.timestamp >>= parse_i64) ≡ some timestamp
      → (contains_or_insert (replay_key subject timestamp hash) later cache).0 ≡ true
      → (verify_pop_request crypto r key subject now later cache).0 ≢ none
  unfolding verify_pop_request verify_pop remember
  replayed_fails timestamp parsed seen e = elim (Bool-cases (in_window now timestamp)) [
    | inr late ↦ absurd (ground arith)
    | inl on_time ↦ elim (Bool-cases (verifies_at timestamp)) [
      | inr forged ↦ absurd (ground arith)
      | inl verified ↦ absurd (ground arith)
    ]
  ]

-- A signed request stands only once: once it stood, the same request of the same subject is refused
-- at every reading of the clock less than 120 seconds later, whatever the cache was asked meanwhile
-- at such readings.
pub verify_pop_request_once :
    (crypto : Crypto) (r : Request) (key : List ℕ) (subject : Str) (now later now' later' : Time)
    (between : List Call) (cache : ReplayCache)
    → (verify_pop_request crypto r key subject now later cache).0 ≡ none
    → All (λ c. c.now <ℤ later +ℤ replay_window_secs) between
    → later' <ℤ later +ℤ replay_window_secs
    → (verify_pop_request crypto r key subject now' later'
        (calls between (verify_pop_request crypto r key subject now later cache).1)).0
      ≢ none
verify_pop_request_once crypto r key subject now later now' later' between cache stands meanwhile
      soon =
    let v = verify_pop_request-Signed crypto r key subject now later cache stands in
    replayed_fails crypto r key subject now' later' _ v.timestamp v.parsed (
      rw (verify_pop_request_cache crypto r key subject now later cache v) (
        replay_refused (replay_key subject v.timestamp (crypto.sha256_hex r.body)) later later'
          between cache v.first_use meanwhile soon))

within :
    (now timestamp : ℤ)
    → now -ℤ timestamp ≤ℤ pos 60
    → negsuc 59 ≤ℤ now -ℤ timestamp
    → in_window now timestamp ≡ true
within now timestamp h k = ground arith

-- At the edge of the window a replay passes: a timestamp 60 seconds ahead is in the window at once and
-- still 120 seconds later, and a key that is used at both readings, and not in between, is taken for
-- new both times.
pub replay_at_edge :
    (key : Str) (first : Time)
    → let timestamp = first +ℤ pos 60 in
      (in_window first timestamp ≡ true)
      × (in_window (first +ℤ replay_window_secs) timestamp ≡ true)
      × ((contains_or_insert key first []).0 ≡ false)
      × ((contains_or_insert key
            (first +ℤ replay_window_secs)
            (contains_or_insert key first []).1).0
          ≡ false)
replay_at_edge key first = (
  within first (first +ℤ pos 60) (omega int_laws) (omega int_laws),
  within (first +ℤ replay_window_secs) (first +ℤ pos 60) (omega int_laws) (omega int_laws),
  fresh_key key first,
  forgotten key first,
)

-- The claims of the token that a request carries.
abbrev pub token_claims : Crypto → Request → Option Claims
token_claims crypto r = bearer r >>= crypto.decode_token

-- Why a caller may pass.
pub data Entitled (crypto : Crypto) (allowed : CallerType) (r : Request) (now later : Time)
    (cache : ReplayCache) : Caller → Type 0 where
  by_mesh :
      (s : ServiceIdentity)
      → r.peer ≡ some s
      → allowed.service_bit ≡ true
      → Entitled crypto allowed r now later cache (service_caller s)
  by_possession :
      (claims : Claims) (key : List ℕ)
      → token_claims crypto r ≡ some claims
      → claims.pt ≡ daemon
      → allowed.daemon_bit ≡ true
      → pop_public_key crypto claims ≡ some key
      → Signed crypto r key claims.sub now later cache
      → Entitled crypto allowed r now later cache (
          daemon_caller
            (record { tenant_id = claims.tid; public_key = claims.sub; network = claims.net }))
  by_token :
      (claims : Claims)
      → token_claims crypto r ≡ some claims
      → claims.pt ≡ user
      → allowed.user_bit ≡ true
      → Entitled crypto allowed r now later cache (
          user_caller
            (record { tenant_id = claims.tid; user_id = claims.sub; network = claims.net }))

module _ (crypto : Crypto) (allowed : CallerType) (r : Request) (now later : Time)
    (cache : ReplayCache) (caller : Caller) where
  abbrev Passes : Type 0
  Passes = Entitled crypto allowed r now later cache caller

  abbrev same_caller :
      {a : Caller} → a ≡ caller → Entitled crypto allowed r now later cache a → Passes
  same_caller e p = subst (λ c. Entitled crypto allowed r now later cache c) e p
