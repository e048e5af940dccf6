-- ===== src/Common/Auth.antt =====
-- crates/common/src/auth/mod.rs and token/mod.rs: who a request comes from.
-- JSON Web Tokens, base64, SHA-256 and Ed25519 are third-party code: the record `Crypto` has what
-- they answer. The clock is read twice, for the window and for the replay cache. A header is what
-- `to_str` gives of it, none if it is missing or no text.
pub mod Payload
pub mod Decisions
use wardnet_cloud.Prelude.{
  ℕ, suc, Bool, true, false, not, ◌&&◌, ◌==◌, leb, ltb, List, [], ◌∷◌, ◌++◌, Option, none, some,
  if◌then◌else◌, length,
}
use wardnet_cloud.Prelude.Bytes.{◌>>=◌}
use wardnet_cloud.Prelude.Decimal.{show_i64, parse_i64}
use wardnet_cloud.Prelude.Int.{ℤ, pos, negsuc, ◌-ℤ◌, leb_ℤ}
use wardnet_cloud.Prelude.Text.{Str, codes, strip_prefix}
use wardnet_cloud.Contract.License.{Time}
use wardnet_cloud.Common.ReplayCache.{ReplayCache, contains_or_insert}

pub data PrincipalType : Type 0 where
  daemon user : PrincipalType

-- The decoder checks the issuer, the audience and the expiry; `cnf` is the text of the key.
pub record Claims : Type 0 where
  pub iss : Str
  pub tid : Str
  pub pt : PrincipalType
  pub sub : Str
  pub net : Option Str
  pub cnf : Option Str
  pub aud : List Str
  pub iat : ℤ
  pub exp : ℤ

-- The answers of the third-party code: a verified token's claims, decoded base64 (of the key's text,
-- less the white space around it, and of a signature's), the hash of a body in hexadecimal, and
-- whether a signature of a message verifies under a key.
pub record Crypto : Type 0 where
  pub decode_token : Str → Option Claims
  pub decode_base64 : Str → Option (List ℕ)
  pub sha256_hex : List ℕ → Str
  pub verifies : List ℕ → Str → List ℕ → Bool
  pub decode_key : Str → Option (List ℕ)

-- The bit set of the callers that a route accepts.
pub record CallerType : Type 0 where
  pub service_bit : Bool
  pub daemon_bit : Bool
  pub user_bit : Bool

pub record ServiceIdentity : Type 0 where
  pub trust_domain : Str
  pub env : Str
  pub scope : Str
  pub service : Str

pub record DaemonCaller : Type 0 where
  pub tenant_id : Str
  pub public_key : Str
  pub network : Option Str

pub record UserCaller : Type 0 where
  pub tenant_id : Str
  pub user_id : Str
  pub network : Option Str

pub data Caller : Type 0 where
  service_caller : ServiceIdentity → Caller
  daemon_caller : DaemonCaller → Caller
  user_caller : UserCaller → Caller

unfoldable pub tenant_id : Caller → Option Str
tenant_id (service_caller s) = none
tenant_id (daemon_caller d) = some d.tenant_id
tenant_id (user_caller u) = some u.tenant_id

pub record Request : Type 0 where
  pub method : Str
  pub path_and_query : Str
  pub peer : Option ServiceIdentity
  pub authorization : Option Str
  pub timestamp : Option Str
  pub signature : Option Str
  pub body : List ℕ

abbrev pub timestamp_window_secs : ℕ
timestamp_window_secs = 60

abbrev pub max_body_bytes : ℕ
max_body_bytes = 1048576

abbrev newline : ℕ
newline = 10

-- "{method}\n{path_and_query}\n{timestamp}\n{body_sha256_hex}".
unfoldable pub canonical_request_payload : Str → Str → ℤ → Str → Str
canonical_request_payload method path_and_query timestamp body_sha256_hex =
    method
    ++ (newline
        ∷ (path_and_query ++ (newline ∷ (show_i64 timestamp ++ (newline ∷ body_sha256_hex)))))

-- "{replay_subject}:{timestamp}:{body_hash}".
unfoldable pub replay_key : Str → ℤ → Str → Str
replay_key subject timestamp body_hash = subject ++ (58 ∷ (show_i64 timestamp ++ (58 ∷ body_hash)))

-- |now - timestamp| is at most the window; the `i128` subtraction is exact.
abbrev pub in_window : Time → ℤ → Bool
in_window now timestamp = leb_ℤ (now -ℤ timestamp) (pos 60) && leb_ℤ (negsuc 59) (now -ℤ timestamp)

pub data Rejection : Type 0 where
  payload_too_large : Rejection
  unauthorized forbidden : Str → Rejection

pub data Answer : Type 0 where
  passed : Caller → Answer
  rejected : Rejection → Answer

-- `headers.get(AUTHORIZATION)…strip_prefix("Bearer ")`.
unfoldable pub bearer : Request → Option Str
bearer r = do value ← r.authorization; strip_prefix (codes "Bearer ") value

-- `unwrap_or("")`.
abbrev pub or_empty : Option Str → Str
or_empty none = []
or_empty (some s) = s

module _ (crypto : Crypto) where
  of_length : ℕ → List ℕ → Option (List ℕ)
  of_length n bytes = if length bytes == n then some bytes else none

  unfoldable pub pop_public_key : Claims → Option (List ℕ)
  unfolding of_length
  pop_public_key claims = do cnf ← claims.cnf; bytes ← crypto.decode_key cnf; of_length 32 bytes

  unfoldable pub verify_signature_bytes : List ℕ → Str → Str → Bool
  unfolding of_length
  verify_signature_bytes key message signature_b64 =
      by_decoded (do bytes ← crypto.decode_base64 signature_b64; of_length 64 bytes)
    where
      by_decoded : Option (List ℕ) → Bool
      by_decoded none = false
      by_decoded (some signature) = crypto.verifies key message signature

  -- The hash of the body, or none on an error.
  unfoldable pub verify_pop : Str → Str → ℤ → Str → List ℕ → List ℕ → Time → Option Str
  verify_pop method path_and_query timestamp signature_b64 body key now =
      if not (in_window now timestamp)
      then none
      else if verify_signature_bytes key
          (canonical_request_payload method path_and_query timestamp (crypto.sha256_hex body))
          signature_b64
      then some (crypto.sha256_hex body)
      else none

  -- None if the request stands, else the reason that it does not.
  remember : Bool × ReplayCache → Option Str × ReplayCache
  remember (replayed, cache) = (if replayed then some (codes "replayed request") else none, cache)

  unfoldable pub verify_pop_request :
      Request → List ℕ → Str → Time → Time → ReplayCache → Option Str × ReplayCache
  unfolding remember
  verify_pop_request r key subject now later cache =
      by_timestamp (do text ← r.timestamp; parse_i64 text)
    where
      by_hash : ℤ → Option Str → Option Str × ReplayCache
      by_hash timestamp none = (some (codes "invalid request signature"), cache)
      by_hash timestamp (some body_hash) =
          remember (contains_or_insert (replay_key subject timestamp body_hash) later cache)

      by_timestamp : Option ℤ → Option Str × ReplayCache
      by_timestamp none = (some (codes "missing or invalid X-Wardnet-Timestamp"), cache)
      by_timestamp (some timestamp) =
          by_hash timestamp
            (verify_pop r.method r.path_and_query timestamp (or_empty r.signature) r.body key now)

  signed : Claims → Option Str × ReplayCache → Answer × ReplayCache
  signed claims (some reason, cache) = (rejected (unauthorized reason), cache)
  signed claims (none, cache) = (
    passed (
        daemon_caller
          (record { tenant_id = claims.tid; public_key = claims.sub; network = claims.net })),
    cache,
  )

  with_key : Request → Claims → Time → Time → ReplayCache → Option (List ℕ) → Answer × ReplayCache
  unfolding signed
  with_key r claims now later cache none = (rejected (unauthorized (codes "invalid token")), cache)
  with_key r claims now later cache (some key) =
      signed claims (verify_pop_request r key claims.sub now later cache)

  with_claims :
      CallerType
      → Request
      → Time
      → Time
      → ReplayCache
      → PrincipalType
      → Claims
      → Answer × ReplayCache
  unfolding with_key
  with_claims allowed r now later cache daemon claims =
      if not allowed.daemon_bit
      then (rejected (forbidden (codes "this endpoint does not accept daemon callers")), cache)
      else with_key r claims now later cache (pop_public_key claims)
  with_claims allowed r now later cache user claims =
      if not allowed.user_bit
      then (rejected (forbidden (codes "this endpoint does not accept user callers")), cache)
      else (
        passed (
            user_caller
              (record { tenant_id = claims.tid; user_id = claims.sub; network = claims.net })),
        cache,
      )

  with_token : CallerType → Request → Time → Time → ReplayCache → Option Str → Answer × ReplayCache
  unfolding with_claims
  with_token allowed r now later cache none =
      (rejected (unauthorized (codes "authentication required")), cache)
  with_token allowed r now later cache (some token) = by_claims (crypto.decode_token token)
    where
      by_claims : Option Claims → Answer × ReplayCache
      by_claims none = (rejected (unauthorized (codes "invalid token")), cache)
      by_claims (some claims) = with_claims allowed r now later cache claims.pt claims

  with_peer :
      CallerType
      → Request
      → Time
      → Time
      → ReplayCache
      → Option ServiceIdentity
      → Answer × ReplayCache
  unfolding with_token bearer
  with_peer allowed r now later cache none = with_token allowed r now later cache (bearer r)
  with_peer allowed r now later cache (some service) =
      if not allowed.service_bit
      then (rejected (forbidden (codes "this endpoint does not accept service callers")), cache)
      else (passed (service_caller service), cache)

  -- The caller that is stamped into the request before the handler runs, or the response instead.
  unfoldable pub authenticate :
      CallerType → Request → Time → Time → ReplayCache → Answer × ReplayCache
  unfolding with_peer
  authenticate allowed r now later cache =
      if ltb max_body_bytes (length r.body)
      then (rejected payload_too_large, cache)
      else with_peer allowed r now later cache r.peer
