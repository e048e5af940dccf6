-- ===== src/Common/Tests.antt =====
-- The theorems on the shared parts at concrete inputs.
use wardnet_cloud.Common.ProxyProtocol.{read_required}
use wardnet_cloud.Common.ProxyProtocol.RoundTrip.{without, read_required-header}
use wardnet_cloud.Prelude.{◌++◌}
use wardnet_cloud.Prelude.Bytes.{utf8_from}
use wardnet_cloud.Prelude.{
  ◌≡◌, refl, true, false, [], ◌∷◌, arith, ℕ, zero, suc, List, ◌≢◌, some, none,
}
use wardnet_cloud.Prelude.Int.{pos, ◌+ℤ◌, ◌<ℤ◌, ◌-ℤ◌}
use wardnet_cloud.Prelude.Table.{select, exists}
use wardnet_cloud.Prelude.Text.{Str, codes}
use wardnet_cloud.Common.ReplayCache.{contains_or_insert}
use wardnet_cloud.Common.ReplayCache.Window.{calls, replay_refused}
use wardnet_cloud.Common.Auth.{
  daemon, Claims, Crypto, CallerType, Caller, daemon_caller, Request, verify_pop_request,
  verify_pop, verify_signature_bytes,
}
use wardnet_cloud.Common.Auth.Payload.{Without, canonical_request_payload_injective}
use wardnet_cloud.Common.Auth.Decisions.{verify_pop_request_once, replay_at_edge}
use wardnet_cloud.Prelude.Decimal.{parse_i64, parse_digits}

abbrev key : Str
key = codes "k1:1000:ab"

first_use : (contains_or_insert key (pos 1000) []).0 ≡ false
unfolding contains_or_insert select exists
first_use = refl

between : pos 1060 <ℤ pos 1000 +ℤ pos 120
unfolding ◌+ℤ◌
between = omega arith

in_time : pos 1119 <ℤ pos 1000 +ℤ pos 120
unfolding ◌+ℤ◌
in_time = omega arith

replay_refused_example :
    (contains_or_insert key (pos 1119) (
      calls
        (record { key = codes "k2:1001:cd"; now = pos 1060 } ∷ [])
        (contains_or_insert key (pos 1000) []).1)).0
    ≡ true
replay_refused_example =
    replay_refused key (pos 1000) (pos 1119)
      (record { key = codes "k2:1001:cd"; now = pos 1060 } ∷ []) [] first_use (between, tt) in_time

get_lines : Without 10 (codes "GET")
get_lines = (
  (λ e. absurd (omega (arith, e))),
  ((λ e. absurd (omega (arith, e))), ((λ e. absurd (omega (arith, e))), tt)),
)

path_lines : Without 10 (codes "/v")
path_lines = ((λ e. absurd (omega (arith, e))), ((λ e. absurd (omega (arith, e))), tt))

canonical_request_payload_injective_example : codes "GET" ≡ codes "GET"
canonical_request_payload_injective_example =
    (canonical_request_payload_injective (codes "GET") (codes "GET") (codes "/v") (codes "/v")
      (pos 1000) (pos 1000) (codes "ab") (codes "ab") get_lines get_lines path_lines path_lines
      refl).0

abbrev zeros : ℕ → List ℕ
zeros zero = []
zeros (suc n) = 0 ∷ zeros n

abbrev claims : Claims
claims = record {
  iss = codes "tenants";
  tid = codes "t1";
  pt = daemon;
  sub = codes "key";
  net = some (codes "n1");
  cnf = some (codes "key");
  aud = codes "ddns" ∷ [];
  iat = pos 1000;
  exp = pos 2000;
}

abbrev crypto : Crypto
crypto = record {
  decode_token = λ token. some claims;
  decode_base64 = λ text. some (zeros 64);
  decode_key = λ text. some (zeros 32);
  sha256_hex = λ body. codes "ab";
  verifies = λ key message signature. true;
}

abbrev request : Request
request = record {
  method = codes "GET";
  path_and_query = codes "/v1/ip";
  peer = none;
  authorization = some (codes "Bearer x");
  timestamp = some (codes "1000");
  signature = some (codes "sig");
  body = [];
}

stands :
    (verify_pop_request crypto request (zeros 32) (codes "key") (pos 1010) (pos 1010) []).0 ≡ none
unfolding verify_pop_request parse_i64 parse_digits verify_pop ◌-ℤ◌ verify_signature_bytes
    contains_or_insert exists select
stands = refl

soon : pos 1100 <ℤ pos 1010 +ℤ pos 120
unfolding ◌+ℤ◌
soon = omega arith

verify_pop_request_once_example :
    (verify_pop_request crypto request (zeros 32) (codes "key") (pos 1050) (pos 1100) (
      calls []
        (verify_pop_request crypto request (zeros 32) (codes "key") (pos 1010) (pos 1010) []).1)).0
    ≢ none
verify_pop_request_once_example =
    verify_pop_request_once crypto request (zeros 32) (codes "key") (pos 1010) (pos 1010) (pos 1050)
      (pos 1100) [] [] stands tt soon

abbrev daemons : CallerType
daemons = record { service_bit = false; daemon_bit = true; user_bit = false }

abbrev caller : Caller
caller =
    daemon_caller
      (record { tenant_id = codes "t1"; public_key = codes "key"; network = some (codes "n1") })

replay_at_edge_example :
    (contains_or_insert key (pos 1000 +ℤ pos 120) (contains_or_insert key (pos 1000) []).1).0
    ≡ false
replay_at_edge_example = (replay_at_edge key (pos 1000)).3

read_required-header_example :
    read_required
      (λ ip. some ip)
      (λ port. some 443)
      (codes "PROXY TCP4 192.0.2.7 10.0.0.1 51000 443" ++ 13 ∷ 10 ∷ (22 ∷ 3 ∷ []))
    ≡ some (some (codes "192.0.2.7", 443), 22 ∷ 3 ∷ [])
unfolding without utf8_from
read_required-header_example =
    read_required-header (λ ip. some ip) (λ port. some 443) (codes "192.0.2.7") (codes "10.0.0.1")
      (codes "51000") (codes "443") (22 ∷ 3 ∷ []) (codes "192.0.2.7") 443 refl refl refl refl
      (omega arith) refl refl refl
