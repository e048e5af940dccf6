-- ===== src/Common/Validation.antt =====
-- crates/common/src/validation.rs: what a name and a list of ACME values may be.
-- Names are texts of bytes. `name.len()` counts bytes, and a character that takes more than one byte
-- has only bytes above 127, so the test on characters is one on bytes. base64 decoding is the
-- argument `decode` of `validate_public_key`.
pub mod Names
use wardnet_cloud.Prelude.{
  ℕ, suc, String, Bool, true, false, not, ◌&&◌, ◌||◌, ◌==◌, leb, List, [], ◌∷◌, ◌++◌, Option, none,
  some, if◌then◌else◌, length,
}
use wardnet_cloud.Prelude.Text.{Str, codes, same, contains}

abbrev pub max_acme_values : ℕ
max_acme_values = 4

abbrev pub max_acme_value_len : ℕ
max_acme_value_len = 255

abbrev pub reserved_names : List Str
reserved_names =
    codes "www"
    ∷ codes "mail"
    ∷ codes "api"
    ∷ codes "ddns"
    ∷ codes "my"
    ∷ codes "admin"
    ∷ codes "bridge"
    ∷ codes "static"
    ∷ codes "wildcard"
    ∷ codes "wardnet"
    ∷ codes "support"
    ∷ codes "help"
    ∷ codes "ns"
    ∷ codes "ns1"
    ∷ codes "ns2"
    ∷ codes "ftp"
    ∷ codes "smtp"
    ∷ codes "imap"
    ∷ codes "pop3"
    ∷ codes "us"
    ∷ codes "eu"
    ∷ []

abbrev pub hyphen : ℕ
hyphen = 45

-- 'a'..='z' | '0'..='9' | '-'.
abbrev pub is_name_char : ℕ → Bool
is_name_char c = (leb 97 c && leb c 122) || (leb 48 c && leb c 57) || c == hyphen

unfoldable pub all_name_chars : Str → Bool
all_name_chars [] = true
all_name_chars (c ∷ s) = is_name_char c && all_name_chars s

unfoldable pub starts_with_hyphen : Str → Bool
starts_with_hyphen [] = false
starts_with_hyphen (c ∷ s) = c == hyphen

unfoldable pub ends_with_hyphen : Str → Bool
ends_with_hyphen [] = false
ends_with_hyphen (c ∷ []) = c == hyphen
ends_with_hyphen (c ∷ d ∷ s) = ends_with_hyphen (d ∷ s)

unfoldable pub is_reserved : Str → Bool
is_reserved name = contains name reserved_names

abbrev pub in_length : Str → Bool
in_length name = leb 3 (length name) && leb (length name) 32

unfoldable pub is_valid_name : Str → Bool
is_valid_name name =
    if not (in_length name)
    then false
    else if starts_with_hyphen name || ends_with_hyphen name
    then false
    else if not (all_name_chars name)
    then false
    else not (is_reserved name)

-- `Result<T, ApiError>` of these functions: every error is a `BadRequest` with its message.
pub data Checked {ℓ} (A : Type ℓ) : Type ℓ where
  ok : A → Checked A
  bad_request : Str → Checked A

unfoldable pub validate_name : Str → Checked (Unit {0})
validate_name name =
    if not (in_length name)
    then bad_request (codes "name must be between 3 and 32 characters")
    else if starts_with_hyphen name || ends_with_hyphen name
    then bad_request (codes "name must not start or end with a hyphen")
    else if not (all_name_chars name)
    then bad_request (codes "name may only contain lowercase letters, digits, and hyphens")
    else if is_reserved name
    then bad_request (codes "'" ++ name ++ codes "' is a reserved name")
    else ok tt

of_32 : List ℕ → Checked (List ℕ)
of_32 bytes =
    if length bytes == 32
    then ok bytes
    else bad_request (codes "public_key must be a base64-encoded Ed25519 key (32 bytes)")

unfoldable pub validate_public_key : (Str → Option (List ℕ)) → Str → Checked (List ℕ)
unfolding of_32
validate_public_key decode public_key = by_decoded (decode public_key)
  where
    by_decoded : Option (List ℕ) → Checked (List ℕ)
    by_decoded none = bad_request (codes "public_key is not valid base64")
    by_decoded (some bytes) = of_32 bytes

-- The first value over the limit, `values.iter().find(…)`.
unfoldable pub find_long : List Str → Option Str
find_long [] = none
find_long (v ∷ vs) = if leb (suc max_acme_value_len) (length v) then some v else find_long vs

by_long : Option Str → Checked (Unit {0})
by_long none = ok tt
by_long (some v) = bad_request (codes "challenge value exceeds 255 characters")

-- The message on a value that is too long also has its length, which is left out.
unfoldable pub validate_acme_values : List Str → Checked (Unit {0})
unfolding by_long
validate_acme_values [] =
    bad_request (codes "values must contain at least one challenge value (clear via DELETE)")
validate_acme_values (v ∷ vs) =
    if leb (suc max_acme_values) (length (v ∷ vs))
    then bad_request (codes "at most 4 challenge values may be set at once")
    else by_long (find_long (v ∷ vs))
