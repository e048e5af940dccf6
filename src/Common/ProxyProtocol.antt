-- ===== src/Common/ProxyProtocol.antt =====
-- crates/common/src/proxy_protocol.rs: the header line that the proxy puts before a connection, and
-- the address of a client. A connection is the list of its bytes, whose end is the end of the stream.
-- An address is a value of a type that is given, with what the standard library says of it.
pub mod RoundTrip
use wardnet_cloud.Prelude.{
  ℕ, String, Bool, true, false, ◌&&◌, ◌||◌, ◌==◌, ltb, List, [], ◌∷◌, ◌++◌, Option, none, some,
  if◌then◌else◌, length,
}
use wardnet_cloud.Prelude.Text.{Str, codes, same, split, strip_prefix}
use wardnet_cloud.Prelude.Bytes.{◌>>=◌, is_utf8}

abbrev pub signature : Str
signature = codes "PROXY "

abbrev pub max_header_len : ℕ
max_header_len = 107

abbrev pub crlf : Str
crlf = 13 ∷ 10 ∷ []

unfoldable pub ends_with_crlf : Str → Bool
ends_with_crlf [] = false
ends_with_crlf (c ∷ s) = same (c ∷ s) crlf || ends_with_crlf s

-- The bytes up to the end of the line, one by one, and the bytes that stay in the stream.
unfoldable pub read_line : Str → Str → Option (Str × Str)
unfolding ends_with_crlf
read_line line [] = none
read_line line (b ∷ bytes) =
    let line' = line ++ b ∷ [] in
    let rest = read_line line' bytes in
    if ends_with_crlf line'
    then some (line', bytes)
    else if ltb max_header_len (length line')
    then none
    else rest

unfoldable pub strip_crlf : Str → Option Str
strip_crlf [] = none
strip_crlf (c ∷ s) =
    let rest = strip_crlf s in
    if same (c ∷ s) crlf then some [] else elim rest [ none ↦ none | some r ↦ some (c ∷ r) ]

module _ {Ip : Type 0} (parse_ip : Str → Option Ip) (parse_u16 : Str → Option ℕ) where
  -- The source address and port; the destination address between them is skipped.
  source : List Str → Option (Option (Ip × ℕ))
  source (src_ip ∷ dst_ip ∷ src_port ∷ rest) = do
    ip ← parse_ip src_ip
    port ← parse_u16 src_port
    some (some (ip, port))
  source _ = none

  after_signature : List Str → Option (Option (Ip × ℕ))
  unfolding source
  after_signature (family ∷ rest) =
      if same family (codes "TCP4") || same family (codes "TCP6")
      then source rest
      else if same family (codes "UNKNOWN")
      then some none
      else none
  after_signature [] = none

  parse_parts : List Str → Option (Option (Ip × ℕ))
  unfolding after_signature
  parse_parts (first ∷ rest) = if same first (codes "PROXY") then after_signature rest else none
  parse_parts [] = none

  unfoldable pub parse_v1 : Str → Option (Option (Ip × ℕ))
  unfolding parse_parts strip_crlf
  parse_v1 line = do
    text ← strip_crlf line
    if is_utf8 text then parse_parts (split b' ' text) else none

  unfoldable pub read_required : Str → Option (Option (Ip × ℕ) × Str)
  unfolding read_line parse_v1
  read_required stream = do
    read ← read_line [] stream
    address ← parse_v1 read.0
    some (address, read.1)

  pub data Inspected : Type 0 where
    header : Option (Ip × ℕ) → Inspected
    direct : Inspected

  -- The signature is peeked at: nothing is consumed where it is not there.
  unfoldable pub read_optional : Str → Option (Inspected × Str)
  unfolding read_required
  read_optional stream = elim (strip_prefix signature stream) [
    | none ↦ some (direct, stream)
    | some rest ↦ do read ← read_required stream; some (header read.0, read.1)
  ]

abbrev head : List Str → Str
head [] = []
head (part ∷ parts) = part

-- The address of a client, as a text: a forwarded one counts only from a loopback peer.
unfoldable pub client_ip : (Str → Str) → Bool → Option Str → Str → Str
client_ip trim is_loopback none addr = addr
client_ip trim is_loopback (some forwarded_for) addr =
    if is_loopback then trim (head (split b',' forwarded_for)) else addr
