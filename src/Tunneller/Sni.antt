-- ===== src/Tunneller/Sni.antt =====
-- crates/tunneller/src/sni/mod.rs: the slug that a TLS ClientHello asks for.
-- The outer `Option` of a parser is the program's panic: `none` is a read out of range, or the loop
-- over the extensions running out of fuel. `Panics` shows that neither happens.
pub mod Panics
pub mod Slug
use wardnet_cloud.Prelude.{
  ℕ, zero, suc, ◌+◌, ◌-◌, ◌≡◌, Bool, true, false, not, ◌&&◌, ◌==◌, leb, ltb, List, [], ◌∷◌, ◌++◌,
  Option, none, some, if◌then◌else◌, length, get_elem?, take, drop,
}
use wardnet_cloud.Prelude.Bytes.{◌>>=◌, slice, u16_at, u24_at, is_utf8}
use wardnet_cloud.Prelude.Text.{Str, same}
use wardnet_cloud.Common.Validation.{is_valid_name}

-- `str::strip_suffix`.
unfoldable pub strip_suffix : Str → Str → Option Str
strip_suffix suffix s =
    let n = length s - length suffix in
    if leb (length suffix) (length s) && same (drop n s) suffix then some (take n s) else none

abbrev pub dot : ℕ
dot = 46

unfoldable pub has_byte : ℕ → Str → Bool
has_byte c [] = false
has_byte c (b ∷ s) = if b == c then true else has_byte c s

-- `rsplit(sep).next()`, which always has a part: what follows the last separator.
unfoldable pub last_part : ℕ → Str → Str
last_part sep [] = []
last_part sep (c ∷ s) =
    let rest = last_part sep s in if has_byte sep s then rest else if c == sep then s else c ∷ s

valid_only : Str → Option Str
valid_only slug = if is_valid_name slug then some slug else none

unfoldable pub extract_slug : Str → Str → Option Str
unfolding valid_only
extract_slug hostname subdomain_dot_suffix = do
  prefix ← strip_suffix subdomain_dot_suffix hostname
  valid_only (last_part dot prefix)

abbrev pub Parsed : Type 0
Parsed = Option (Option Str)

-- The body of the SNI extension: list_len(2) + entry_type(1) + name_len(2) + name.
unfoldable pub server_name : List ℕ → Parsed
server_name sni_data = if ltb (length sni_data) 5 then some none else (do
  entry_type ← get_elem? sni_data 2
  if not (entry_type == 0) then some none else (do
    name_len ← u16_at 3 sni_data
    if ltb (length sni_data) (5 + name_len) then some none else (do
      name ← slice 5 (5 + name_len) sni_data
      some (if is_utf8 name then some name else none))))

-- The `while` loop, from offset `i`; each round goes at least four bytes on.
unfoldable pub extensions : ℕ → ℕ → List ℕ → Parsed
extensions zero i exts = if leb (i + 4) (length exts) then none else some none
extensions (suc fuel) i exts =
    if leb (i + 4) (length exts)
    then (do
      ext_type ← u16_at i exts
      elen ← u16_at (i + 2) exts
      if ltb (length exts) (i + 4 + elen)
          then some none
          else if ext_type == 0
          then (do sni_data ← slice (i + 4) (i + 4 + elen) exts; server_name sni_data)
          else extensions fuel (i + 4 + elen) exts)
    else some none

unfoldable pub extensions_of : ℕ → List ℕ → Parsed
extensions_of pos hello = if ltb (length hello) (pos + 2) then some none else (do
  ext_len ← u16_at pos hello
  if ltb (length hello) (pos + 2 + ext_len)
      then some none
      else (do exts ← slice (pos + 2) (pos + 2 + ext_len) hello; extensions (length exts) 0 exts))

unfoldable pub compression_methods : ℕ → List ℕ → Parsed
compression_methods pos hello =
    if ltb (length hello) (pos + 1)
    then some none
    else (do n ← get_elem? hello pos; extensions_of (pos + (1 + n)) hello)

unfoldable pub cipher_suites : ℕ → List ℕ → Parsed
cipher_suites pos hello =
    if ltb (length hello) (pos + 2)
    then some none
    else (do n ← u16_at pos hello; compression_methods (pos + (2 + n)) hello)

-- version(2) + random(32) + session_id_len(1).
unfoldable pub client_hello : List ℕ → Parsed
client_hello hello =
    if ltb (length hello) 35
    then some none
    else (do session_id_len ← get_elem? hello 34; cipher_suites (35 + session_id_len) hello)

-- msg_type(1) + length(3).
unfoldable pub handshake : List ℕ → Parsed
handshake hs = if ltb (length hs) 4 then some none else (do
  msg_type ← get_elem? hs 0
  if not (msg_type == 1) then some none else (do
    hs_body_len ← u24_at 1 hs
    if ltb (length hs) (4 + hs_body_len)
        then some none
        else (do hello ← slice 4 (4 + hs_body_len) hs; client_hello hello)))

-- content_type(1) + version(2) + length(2).
unfoldable pub parse_sni : List ℕ → Parsed
parse_sni buf = if ltb (length buf) 5 then some none else (do
  content_type ← get_elem? buf 0
  if not (content_type == 22) then some none else (do
    record_len ← u16_at 3 buf
    if ltb (length buf) (5 + record_len)
        then some none
        else (do hs ← slice 5 (5 + record_len) buf; handshake hs)))
