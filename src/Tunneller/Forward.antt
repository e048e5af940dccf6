-- ===== src/Tunneller/Forward.antt =====
-- crates/tunneller/src/mesh/forward.rs: the link between the nodes.
-- A stream is the list of the bytes that it will yield before it ends; a read that the bytes do not
-- suffice for is the error of `read_exact`.
pub mod RoundTrip
use wardnet_cloud.Prelude.{
  ℕ, suc, ◌/◌, ◌%◌, ◌+◌, ◌*◌, String, Bool, true, false, ◌&&◌, ◌||◌, ◌==◌, leb, ltb, List, [], ◌∷◌,
  ◌++◌, Option, none, some, if◌then◌else◌, length, take, drop, str_eq,
}
use wardnet_cloud.Prelude.Bytes.{◌>>=◌, is_utf8}
use wardnet_cloud.Prelude.Text.{Str}
use wardnet_cloud.Tunneller.Registry.{Registry, ForwardRequest}
use wardnet_cloud.Tunneller.Registry

abbrev pub max_slug_len : ℕ
max_slug_len = 64

-- The identity in a peer's certificate.
pub record SpiffeId : Type 0 where
  pub trust_domain : String
  pub env : String
  pub scope : String
  pub service : String

unfoldable pub peer_allowed_on_forward : SpiffeId → String → Bool
peer_allowed_on_forward peer own_scope =
    str_eq peer.service "tunneller" && str_eq peer.scope own_scope

-- `to_be_bytes` of a `u16`.
abbrev pub u16_to_be : ℕ → List ℕ
u16_to_be n = n / 256 ∷ n % 256 ∷ []

-- The bytes written, or none if the slug is refused.
unfoldable pub write_preamble : Str → ℕ → Option (List ℕ)
write_preamble slug dest_port =
    if ltb max_slug_len (length slug)
    then none
    else some (u16_to_be (length slug) ++ slug ++ u16_to_be dest_port)

-- What was read, and the bytes that are left.
unfoldable pub read_exact : ℕ → List ℕ → Option (List ℕ × List ℕ)
read_exact n stream = if leb n (length stream) then some (take n stream, drop n stream) else none

from_be : List ℕ → ℕ
from_be (a ∷ b ∷ []) = a * 256 + b
from_be _ = 0

-- The slug and the port, after the length.
read_slug : ℕ → List ℕ → Option ((Str × ℕ) × List ℕ)
unfolding from_be
read_slug len stream = do
  (slug, stream) ← read_exact len stream
  (port_buf, stream) ← read_exact 2 stream
  if is_utf8 slug then some ((slug, from_be port_buf), stream) else none

unfoldable pub read_preamble : List ℕ → Option ((Str × ℕ) × List ℕ)
unfolding from_be read_slug
read_preamble stream = do
  (len_buf, stream) ← read_exact 2 stream
  let len = from_be len_buf
  if (len == 0) || ltb max_slug_len len then none else read_slug len stream

hand_over : ℕ → Option ((Str × ℕ) × List ℕ) → Registry → Registry
hand_over stream none s = s
hand_over stream (some ((slug, dest_port), rest)) s =
    (Registry.forward slug (record { stream = stream; dest_port = dest_port }) s).1

-- A connection whose handshake has ended, from a peer with the identity given, if it shows one. The
-- result of `forward` is only logged.
unfoldable pub accept_forward : Option SpiffeId → String → ℕ → List ℕ → Registry → Registry
unfolding hand_over
accept_forward none own_scope stream bytes s = s
accept_forward (some peer) own_scope stream bytes s =
    if peer_allowed_on_forward peer own_scope then hand_over stream (read_preamble bytes) s else s
