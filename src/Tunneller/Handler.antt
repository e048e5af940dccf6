-- ===== src/Tunneller/Handler.antt =====
-- crates/tunneller/src/tunnel/handler.rs: the loop of `run` over one daemon's WebSocket.
-- A turn of the loop takes one event of its `select!`. A map is a list of entries with one for each
-- connection id. What the loop sends to the daemon is kept in order in `sent`, and what it passes on
-- to the streams of clients in `delivered`; whether the WebSocket task still takes a CONNECT frame is
-- part of the event, and a frame of another kind that it does not take is lost, as the code ignores
-- that failure. The end of `run` is modelled with the routing.
pub mod Pending
use wardnet_cloud.Prelude.{
  ℕ, suc, ◌+◌, ◌*◌, ◌/◌, ◌%◌, Bool, true, false, not, ◌&&◌, ◌||◌, ◌==◌, leb, ltb, List, [], ◌∷◌,
  ◌++◌, Option, none, some, if◌then◌else◌, length, drop, get_or,
}
use wardnet_cloud.Prelude.Int.{ℤ, pos, ◌+ℤ◌, leb_ℤ}
use wardnet_cloud.Prelude.Table
use wardnet_cloud.Contract.License.{Time}
use wardnet_cloud.Tunneller.Registry.{ForwardRequest}

abbrev pub max_pending : ℕ
max_pending = 256

abbrev pending_timeout : ℤ
pending_timeout = pos 10

abbrev u32_mod : ℕ
u32_mod = 4294967296

-- A client's stream under a connection id, and the time by which READY must arrive for one.
pub record Slot : Type 0 where
  pub conn_id : ℕ
  pub stream : ℕ

pub record Due : Type 0 where
  pub conn_id : ℕ
  pub deadline : Time

pub record Loop : Type 0 where
  pub next_id : ℕ
  pub active : List Slot
  pub pending : List Slot
  pub pending_deadlines : List Due
  pub sent : List (List ℕ)
  pub delivered : List (ℕ × List ℕ)

unfoldable pub started : Loop
started = record {
  next_id = 0;
  active = [];
  pending = [];
  pending_deadlines = [];
  sent = [];
  delivered = [];
}

abbrev pub slot_is : ℕ → Slot → Bool
slot_is id s = s.conn_id == id

abbrev pub due_is : ℕ → Due → Bool
due_is id d = d.conn_id == id

-- `to_be_bytes` of a `u32`, and of a `u16`.
abbrev u32_to_be : ℕ → List ℕ
u32_to_be n = n / 16777216 ∷ n / 65536 % 256 ∷ n / 256 % 256 ∷ n % 256 ∷ []

abbrev u16_to_be : ℕ → List ℕ
u16_to_be n = n / 256 ∷ n % 256 ∷ []

unfoldable pub encode_connect : ℕ → ℕ → List ℕ
encode_connect conn_id dest_port = (1 ∷ u32_to_be conn_id) ++ u16_to_be dest_port

unfoldable pub encode_data : ℕ → List ℕ → List ℕ
encode_data conn_id bytes = (3 ∷ u32_to_be conn_id) ++ bytes

unfoldable pub encode_close : ℕ → List ℕ
encode_close conn_id = 4 ∷ u32_to_be conn_id

unfoldable pub encode_pong : List ℕ
encode_pong = 6 ∷ u32_to_be 0

send : List ℕ → Loop → Loop
send frame s = record s { sent = s.sent ++ frame ∷ [] }

-- `HashMap::remove`, and `insert`.
unfoldable pub forget : ℕ → Loop → Loop
forget id s = record s {
  pending = Table.delete (slot_is id) s.pending;
  pending_deadlines = Table.delete (due_is id) s.pending_deadlines;
}

activate : ℕ → Option Slot → Loop → Loop
activate id none s = s
activate id (some slot) s = record s { active = slot ∷ Table.delete (slot_is id) s.active }

deliver : Option Slot → List ℕ → Loop → Loop
deliver none bytes s = s
deliver (some slot) bytes s = record s { delivered = s.delivered ++ (slot.stream, bytes) ∷ [] }

-- A frame by its type and connection id.
dispatch : ℕ → ℕ → List ℕ → Loop → Loop
unfolding forget activate deliver send
dispatch frame_type conn_id payload s =
    if frame_type == 2
    then activate conn_id (Table.select_one (slot_is conn_id) s.pending) (forget conn_id s)
    else if frame_type == 3
    then (if ltb 0 (length payload)
        then deliver (Table.select_one (slot_is conn_id) s.active) payload s
        else s)
    else if frame_type == 4
    then record s { active = Table.delete (slot_is conn_id) s.active }
    else if (frame_type == 5) && (conn_id == 0)
    then send encode_pong s
    else s

unfoldable pub handle_pi_frame : List ℕ → Loop → Loop
unfolding dispatch
handle_pi_frame (t ∷ a ∷ b ∷ c ∷ d ∷ payload) s =
    dispatch t (((a * 256 + b) * 256 + c) * 256 + d) payload s
handle_pi_frame _ s = s

displace : ℕ → Loop → Loop
unfolding forget
displace id s = if Table.exists (slot_is id) s.pending then forget id s else s

-- A new connection: the id is taken first, then a pending entry of that id is displaced.
unfoldable pub accept : ForwardRequest → Time → Bool → Loop → Loop
unfolding displace send
accept req now takes s =
    let id = s.next_id in
    let s' = displace id (record s { next_id = suc s.next_id % u32_mod }) in
    if leb max_pending (length s'.pending)
    then s'
    else if takes
    then record (send (encode_connect id req.dest_port) s') {
      pending = record { conn_id = id; stream = req.stream } ∷ s'.pending;
      pending_deadlines =
          record { conn_id = id; deadline = now +ℤ pending_timeout } ∷ s'.pending_deadlines;
    }
    else s'

-- What a stream's reader sends; no bytes is the end of the stream.
unfoldable pub from_stream : ℕ → List ℕ → Loop → Loop
unfolding send
from_stream conn_id [] s = record (send (encode_close conn_id) s) {
  active = Table.delete (slot_is conn_id) s.active;
}
from_stream conn_id (b ∷ bytes) s = send (encode_data conn_id (b ∷ bytes)) s

forget_all : List Due → Loop → Loop
unfolding forget
forget_all [] s = s
forget_all (d ∷ ds) s = forget_all ds (forget d.conn_id s)

unfoldable pub sweep : Time → Loop → Loop
unfolding forget_all
sweep now s = forget_all (Table.select (λ d. leb_ℤ d.deadline now) s.pending_deadlines) s
