-- ===== src/Tunneller/Registry.antt =====
-- crates/tunneller/src/tunnel/registry.rs: the per-node map from slug to live tunnel.
-- The channel and the abort token that a registration makes are shared with its handler, so they
-- live in a store: registration number n (from 0) makes channel n and token n. `DashMap` is a list of
-- entries with one for each slug. `next_gen` is a `u64` that `fetch_add` wraps.
pub mod Invariant
pub mod Ownership
pub mod Delivery
use wardnet_cloud.Prelude.{
  ℕ, suc, ◌%◌, Bool, true, false, not, List, [], ◌∷◌, ◌++◌, Option, none, some, ◌&&◌, ◌==◌, ltb,
  if◌then◌else◌, length,
}
use wardnet_cloud.Prelude.Table.{select_one, exists, delete}
use wardnet_cloud.Prelude.Text.{Str, same}

-- An inbound stream, by a number that names it, and the port it is for.
pub record ForwardRequest : Type 0 where
  pub stream : ℕ
  pub dest_port : ℕ

pub data ForwardResult : Type 0 where
  accepted not_connected buffer_full : ForwardResult

pub record Entry : Type 0 where
  pub slug : Str
  pub channel : ℕ
  pub generation : ℕ

-- The receiving end of a channel: what is buffered, and whether the receiver still exists.
pub record Channel : Type 0 where
  pub buffer : List ForwardRequest
  pub receiver : Bool

pub record Registry : Type 0 where
  pub by_slug : List Entry
  pub registrations : ℕ
  pub channels : ℕ → Channel
  pub cancelled : ℕ → Bool

-- What `register` hands to the handler: `rx` and `abort` are channel and token `channel`.
pub record Registration : Type 0 where
  pub channel : ℕ
  pub generation : ℕ

abbrev pub u64_mod : ℕ
u64_mod = 18446744073709551616

abbrev pub channel_capacity : ℕ
channel_capacity = 64

unfoldable pub new : Registry
new = record {
  by_slug = [];
  registrations = 0;
  channels = λ n. record { buffer = []; receiver = false };
  cancelled = λ n. false;
}

abbrev pub at : Str → Entry → Bool
at slug e = same e.slug slug

unfoldable pub get : Str → Registry → Option Entry
get slug s = select_one (at slug) s.by_slug

-- Writing one cell of a store.
abbrev pub write {ℓ} : {A : Type ℓ} → ℕ → A → (ℕ → A) → ℕ → A
write n a f m = if m == n then a else f m

-- `old.abort.cancel()`, if there is an old entry.
unfoldable pub cancel_entry : Option Entry → Registry → Registry
cancel_entry none s = s
cancel_entry (some e) s = record s { cancelled = write e.channel true s.cancelled }

unfoldable pub register : Str → Registry → Registration × Registry
unfolding cancel_entry get
register slug s =
    let n = s.registrations in
    let generation = n % u64_mod in
    let s' = record s {
      by_slug =
          record { slug = slug; channel = n; generation = generation } ∷ delete (at slug) s.by_slug;
      registrations = suc n;
      channels = write n (record { buffer = []; receiver = true }) s.channels;
    } in
    (record { channel = n; generation = generation }, cancel_entry (get slug s) s')

abbrev pub owned : Str → ℕ → Entry → Bool
owned slug generation e = same e.slug slug && e.generation == generation

-- `remove_if(slug, |e| e.generation == generation).is_some()`.
unfoldable pub unregister : Str → ℕ → Registry → Bool × Registry
unregister slug generation s = (
  exists (owned slug generation) s.by_slug,
  record s { by_slug = delete (owned slug generation) s.by_slug },
)

unfoldable pub abort : Str → Registry → Bool × Registry
unfolding cancel_entry get
abort slug s = (
  exists (at slug) s.by_slug,
  cancel_entry (get slug s) (record s { by_slug = delete (at slug) s.by_slug }),
)

-- `try_send`: closed once the receiver is gone, full at the capacity.
unfoldable pub try_send : ℕ → ForwardRequest → Registry → ForwardResult × Registry
try_send n req s =
    let c = s.channels n in
    if not c.receiver
    then (not_connected, s)
    else if ltb (length c.buffer) channel_capacity
    then (
      accepted,
      record s { channels = write n (record c { buffer = c.buffer ++ req ∷ [] }) s.channels },
    )
    else (buffer_full, s)

forward_to : Option Entry → ForwardRequest → Registry → ForwardResult × Registry
unfolding try_send
forward_to none req s = (not_connected, s)
forward_to (some e) req s = try_send e.channel req s

unfoldable pub forward : Str → ForwardRequest → Registry → ForwardResult × Registry
unfolding forward_to get
forward slug req s = forward_to (get slug s) req s

unfoldable pub is_connected : Str → Registry → Bool
is_connected slug s = exists (at slug) s.by_slug

unfoldable pub active_count : Registry → ℕ
active_count s = length s.by_slug

-- The handler's ends: it takes the oldest request, and drops the receiver when it returns.
take_one : List ForwardRequest → ℕ → Registry → Option ForwardRequest × Registry
take_one [] n s = (none, s)
take_one (req ∷ rest) n s =
    (some req, record s { channels = write n (record (s.channels n) { buffer = rest }) s.channels })

unfoldable pub recv : ℕ → Registry → Option ForwardRequest × Registry
unfolding take_one
recv n s = take_one (s.channels n).buffer n s

unfoldable pub drop_receiver : ℕ → Registry → Registry
drop_receiver n s = record s {
  channels = write n (record { buffer = []; receiver = false }) s.channels;
}
