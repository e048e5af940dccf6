-- ===== src/Common/ReplayCache.antt =====
-- crates/common/src/replay_cache.rs: the keys of the signed requests accepted of late.
-- The map is a list of entries; a key occurs once, since it is inserted only when it is missing.
-- Times are mathematical integers: two `i64` clock readings do not overflow when subtracted.
pub mod Window
use wardnet_cloud.Prelude.{Bool, true, false, List, [], ◌∷◌, if◌then◌else◌}
use wardnet_cloud.Prelude.Int.{ℤ, pos, ◌-ℤ◌, ltb_ℤ}
use wardnet_cloud.Prelude.Table.{select, exists}
use wardnet_cloud.Prelude.Text.{Str, same}
use wardnet_cloud.Contract.License.{Time}

abbrev pub replay_window_secs : ℤ
replay_window_secs = pos 120

pub record Seen : Type 0 where
  pub key : Str
  pub ts : Time

abbrev pub ReplayCache : Type 0
ReplayCache = List Seen

unfoldable pub new : ReplayCache
new = []

abbrev pub is_fresh : Time → Seen → Bool
is_fresh now e = ltb_ℤ (now -ℤ e.ts) replay_window_secs

abbrev pub has_key : Str → Seen → Bool
has_key key e = same e.key key

-- The answer is true on a replay.
unfoldable pub contains_or_insert : Str → Time → ReplayCache → Bool × ReplayCache
contains_or_insert key now cache =
    let kept = select (is_fresh now) cache in
    if exists (has_key key) kept
    then (true, kept)
    else (false, record { key = key; ts = now } ∷ kept)
