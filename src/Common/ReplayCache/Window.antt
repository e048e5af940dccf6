-- ===== src/Common/ReplayCache/Window.antt =====
-- How long the cache refuses a key, and what it holds.
use wardnet_cloud.Prelude.{
  ◌≤◌, ◌≡◌, Bool, true, false, ◌&&◌, List, [], ◌∷◌, arith, All, Bool-cases, inl, inr, refl,
}
use wardnet_cloud.Prelude.Int.{◌-ℤ◌, ◌+ℤ◌, ◌<ℤ◌, int_laws, leb_ℤ, lt→ltb_ℤ, le→ltb_ℤ, ◌≤ℤ◌}
use wardnet_cloud.Prelude.Table.{
  select, exists, count, count-select-le, exists-select_of, exists-implied, count-exists,
}
use wardnet_cloud.Prelude.Text.{Str, same, same_iff, same_refl}
use wardnet_cloud.Contract.License.{Time}
use wardnet_cloud.Common.ReplayCache.{
  Seen, ReplayCache, replay_window_secs, is_fresh, has_key, contains_or_insert,
}

pub record Call : Type 0 where
  pub key : Str
  pub now : Time

-- The cache after calls, oldest first.
abbrev pub calls : List Call → ReplayCache → ReplayCache
calls [] cache = cache
calls (c ∷ cs) cache = calls cs (contains_or_insert c.key c.now cache).1

-- An entry of the key that is no older than `first`.
abbrev holds : Str → Time → Seen → Bool
holds key first e = has_key key e && leb_ℤ first e.ts

fresh_enough :
    (first now : Time) (e : Seen)
    → now <ℤ first +ℤ replay_window_secs
    → leb_ℤ first e.ts ≡ true
    → is_fresh now e ≡ true
fresh_enough first now e h k =
    lt→ltb_ℤ (now -ℤ e.ts) replay_window_secs (omega (int_laws, younger k))
  where
    younger : leb_ℤ first e.ts ≡ true → first ≤ℤ e.ts
    younger k = ground arith

keeps :
    (key other : Str) (first now : Time) (cache : ReplayCache)
    → now <ℤ first +ℤ replay_window_secs
    → exists (holds key first) cache ≡ true
    → exists (holds key first) (contains_or_insert other now cache).1 ≡ true
unfolding contains_or_insert exists
keeps key other first now cache h held = ground (
  arith,
  exists-select_of (holds key first) (is_fresh now)
      (λ e k. fresh_enough first now e h (ground arith)) cache held,
)

calls-keeps :
    (key : Str) (first : Time) (cs : List Call) (cache : ReplayCache)
    → All (λ c. c.now <ℤ first +ℤ replay_window_secs) cs
    → exists (holds key first) cache ≡ true
    → exists (holds key first) (calls cs cache) ≡ true
calls-keeps key first [] cache h held = held
calls-keeps key first (c ∷ cs) cache h held =
    calls-keeps key first cs _ h.1 (keeps key c.key first c.now cache h.0 held)

accepted-held :
    (key : Str) (first : Time) (cache : ReplayCache)
    → (contains_or_insert key first cache).0 ≡ false
    → exists (holds key first) (contains_or_insert key first cache).1 ≡ true
unfolding contains_or_insert exists
accepted-held key first cache fresh = ground (arith, same_refl key)

refused :
    (key : Str) (first now : Time) (cache : ReplayCache)
    → now <ℤ first +ℤ replay_window_secs
    → exists (holds key first) cache ≡ true
    → (contains_or_insert key now cache).0 ≡ true
unfolding contains_or_insert
refused key first now cache h held = ground (
  arith,
  exists-implied (holds key first) (has_key key) (λ e k. ground arith) (select (is_fresh now) cache)
      (exists-select_of (holds key first) (is_fresh now)
        (λ e k. fresh_enough first now e h (ground arith)) cache held),
)

-- A key that was accepted is refused as a replay for the next 120 seconds, whatever keys are used
-- meanwhile and in whatever order the clock readings come, as long as none is 120 seconds later.
pub replay_refused :
    (key : Str) (first now : Time) (cs : List Call) (cache : ReplayCache)
    → (contains_or_insert key first cache).0 ≡ false
    → All (λ c. c.now <ℤ first +ℤ replay_window_secs) cs
    → now <ℤ first +ℤ replay_window_secs
    → (contains_or_insert key now (calls cs (contains_or_insert key first cache).1)).0 ≡ true
replay_refused key first now cs cache fresh between h =
    refused key first now _ h
      (calls-keeps key first cs _ between (accepted-held key first cache fresh))

-- At 120 seconds the key is forgotten: a second use is accepted, unless the key was used in between.
pub forgotten :
    (key : Str) (first : Time)
    → (contains_or_insert key (first +ℤ replay_window_secs) (contains_or_insert key first []).1).0
      ≡ false
unfolding contains_or_insert exists select
forgotten key first =
    ground
      (arith, le→ltb_ℤ ((first +ℤ replay_window_secs) -ℤ first) replay_window_secs (omega int_laws))

pub fresh_key : (key : Str) (first : Time) → (contains_or_insert key first []).0 ≡ false
unfolding contains_or_insert exists select
fresh_key key first = refl

-- No key occurs twice.
abbrev pub IsUnique : ReplayCache → Type 0
IsUnique cache = (key : Str) → count (has_key key) cache ≤ 1

All-select : (test : Seen → Bool) (es : ReplayCache) → All (λ e. test e ≡ true) (select test es)
unfolding select
All-select test [] = tt
All-select test (e ∷ es) = elim (Bool-cases (test e)) [
  | inl hit ↦ rw hit (hit, All-select test es)
  | inr miss ↦ rw miss (All-select test es)
]

unique-cons :
    (key other : Str) (now : Time) (es : ReplayCache)
    → exists (has_key key) es ≡ false
    → count (has_key other) es ≤ 1
    → count (has_key other) (record { key = key; ts = now } ∷ es) ≤ 1
unfolding count
unique-cons key other now es new_key u = elim (Bool-cases (same key other)) [
  | inl hit ↦
      let same_key : key ≡ other = (same_iff key other).0 hit in
      ground (
        arith,
        count-exists (has_key other) (has_key other) (λ e k. k) es (rw (← same_key) new_key),
      )
  | inr miss ↦ ground arith
]

-- Every entry that a call leaves is younger than 120 seconds by that call's clock, and no key occurs
-- twice if none did before: the cache holds no more than the keys accepted in the last 120 seconds.
contains_or_insert_bounded :
    (key : Str) (now : Time) (cache : ReplayCache)
    → IsUnique cache
    → All (λ e. is_fresh now e ≡ true) (contains_or_insert key now cache).1
      × IsUnique (contains_or_insert key now cache).1
unfolding contains_or_insert
contains_or_insert_bounded key now cache u =
    elim (Bool-cases (exists (has_key key) (select (is_fresh now) cache))) [
      | inl hit ↦ rw hit (All-select (is_fresh now) cache, kept_unique)
      | inr miss ↦ rw miss (
        (new_fresh, All-select (is_fresh now) cache),
        (λ other. unique-cons key other now _ miss (kept_unique other)),
      )
    ]
  where
    kept_unique : IsUnique (select (is_fresh now) cache)
    kept_unique other = omega (arith, count-select-le (has_key other) (is_fresh now) cache, u other)

    new_fresh : is_fresh now (record { key = key; ts = now }) ≡ true
    new_fresh = lt→ltb_ℤ (now -ℤ now) replay_window_secs (omega int_laws)
