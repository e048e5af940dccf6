-- ===== src/Tunneller/Registry/Ownership.antt =====
-- A reconnect under a slug takes the slug over from the handler that had it.
use wardnet_cloud.Prelude.{
  ℕ, ◌+◌, ◌%◌, ◌≤◌, ◌<◌, ◌≡◌, ◌≢◌, refl, true, false, List, some, arith, inl, inr, ◌==◌,
  Option-cases,
}
use wardnet_cloud.Prelude.Table.{
  delete, exists, select_one, exists-false_mono, exists-delete_self, delete-none, exists-found,
  exists-delete_unique, select_one-test, select_one-delete_other,
}
use wardnet_cloud.Prelude.Text.{Str, same_iff, same_refl}
use wardnet_cloud.Tunneller.Registry.{
  Entry, Registry, ForwardRequest, u64_mod, at, get, register, unregister, abort, forward, recv,
  drop_receiver, cancel_entry, forward_to, try_send, owned, take_one, is_connected,
}
use wardnet_cloud.Tunneller.Registry.Invariant.{
  IsValid, Step, registers, unregisters, aborts, forwards, receives, drops, Reach, here, next,
  register-cleared,
}

try_send-registrations :
    (n : ℕ) (req : ForwardRequest) (s : Registry)
    → (try_send n req s).1.registrations ≡ s.registrations
unfolding try_send
try_send-registrations n req s = ground arith

Step-registrations : {s t : Registry} → Step s t → s.registrations ≤ t.registrations
unfolding unregister abort cancel_entry get forward forward_to recv take_one drop_receiver
Step-registrations {s} (registers slug) = omega (arith, (register-cleared slug s).1)
Step-registrations (unregisters slug generation) = omega arith
Step-registrations {s} (aborts slug) = ground arith
Step-registrations {s} (forwards slug req) = elim (Option-cases (select_one (at slug) s.by_slug)) [
  | inl missing ↦ rw missing (omega arith)
  | inr (e, found) ↦ rw found (omega (arith, try_send-registrations e.channel req s))
]
Step-registrations {s} (receives n) = ground arith
Step-registrations (drops n) = omega arith

Reach-registrations : {s t : Registry} → Reach s t → s.registrations ≤ t.registrations
Reach-registrations here = omega arith
Reach-registrations (next r st) = omega (arith, Reach-registrations r, Step-registrations st)

-- No entry of a slug is left among those that its deletion keeps.
none_owned :
    (slug : Str) (generation : ℕ) (es : List Entry)
    → exists (owned slug generation) (delete (at slug) es) ≡ false
none_owned slug generation es =
    exists-false_mono (owned slug generation) (at slug) (λ r e. ground arith) _
      (exists-delete_self (at slug) es)

other_generation : (a b : ℕ) → a < b → b < a + u64_mod → (b % u64_mod == a % u64_mod) ≡ false
other_generation a b h k = ground arith

unregister_none :
    (slug : Str) (generation : ℕ) (u : Registry)
    → exists (owned slug generation) u.by_slug ≡ false
    → unregister slug generation u ≡ (false, u)
unfolding unregister
unregister_none slug generation u e = rw (e, delete-none (owned slug generation) u.by_slug e)

generation-register :
    (slug : Str) (s : Registry) → (register slug s).0.generation ≡ s.registrations % u64_mod
unfolding register
generation-register slug s = refl

not_owned :
    (slug : Str) (a : ℕ) (t : Registry)
    → a < t.registrations
    → t.registrations < a + u64_mod
    → exists (owned slug (a % u64_mod)) (register slug t).1.by_slug ≡ false
unfolding exists
not_owned slug a t h k = rw (register-cleared slug t).0 (
    ground (
      arith,
      same_refl slug,
      other_generation a t.registrations h k,
      none_owned slug (a % u64_mod) t.by_slug,
    ))

connected-register : (slug : Str) (t : Registry) → is_connected slug (register slug t).1 ≡ true
unfolding is_connected exists
connected-register slug t = rw ((register-cleared slug t).0, same_refl slug)

cancelled-register :
    (slug : Str) (t : Registry) (displaced : Entry)
    → get slug t ≡ some displaced
    → (register slug t).1.cancelled displaced.channel ≡ true
unfolding cancel_entry
cancelled-register slug t displaced found = rw ((register-cleared slug t).2, found) (ground arith)

-- A handler that was displaced by a reconnect under its slug, however many calls of any tasks came
-- between (but fewer than 2^64 registrations), removes nothing when it cleans up: its `unregister`
-- reports that and leaves the registry as it is, and the slug stays connected. The token of the
-- entry that the reconnect displaced has fired.
pub unregister_superseded :
    (slug : Str) (s t : Registry) (displaced : Entry)
    → Reach (register slug s).1 t
    → t.registrations < s.registrations + u64_mod
    → get slug t ≡ some displaced
    → let u = (register slug t).1 in
      (unregister slug (register slug s).0.generation u ≡ (false, u))
      × (is_connected slug u ≡ true)
      × (u.cancelled displaced.channel ≡ true)
unregister_superseded slug s t displaced reach few found = (
  rw (generation-register slug s)
      (unregister_none slug _ _ (not_owned slug s.registrations t later few)),
  connected-register slug t,
  cancelled-register slug t displaced found,
)
  where
    later : s.registrations < t.registrations
    later = omega (arith, (register-cleared slug s).1, Reach-registrations reach)

-- A handler whose registration still stands removes it, and no other: its slug is connected no more,
-- and the entry of every other slug stays.
pub unregister_own :
    (slug other : Str) (s : Registry) (own : Entry)
    → IsValid s
    → get slug s ≡ some own
    → let (done, u) = unregister slug own.generation s in
      (done ≡ true) × (is_connected slug u ≡ false) × (other ≢ slug → get other u ≡ get other s)
unfolding unregister is_connected get
unregister_own slug other s own v found = (
  exists-found (at slug) (owned slug own.generation) s.by_slug own found
      (ground (arith, select_one-test (at slug) s.by_slug found)),
  alone,
  (λ ne.
      select_one-delete_other (at other) (owned slug own.generation)
        (λ r e. ground (arith, same_iff r.slug slug, same_iff r.slug other)) s.by_slug),
)
  where
    alone : exists (at slug) (delete (owned slug own.generation) s.by_slug) ≡ false
    alone =
        exists-delete_unique (at slug) (owned slug own.generation) s.by_slug own found
          (v.unique slug) (ground (arith, select_one-test (at slug) s.by_slug found))
