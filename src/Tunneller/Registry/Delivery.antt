-- ===== src/Tunneller/Registry/Delivery.antt =====
-- What `forward` does with a connection, and the bound on what waits for a tunnel.
use wardnet_cloud.Prelude.{
  ℕ, ◌≤◌, ◌<◌, ◌≡◌, ◌≢◌, refl, true, false, List, [], ◌∷◌, ◌++◌, none, some, arith, inl, inr,
  Bool-cases, Option-cases, ltb, length, length-append,
}
use wardnet_cloud.Prelude.Table.{select_one}
use wardnet_cloud.Prelude.Text.{Str}
use wardnet_cloud.Tunneller.Registry.{
  Entry, Registry, Channel, ForwardRequest, ForwardResult, accepted, not_connected, buffer_full,
  channel_capacity, at, get, new, unregister, abort, forward, recv, drop_receiver, cancel_entry,
  forward_to, try_send, take_one,
}
use wardnet_cloud.Tunneller.Registry.Invariant.{
  Step, registers, unregisters, aborts, forwards, receives, drops, Reach, here, next,
  register-cleared,
}

-- What became of a request that was sent to a channel.
abbrev pub Sent : Channel → ForwardRequest → ForwardResult → Channel → Type 0
Sent c req accepted c' =
    (c.receiver ≡ true)
    × (length c.buffer < channel_capacity)
    × (c'.buffer ≡ c.buffer ++ req ∷ [])
    × (c'.receiver ≡ true)
Sent c req not_connected c' = (c.receiver ≡ false) × (c' ≡ c)
Sent c req buffer_full c' = (c.receiver ≡ true) × (channel_capacity ≤ length c.buffer) × (c' ≡ c)

-- Only the channel that was sent to may have changed.
abbrev pub OthersKept : ℕ → Registry → Registry → Type 0
OthersKept n s t =
    ((m : ℕ) → m ≢ n → t.channels m ≡ s.channels m)
    × (t.by_slug ≡ s.by_slug)
    × (t.cancelled ≡ s.cancelled)

try_send_lem :
    (n : ℕ) (req : ForwardRequest) (s : Registry)
    → let (result, t) = try_send n req s in
      Sent (s.channels n) req result (t.channels n) × OthersKept n s t
unfolding try_send
try_send_lem n req s = elim (Bool-cases (s.channels n).receiver) [
  | inl there ↦ elim (Bool-cases (ltb (length (s.channels n).buffer) channel_capacity)) [
    | inl room ↦
        simp (there, room)
          (
            (ground arith, ground arith, ground arith, ground arith),
            ((λ m ne. ground arith), refl, refl),
          )
    | inr full ↦
        simp (there, full) ((ground arith, ground arith, refl), ((λ m ne. refl), refl, refl))
  ]
  | inr closed ↦ simp closed ((ground arith, refl), ((λ m ne. refl), refl, refl))
]

-- A connection for a slug with no entry is refused, and nothing changes. One for a slug with an
-- entry goes to the end of that tunnel's channel if its handler still runs and the channel has room,
-- and is refused for the reason that the result names otherwise; no entry, no token and no other
-- channel changes.
forward_lem :
    (slug : Str) (req : ForwardRequest) (s : Registry)
    → let (result, t) = forward slug req s in
      ((get slug s ≡ none) → (result ≡ not_connected) × (t ≡ s))
      × ((e : Entry)
          → get slug s ≡ some e
          → Sent (s.channels e.channel) req result (t.channels e.channel)
            × OthersKept e.channel s t)
unfolding forward forward_to
forward_lem slug req s = (
  (λ missing. rw (missing, forward_to) (refl, refl)),
  (λ e found. rw (found, forward_to) (try_send_lem e.channel req s)),
)

-- No channel holds more than the capacity.
abbrev pub IsBounded : Registry → Type 0
IsBounded s = (n : ℕ) → length (s.channels n).buffer ≤ channel_capacity

try_send-IsBounded :
    (n : ℕ) (req : ForwardRequest) (s : Registry) → IsBounded s → IsBounded (try_send n req s).1
unfolding try_send
try_send-IsBounded n req s b m = ground (arith, b m, length-append (s.channels n).buffer (req ∷ []))

take_one-IsBounded :
    (buffer : List ForwardRequest) (n : ℕ) (s : Registry)
    → length buffer ≤ channel_capacity
    → IsBounded s
    → IsBounded (take_one buffer n s).1
unfolding take_one
take_one-IsBounded [] n s h b m = b m
take_one-IsBounded (req ∷ rest) n s h b m = ground (arith, b m)

Step-IsBounded : {s t : Registry} → Step s t → IsBounded s → IsBounded t
unfolding unregister abort cancel_entry get forward forward_to recv drop_receiver
Step-IsBounded {s} (registers slug) b n = rw (register-cleared slug s).3 (ground (arith, b n))
Step-IsBounded (unregisters slug generation) b n = b n
Step-IsBounded {s} (aborts slug) b n = ground (arith, b n)
Step-IsBounded {s} (forwards slug req) b n = elim (Option-cases (select_one (at slug) s.by_slug)) [
  | inl missing ↦ rw missing (b n)
  | inr (e, found) ↦ rw found (try_send-IsBounded e.channel req s b n)
]
Step-IsBounded {s} (receives n) b m = take_one-IsBounded (s.channels n).buffer n s (b n) b m
Step-IsBounded {s} (drops n) b m = ground (arith, b m)

-- Whatever calls run, from a new registry: no tunnel ever has more than 64 connections waiting.
Reach-new-IsBounded :
    {s : Registry} → Reach new s → (n : ℕ) → length (s.channels n).buffer ≤ channel_capacity
unfolding new
Reach-new-IsBounded here n = omega arith
Reach-new-IsBounded (next r st) n = Step-IsBounded st (Reach-new-IsBounded r) n
