-- ===== src/Tunneller/Registry/Invariant.antt =====
-- What holds of the tunnel registry after any calls.
use wardnet_cloud.Prelude.{
  ℕ, suc, ◌%◌, ◌≤◌, ◌<◌, ◌≡◌, refl, Bool, true, false, List, [], ◌∷◌, Option, none, some, arith,
  inl, inr, Bool-cases, Option-cases, All, subst, sym, ltb, length,
}
use wardnet_cloud.Prelude.Table.{
  count, delete, select_one, count-delete-le, All-delete, count-exists, exists-delete_self,
}
use wardnet_cloud.Prelude.Text.{Str, same_iff}
use wardnet_cloud.Tunneller.Registry.{
  Entry, Registry, Channel, ForwardRequest, u64_mod, channel_capacity, at, write, get, new,
  register, unregister, abort, forward, recv, drop_receiver, cancel_entry, forward_to, try_send,
  owned, take_one,
}

-- The entries stand newest first: the channels fall along the list, and stay below the bound.
abbrev pub Newest : ℕ → List Entry → Type 0
Newest n [] = Unit {0}
Newest n (e ∷ es) = (e.channel < n) × Newest e.channel es

-- The entry's token has not fired, and its generation is its registration number as a `u64`.
abbrev pub IsOpen : (ℕ → Bool) → Entry → Type 0
IsOpen cancelled e = (cancelled e.channel ≡ false) × (e.generation ≡ e.channel % u64_mod)

pub record IsValid (s : Registry) : Type 0 where
  pub newest : Newest s.registrations s.by_slug
  pub open_entries : All (IsOpen s.cancelled) s.by_slug
  pub unused : (n : ℕ) → s.registrations ≤ n → s.cancelled n ≡ false
  pub unique : (slug : Str) → count (at slug) s.by_slug ≤ 1

pub Newest-mono : {m n : ℕ} (es : List Entry) → m ≤ n → Newest m es → Newest n es
Newest-mono [] h b = tt
Newest-mono (e ∷ es) h b = (omega arith, b.1)

Newest-delete :
    (n : ℕ) (test : Entry → Bool) (es : List Entry) → Newest n es → Newest n (delete test es)
unfolding delete
Newest-delete n test [] b = tt
Newest-delete n test (e ∷ es) b = ground (
  arith,
  Newest-delete e.channel test es b.1,
  Newest-mono {m = e.channel} {n = n} (delete test es),
)

pub Newest-select_one :
    (n : ℕ) (test : Entry → Bool) (es : List Entry) (e : Entry)
    → Newest n es
    → select_one test es ≡ some e
    → e.channel < n
unfolding select_one
Newest-select_one n test [] e b h = cc
Newest-select_one n test (x ∷ es) e b h = elim (Bool-cases (test x)) [
  | inl hit ↦ ground arith
  | inr miss ↦ omega (arith, Newest-select_one x.channel test es e b.1 (ground arith), b.0)
]

IsOpen-write_above :
    (cancelled : ℕ → Bool) (n k : ℕ) (es : List Entry)
    → Newest n es
    → n ≤ k
    → All (IsOpen cancelled) es
    → All (IsOpen (write k true cancelled)) es
IsOpen-write_above cancelled n k [] b h o = tt
IsOpen-write_above cancelled n k (e ∷ es) b h o =
    (ground arith, IsOpen-write_above cancelled e.channel k es b.1 (omega arith) o.1)

-- Cancelling the token of the entry that a test finds leaves every entry open that the test does
-- not cover, since no two entries share a channel.
IsOpen-cancel :
    (cancelled : ℕ → Bool) (n : ℕ) (test : Entry → Bool) (es : List Entry) (e : Entry)
    → Newest n es
    → All (IsOpen cancelled) es
    → select_one test es ≡ some e
    → All (IsOpen (write e.channel true cancelled)) (delete test es)
unfolding select_one delete
IsOpen-cancel cancelled n test [] e b o h = tt
IsOpen-cancel cancelled n test (x ∷ es) e b o h = elim (Bool-cases (test x)) [
  | inl hit ↦
      let found : x ≡ e = ground arith in
      rw (hit, ← found)
        (IsOpen-write_above cancelled x.channel x.channel (delete test es)
          (Newest-delete x.channel test es b.1) (omega arith) (All-delete _ test es o.1))
  | inr miss ↦
      let later : select_one test es ≡ some e = ground arith in
      rw miss (
        ground (arith, Newest-select_one x.channel test es e b.1 later),
        IsOpen-cancel cancelled x.channel test es e b.1 o.1 later,
      )
]

-- A valid registry without the entry of a slug, whose token fires if there is one.
cleared-IsValid :
    (slug : Str) (s : Registry)
    → IsValid s
    → IsValid (cancel_entry (get slug s) (record s { by_slug = delete (at slug) s.by_slug }))
unfolding get cancel_entry
cleared-IsValid slug s v = elim (Option-cases (select_one (at slug) s.by_slug)) [
  | inl missing ↦ rw missing (record {
    newest = Newest-delete s.registrations (at slug) s.by_slug v.newest;
    open_entries = All-delete _ (at slug) s.by_slug v.open_entries;
    unused = v.unused;
    unique = λ u. omega (arith, count-delete-le (at u) (at slug) s.by_slug, v.unique u);
  })
  | inr (e, found) ↦ rw found (record {
    newest = Newest-delete s.registrations (at slug) s.by_slug v.newest;
    open_entries =
        IsOpen-cancel s.cancelled s.registrations (at slug) s.by_slug e v.newest v.open_entries
          found;
    unused = λ n h. ground (
      arith,
      v.unused n h,
      Newest-select_one s.registrations (at slug) s.by_slug e v.newest found,
    );
    unique = λ u. omega (arith, count-delete-le (at u) (at slug) s.by_slug, v.unique u);
  })
]

abbrev pub cleared : Str → Registry → Registry
cleared slug s = cancel_entry (get slug s) (record s { by_slug = delete (at slug) s.by_slug })

pub by_slug-cleared :
    (slug : Str) (s : Registry) → (cleared slug s).by_slug ≡ delete (at slug) s.by_slug
unfolding get cancel_entry
by_slug-cleared slug s = ground arith

registrations-cleared :
    (slug : Str) (s : Registry) → (cleared slug s).registrations ≡ s.registrations
unfolding get cancel_entry
registrations-cleared slug s = ground arith

abbrev entry_for : Str → Registry → Entry
entry_for slug s = record {
  slug = slug;
  channel = s.registrations;
  generation = s.registrations % u64_mod;
}

-- Registering clears the slug and puts the new entry in front.
pub register-cleared :
    (slug : Str) (s : Registry)
    → let t = (register slug s).1 in
      (t.by_slug ≡ entry_for slug s ∷ delete (at slug) s.by_slug)
      × (t.registrations ≡ suc s.registrations)
      × (t.cancelled ≡ (cleared slug s).cancelled)
      × (t.channels ≡ write s.registrations (record { buffer = []; receiver = true }) s.channels)
unfolding register cancel_entry get
register-cleared slug s = (ground arith, ground arith, ground arith, ground arith)

unique-register :
    (slug u : Str) (s : Registry)
    → count (at u) s.by_slug ≤ 1
    → count (at u) (entry_for slug s ∷ delete (at slug) s.by_slug) ≤ 1
unfolding count
unique-register slug u s one =
    ground (arith, count-delete-le (at u) (at slug) s.by_slug, gone, same_iff slug u)
  where
    gone : slug ≡ u → count (at u) (delete (at slug) s.by_slug) ≡ 0
    gone e = rw e (count-exists (at u) (at u) (λ r h. h) _ (exists-delete_self (at u) s.by_slug))

register-IsValid : (slug : Str) (s : Registry) → IsValid s → IsValid (register slug s).1
register-IsValid slug s v =
    let (rows, total, tokens, _) = register-cleared slug s in
    record {
      newest =
          rw (rows, total)
            (omega arith, Newest-delete s.registrations (at slug) s.by_slug v.newest);
      open_entries = rw rows (
          subst (λ c. All (IsOpen c) (entry_for slug s ∷ delete (at slug) s.by_slug)) (sym tokens)
            ((fresh s.registrations (omega arith), refl), kept));
      unused = λ n h. rw tokens (fresh n (omega (arith, total)));
      unique = λ u. rw rows (unique-register slug u s (v.unique u));
    }
  where
    fresh : (n : ℕ) → s.registrations ≤ n → (cleared slug s).cancelled n ≡ false
    fresh n h = (cleared-IsValid slug s v).unused n (rw (registrations-cleared slug s) h)

    kept : All (IsOpen (cleared slug s).cancelled) (delete (at slug) s.by_slug)
    kept =
        subst (All (IsOpen (cleared slug s).cancelled)) (by_slug-cleared slug s)
          (cleared-IsValid slug s v).open_entries

unregister-IsValid :
    (slug : Str) (generation : ℕ) (s : Registry)
    → IsValid s
    → IsValid (unregister slug generation s).1
unfolding unregister
unregister-IsValid slug generation s v = record {
  newest = Newest-delete s.registrations (owned slug generation) s.by_slug v.newest;
  open_entries = All-delete _ (owned slug generation) s.by_slug v.open_entries;
  unused = v.unused;
  unique = λ u. omega (arith, count-delete-le (at u) (owned slug generation) s.by_slug, v.unique u);
}

-- A call that touches the channels alone.
channels-IsValid :
    (s : Registry) (channels : ℕ → Channel) → IsValid s → IsValid (record s { channels = channels })
channels-IsValid s channels v = record {
  newest = v.newest;
  open_entries = v.open_entries;
  unused = v.unused;
  unique = v.unique;
}

try_send-IsValid :
    (n : ℕ) (req : ForwardRequest) (s : Registry) → IsValid s → IsValid (try_send n req s).1
unfolding try_send
try_send-IsValid n req s v = elim (Bool-cases (s.channels n).receiver) [
  | inl there ↦ elim (Bool-cases (ltb (length (s.channels n).buffer) channel_capacity)) [
    | inl room ↦ rw (there, room) (channels-IsValid s _ v)
    | inr full ↦ rw (there, full) v
  ]
  | inr closed ↦ rw closed v
]

forward_to-IsValid :
    (entry : Option Entry) (req : ForwardRequest) (s : Registry)
    → IsValid s
    → IsValid (forward_to entry req s).1
unfolding forward_to
forward_to-IsValid none req s v = v
forward_to-IsValid (some e) req s v = try_send-IsValid e.channel req s v

take_one-IsValid :
    (buffer : List ForwardRequest) (n : ℕ) (s : Registry)
    → IsValid s
    → IsValid (take_one buffer n s).1
unfolding take_one
take_one-IsValid [] n s v = v
take_one-IsValid (req ∷ rest) n s v = channels-IsValid s _ v

-- Every call of the module, by any task.
pub data Step (s : Registry) : Registry → Type 0 where
  registers : (slug : Str) → Step s (register slug s).1
  unregisters : (slug : Str) (generation : ℕ) → Step s (unregister slug generation s).1
  aborts : (slug : Str) → Step s (abort slug s).1
  forwards : (slug : Str) (req : ForwardRequest) → Step s (forward slug req s).1
  receives : (n : ℕ) → Step s (recv n s).1
  drops : (n : ℕ) → Step s (drop_receiver n s)

pub data Reach (s : Registry) : Registry → Type 0 where
  here : Reach s s
  next : {t u : Registry} → Reach s t → Step t u → Reach s u

pub Step-IsValid : {s t : Registry} → Step s t → IsValid s → IsValid t
unfolding abort forward recv drop_receiver
Step-IsValid {s} (registers slug) v = register-IsValid slug s v
Step-IsValid {s} (unregisters slug generation) v = unregister-IsValid slug generation s v
Step-IsValid {s} (aborts slug) v = cleared-IsValid slug s v
Step-IsValid {s} (forwards slug req) v = forward_to-IsValid (get slug s) req s v
Step-IsValid {s} (receives n) v = take_one-IsValid (s.channels n).buffer n s v
Step-IsValid {s} (drops n) v = channels-IsValid s _ v

pub Reach-IsValid : {s t : Registry} → Reach s t → IsValid s → IsValid t
Reach-IsValid here v = v
Reach-IsValid (next r st) v = Step-IsValid st (Reach-IsValid r v)

pub new-IsValid : IsValid new
unfolding new count
new-IsValid = record {
  newest = tt;
  open_entries = tt;
  unused = λ n h. refl;
  unique = λ slug. omega arith;
}
