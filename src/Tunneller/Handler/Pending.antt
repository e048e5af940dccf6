-- ===== src/Tunneller/Handler/Pending.antt =====
-- The connections that wait for READY: how many, and that each has a deadline.
use wardnet_cloud.Prelude.{
  ℕ, suc, ◌*◌, ◌%◌, ◌+◌, ◌≤◌, ◌≡◌, refl, sym, ◌∙◌, Bool, true, false, ◌&&◌, ◌==◌, leb, ltb, List,
  [], ◌∷◌, Option, none, some, arith, Bool-cases, inl, inr, length, if◌then◌else◌,
}
use wardnet_cloud.Prelude.Table.{exists, delete, select, select_one, exists-delete_self}
use wardnet_cloud.Contract.License.{Time}
use wardnet_cloud.Tunneller.Registry.{ForwardRequest}
use wardnet_cloud.Tunneller.Handler.{
  Slot, Due, Loop, max_pending, started, slot_is, due_is, forget, activate, deliver, send, dispatch,
  handle_pi_frame, displace, accept, from_stream, forget_all, sweep,
}
use wardnet_cloud.Prelude.Int.{leb_ℤ}

-- One turn of the loop.
pub data Turn (s : Loop) : Loop → Type 0 where
  frame : (bytes : List ℕ) → Turn s (handle_pi_frame bytes s)
  request : (req : ForwardRequest) (now : Time) (takes : Bool) → Turn s (accept req now takes s)
  outgoing : (conn_id : ℕ) (bytes : List ℕ) → Turn s (from_stream conn_id bytes s)
  cleanup : (now : Time) → Turn s (sweep now s)

pub data Reach : Loop → Type 0 where
  start : Reach started
  turn : {s t : Loop} → Reach s → Turn s t → Reach t

-- The waiting connections are at most 256, and exactly those that have a deadline.
pub record IsTimed (s : Loop) : Type 0 where
  pub bounded : length s.pending ≤ max_pending
  pub timed : (id : ℕ) → exists (slot_is id) s.pending ≡ exists (due_is id) s.pending_deadlines

delete_other {ℓ} :
    {Row : Type ℓ} (p test : Row → Bool)
    → ((r : Row) → p r ≡ true → test r ≡ false)
    → (rs : List Row) → exists p (delete test rs) ≡ exists p rs
unfolding exists delete
delete_other p test h [] = refl
delete_other p test h (r ∷ rs) = ground (arith, h r, delete_other p test h rs)

length-delete {ℓ} :
    {Row : Type ℓ} (test : Row → Bool) (rs : List Row) → length (delete test rs) ≤ length rs
unfolding delete
length-delete test [] = omega arith
length-delete test (r ∷ rs) = ground (arith, length-delete test rs)

deleted :
    (id k : ℕ) (slots : List Slot) (dues : List Due)
    → exists (slot_is id) slots ≡ exists (due_is id) dues
    → exists (slot_is id) (delete (slot_is k) slots) ≡ exists (due_is id) (delete (due_is k) dues)
deleted id k slots dues e = elim (Bool-cases (id == k)) [
  | inl hit ↦
      let same : id ≡ k = ground arith in
      rw same (exists-delete_self (slot_is k) slots ∙ sym (exists-delete_self (due_is k) dues))
  | inr other ↦
      delete_other (slot_is id) (slot_is k) (λ r h. ground arith) slots
      ∙ e
      ∙ sym (delete_other (due_is id) (due_is k) (λ r h. ground arith) dues)
]

forget-IsTimed : (k : ℕ) (s : Loop) → IsTimed s → IsTimed (forget k s)
unfolding forget
forget-IsTimed k s v = record {
  bounded = omega (arith, length-delete (slot_is k) s.pending, v.bounded);
  timed = λ id. deleted id k s.pending s.pending_deadlines (v.timed id);
}

-- Steps that leave the waiting connections alone.
same-IsTimed :
    (s t : Loop)
    → t.pending ≡ s.pending
    → t.pending_deadlines ≡ s.pending_deadlines
    → IsTimed s
    → IsTimed t
same-IsTimed s t p d v = record { bounded = rw p v.bounded; timed = λ id. rw (p, d) (v.timed id) }

activate-IsTimed : (k : ℕ) (slot : Option Slot) (s : Loop) → IsTimed s → IsTimed (activate k slot s)
unfolding activate
activate-IsTimed k none s v = v
activate-IsTimed k (some slot) s v = same-IsTimed s _ refl refl v

deliver-IsTimed :
    (slot : Option Slot) (bytes : List ℕ) (s : Loop) → IsTimed s → IsTimed (deliver slot bytes s)
unfolding deliver
deliver-IsTimed none bytes s v = v
deliver-IsTimed (some slot) bytes s v = same-IsTimed s _ refl refl v

send-IsTimed : (bytes : List ℕ) (s : Loop) → IsTimed s → IsTimed (send bytes s)
unfolding send
send-IsTimed bytes s v = same-IsTimed s _ refl refl v

choose : (b : Bool) (s t : Loop) → IsTimed s → IsTimed t → IsTimed (if b then s else t)
choose true s t v w = v
choose false s t v w = w

dispatch-IsTimed :
    (frame_type conn_id : ℕ) (payload : List ℕ) (s : Loop)
    → IsTimed s
    → IsTimed (dispatch frame_type conn_id payload s)
unfolding dispatch
dispatch-IsTimed frame_type conn_id payload s v =
    choose (frame_type == 2) _ _
      (activate-IsTimed conn_id (select_one (slot_is conn_id) s.pending) _
        (forget-IsTimed conn_id s v))
      (choose (frame_type == 3) _ _
        (choose (ltb 0 (length payload)) _ _
          (deliver-IsTimed (select_one (slot_is conn_id) s.active) payload s v) v)
        (choose (frame_type == 4) _ _ (same-IsTimed s _ refl refl v)
          (choose ((frame_type == 5) && (conn_id == 0)) _ _ (send-IsTimed _ s v) v)))

frame-IsTimed : (bytes : List ℕ) (s : Loop) → IsTimed s → IsTimed (handle_pi_frame bytes s)
unfolding handle_pi_frame
frame-IsTimed [] s v = v
frame-IsTimed (t ∷ []) s v = v
frame-IsTimed (t ∷ a ∷ []) s v = v
frame-IsTimed (t ∷ a ∷ b ∷ []) s v = v
frame-IsTimed (t ∷ a ∷ b ∷ c ∷ []) s v = v
frame-IsTimed (t ∷ a ∷ b ∷ c ∷ d ∷ payload) s v =
    dispatch-IsTimed t (((a * 256 + b) * 256 + c) * 256 + d) payload s v

displace-IsTimed : (k : ℕ) (s : Loop) → IsTimed s → IsTimed (displace k s)
unfolding displace
displace-IsTimed k s v = choose (exists (slot_is k) s.pending) _ _ (forget-IsTimed k s v) v

-- A connection that is taken in gets its slot and its deadline together.
added :
    (slot : Slot) (due : Due) (s t : Loop)
    → slot.conn_id ≡ due.conn_id
    → leb max_pending (length s.pending) ≡ false
    → t.pending ≡ slot ∷ s.pending
    → t.pending_deadlines ≡ due ∷ s.pending_deadlines
    → IsTimed s
    → IsTimed t
unfolding exists
added slot due s t same room p d v = record {
  bounded = rw p (fits (length s.pending) room);
  timed = λ id. rw (p, d, same, v.timed id) refl;
}
  where
    fits : (n : ℕ) → leb max_pending n ≡ false → suc n ≤ max_pending
    fits n h = ground arith

accept-IsTimed :
    (req : ForwardRequest) (now : Time) (takes : Bool) (s : Loop)
    → IsTimed s
    → IsTimed (accept req now takes s)
unfolding accept send
accept-IsTimed req now takes s v = elim (Bool-cases (leb max_pending (length s'.pending))) [
  | inl full ↦ simp full calm
  | inr room ↦ simp room (choose takes _ s' (added _ _ s' _ refl room refl refl calm) calm)
]
  where
    s' : Loop
    s' = displace s.next_id (record s { next_id = suc s.next_id % 4294967296 })

    calm : IsTimed s'
    calm = displace-IsTimed s.next_id _ (same-IsTimed s _ refl refl v)

outgoing-IsTimed :
    (conn_id : ℕ) (bytes : List ℕ) (s : Loop) → IsTimed s → IsTimed (from_stream conn_id bytes s)
unfolding from_stream send
outgoing-IsTimed conn_id [] s v = same-IsTimed s _ refl refl v
outgoing-IsTimed conn_id (b ∷ bytes) s v = same-IsTimed s _ refl refl v

forget_all-IsTimed : (ds : List Due) (s : Loop) → IsTimed s → IsTimed (forget_all ds s)
unfolding forget_all
forget_all-IsTimed [] s v = v
forget_all-IsTimed (d ∷ ds) s v = forget_all-IsTimed ds _ (forget-IsTimed d.conn_id s v)

Turn-IsTimed : {s t : Loop} → Turn s t → IsTimed s → IsTimed t
unfolding sweep
Turn-IsTimed {s} (frame bytes) v = frame-IsTimed bytes s v
Turn-IsTimed {s} (request req now takes) v = accept-IsTimed req now takes s v
Turn-IsTimed {s} (outgoing conn_id bytes) v = outgoing-IsTimed conn_id bytes s v
Turn-IsTimed {s} (cleanup now) v =
    forget_all-IsTimed (select (λ d. leb_ℤ d.deadline now) s.pending_deadlines) s v

started-IsTimed : IsTimed started
unfolding started exists
started-IsTimed = record { bounded = omega arith; timed = λ id. refl }

-- Whatever frames a daemon sends and whatever connections and stream data come in, in any order: at
-- most 256 connections of a tunnel wait for READY, and exactly those have a deadline, so none
-- waits unwatched.
pub Reach-IsTimed : {s : Loop} → Reach s → IsTimed s
Reach-IsTimed start = started-IsTimed
Reach-IsTimed (turn r t) = Turn-IsTimed t (Reach-IsTimed r)
