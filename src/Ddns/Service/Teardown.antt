-- ===== src/Ddns/Service/Teardown.antt =====
-- `delete_records`: the row goes last.
use wardnet_cloud.Prelude.{
  String, ◌≡◌, refl, Bool, true, false, ◌||◌, inl, inr, List, [], ◌∷◌, Option, none, some, arith,
  All, Bool-cases, Option-cases, str_eq, str_eq_refl, ◌&&◌, ◌∙◌, ◌⊎◌,
}
use wardnet_cloud.Prelude.Table.{exists, exists-delete_self}
use wardnet_cloud.Ddns.Repository.{Operational, Operationals, of_network}
use wardnet_cloud.Ddns.Repository
use wardnet_cloud.Ddns.Service.{
  Action, delete_id, statement, World, Outcome, ok, err, Run, and_then, Env, execute, call,
  find_by_id, delete_record, or_internal, delete_records_or_err, delete_a, delete_row, tear_down,
  delete_records, ◌>>◌,
}

abbrev is_delete : String → Action → Bool
is_delete id (delete_id d) = str_eq d id
is_delete id _ = false

abbrev is_answered : Option (Option String) → Bool
is_answered none = false
is_answered (some answer) = true

module _ (env : Env) where
  -- The provider deleted the record on one of these requests.
  abbrev pub deleted_in : String → List Action → Bool
  deleted_in id [] = false
  deleted_in id (a ∷ before) =
      (is_delete id a && is_answered (env.answer before a)) || deleted_in id before

  -- The records of a row.
  abbrev pub AllDeleted : Option String → List String → List Action → Type 0
  AllDeleted none ids done = All (λ id. deleted_in id done ≡ true) ids
  AllDeleted (some a) ids done =
      (deleted_in a done ≡ true) × All (λ id. deleted_in id done ≡ true) ids

  -- A tear-down step runs no statement, what was deleted stays so, and a step that ends well has
  -- deleted what it was to delete.
  record Deletes (Goal : List Action → Type 0) (m : Run (Unit {0})) : Type 0 where
    rows_kept : (w : World) → (m w).1.rows ≡ w.rows
    stays :
        (id : String) (w : World) → deleted_in id w.done ≡ true → deleted_in id (m w).1.done ≡ true
    deleted : (w : World) → (m w).0 ≡ ok tt → Goal (m w).1.done

  delete_record-stays :
      (d id : String) (w : World)
      → deleted_in id w.done ≡ true
      → deleted_in id (delete_record env d w).1.done ≡ true
  unfolding delete_record call or_internal
  delete_record-stays d id w e = elim (Option-cases (env.answer w.done (delete_id d))) [
    | inl failed ↦ rw failed (ground arith)
    | inr (answered, a) ↦ rw a (ground arith)
  ]

  Deletes-one : (d : String) → Deletes (λ done. deleted_in d done ≡ true) (delete_record env d)
  unfolding delete_record call or_internal
  Deletes-one d = record {
    rows_kept = λ w. elim (Option-cases (env.answer w.done (delete_id d))) [
      | inl failed ↦ rw failed refl
      | inr (answered, a) ↦ rw a refl
    ];
    stays = delete_record-stays d;
    deleted = λ w e. elim (Option-cases (env.answer w.done (delete_id d))) [
      | inl failed ↦ absurd (ground arith)
      | inr (answered, a) ↦ rw a (ground (arith, str_eq_refl d))
    ];
  }

  then_rows :
      {G : List Action → Type 0} (k : Run (Unit {0}))
      → Deletes G k
      → (o : Outcome (Unit {0})) (w : World) → (and_then (λ _. k) o w).1.rows ≡ w.rows
  then_rows k d (ok u) w = d.rows_kept w
  then_rows k d (err e) w = refl

  then_stays :
      {G : List Action → Type 0} (k : Run (Unit {0}))
      → Deletes G k
      → (id : String) (o : Outcome (Unit {0})) (w : World) → deleted_in id w.done ≡ true
      → deleted_in id (and_then (λ _. k) o w).1.done ≡ true
  then_stays k d id (ok u) w e = d.stays id w e
  then_stays k d id (err e) w h = h

  then_deleted :
      (G H : List Action → Type 0) (k : Run (Unit {0}))
      → Deletes H k
      → ((w : World) → G w.done → G (k w).1.done)
      → (o : Outcome (Unit {0})) (w : World) → (o ≡ ok tt → G w.done)
      → (and_then (λ _. k) o w).0 ≡ ok tt
      → G (and_then (λ _. k) o w).1.done × H (and_then (λ _. k) o w).1.done
  then_deleted G H k d keep (ok u) w g e = (keep w (g refl), d.deleted w e)
  then_deleted G H k d keep (err x) w g e = absurd (ground arith)

  -- Two steps one after the other.
  Deletes-then :
      (G H : List Action → Type 0) (m k : Run (Unit {0}))
      → Deletes G m
      → Deletes H k
      → ((w : World) → G w.done → G (k w).1.done)
      → Deletes (λ done. G done × H done) (m >> k)
  Deletes-then G H m k dm dk keep = record {
    rows_kept = λ w. then_rows k dk (m w).0 (m w).1 ∙ dm.rows_kept w;
    stays = λ id w e. then_stays k dk id (m w).0 (m w).1 (dm.stays id w e);
    deleted = λ w e. then_deleted G H k dk keep (m w).0 (m w).1 (dm.deleted w) e;
  }

  Deletes-All :
      (ids : List String)
      → Deletes (λ done. All (λ id. deleted_in id done ≡ true) ids) (delete_records_or_err env ids)
  unfolding delete_records_or_err
  Deletes-All [] = record { rows_kept = λ w. refl; stays = λ id w e. e; deleted = λ w e. tt }
  Deletes-All (id ∷ ids) =
      Deletes-then _ _ (delete_record env id) (delete_records_or_err env ids) (Deletes-one id)
        (Deletes-All ids) (λ w g. (Deletes-All ids).stays id w g)

  -- The two steps before the DELETE.
  Deletes-records :
      (a : Option String) (ids : List String)
      → Deletes (AllDeleted a ids) (delete_a env a >> delete_records_or_err env ids)
  unfolding delete_a
  Deletes-records none ids = Deletes-All ids
  Deletes-records (some a) ids =
      Deletes-then _ _ (delete_record env a) (delete_records_or_err env ids) (Deletes-one a)
        (Deletes-All ids) (λ w g. (Deletes-All ids).stays a w g)

  and_then_assoc :
      (k r : Run (Unit {0})) (o : Outcome (Unit {0})) (w : World)
      → and_then (λ _. k >> r) o w
        ≡ and_then (λ _. r) (and_then (λ _. k) o w).0 (and_then (λ _. k) o w).1
  and_then_assoc k r (ok u) w = refl
  and_then_assoc k r (err e) w = refl

  -- The DELETE is run only after a step that ended well, and then leaves no row of the network.
  abbrev pub RowLast :
      String → Operationals → Option String → List String → Outcome (Unit {0}) × World → Type 0
  RowLast network_id read a ids t =
      ((t.1.rows ≡ read) ⊎ AllDeleted a ids t.1.done)
      × (t.0 ≡ ok tt
          → AllDeleted a ids t.1.done × (exists (of_network network_id) t.1.rows ≡ false))

  row_last :
      (network_id : String) (read : Operationals) (a : Option String) (ids : List String)
      (o : Outcome (Unit {0})) (w : World)
      → w.rows ≡ read
      → (o ≡ ok tt → AllDeleted a ids w.done)
      → RowLast network_id read a ids (and_then (λ _. delete_row env network_id) o w)
  unfolding delete_row execute Repository.delete
  row_last network_id read a ids (err e) w same g = (inl same, (λ h. absurd (ground arith)))
  row_last network_id read a ids (ok u) w same g = elim (Bool-cases (env.db_ok w.done)) [
    | inl fine ↦ rw fine (
      inr (after a (g refl)),
      (λ h. (
        after a (g refl),
        exists-delete_self (of_network network_id) (env.others w.done w.rows),
      )),
    )
    | inr broken ↦ rw broken (inr (after a (g refl)), (λ h. absurd (ground arith)))
  ]
    where
      after : (a : Option String) → AllDeleted a ids w.done → AllDeleted a ids (statement ∷ w.done)
      after none all = all
      after (some a) all = all

-- The row of a network is removed last: a tear-down leaves the table as it read it, unless the
-- provider has deleted the network's A record and every ACME record of the row. If the tear-down
-- ends well, all of them are deleted and no row of the network is left.
pub delete_records_lem :
    (env : Env) (network_id : String) (w : World) (op : Operational)
    → let read = env.others w.done w.rows in
      Repository.find_by_id network_id read ≡ some op
      → env.db_ok w.done ≡ true
      → RowLast env network_id read op.cf_a_record_id op.cf_acme_record_ids
          (delete_records env network_id w)
unfolding delete_records find_by_id execute tear_down
delete_records_lem env network_id w op found fine =
    rw (fine, found)
      (rw
        (and_then_assoc env (delete_records_or_err env op.cf_acme_record_ids)
          (delete_row env network_id) (delete_a env op.cf_a_record_id _).0
          (delete_a env op.cf_a_record_id _).1)
        (row_last env network_id (env.others w.done w.rows) op.cf_a_record_id op.cf_acme_record_ids
          _ _ (ds.rows_kept w_read) (ds.deleted w_read)))
  where
    w_read : World
    w_read = record { rows = env.others w.done w.rows; done = statement ∷ w.done }

    ds :
        Deletes env
          (AllDeleted env op.cf_a_record_id op.cf_acme_record_ids)
          (delete_a env op.cf_a_record_id >> delete_records_or_err env op.cf_acme_record_ids)
    ds = Deletes-records env op.cf_a_record_id op.cf_acme_record_ids
