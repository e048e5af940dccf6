-- ===== src/Ddns/Service/Conflicts.antt =====
-- When `set_acme_challenge` reports a conflict.
use wardnet_cloud.Prelude.{
  String, ◌≡◌, ◌≢◌, refl, ◌∙◌, true, List, [], ◌∷◌, ◌++◌, Option, none, some, arith, Bool-cases,
  Option-cases, inl, inr, str_eq_refl,
}
use wardnet_cloud.Prelude.Table.{
  exists, select_one, select_one-test, exists-found, exists-select_one,
}
use wardnet_cloud.Contract.License.{Time}
use wardnet_cloud.Ddns.Repository.{Operational, Operationals, of_network, holds_acme, same_ids}
use wardnet_cloud.Ddns.Repository
use wardnet_cloud.Ddns.Service.{
  Action, delete_id, upsert_txt, statement, World, DdnsError, conflict, internal, Outcome, ok, err,
  Run, and_then, ◌>>=◌, Env, execute, call, or_internal, required, find_by_id, upsert_txt_record,
  delete_record, delete_records_or_err, cleanup_created, give_up, created_or_give_up, create_all,
  cas_acme_records, cas_or_conflict, hit_or_conflict, acme_ids, current_acme_ids,
  set_acme_challenge, pure,
}

same_ids_refl : (ids : List String) → same_ids ids ids ≡ true
unfolding same_ids
same_ids_refl [] = refl
same_ids_refl (id ∷ ids) = ground (arith, str_eq_refl id, same_ids_refl ids)

module _ (network_id : String) (new_ids : List String) (now : Time) (rows : Operationals) where
  row-hits :
      (op : Operational)
      → select_one (of_network network_id) rows ≡ some op
      → exists (holds_acme network_id op.cf_acme_record_ids) rows ≡ true
  row-hits op found =
      exists-found (of_network network_id) (holds_acme network_id op.cf_acme_record_ids) rows op
        found
        (ground (
          arith,
          select_one-test (of_network network_id) rows found,
          same_ids_refl op.cf_acme_record_ids,
        ))

  ids-hit :
      (ids : List String)
      → exists (of_network network_id) rows ≡ true
      → exists (holds_acme network_id ids) rows ≡ true
      → (Repository.cas_acme_records network_id ids new_ids now rows).0 ≡ true
  unfolding Repository.cas_acme_records
  ids-hit [] there hit = rw (there, hit) refl
  ids-hit (id ∷ ids) there hit = hit

  -- The statement finds the set that was read.
  cas-hits :
      (Repository.cas_acme_records network_id
        (acme_ids (Repository.find_by_id network_id rows))
        new_ids
        now
        rows).0
      ≡ true
  unfolding Repository.cas_acme_records Repository.find_by_id acme_ids
  cas-hits = elim (Option-cases (select_one (of_network network_id) rows)) [
    | inl missing ↦ rw (missing, exists-select_one (of_network network_id) rows missing) refl
    | inr (op, found) ↦ rw found (
        ids-hit op.cf_acme_record_ids
          (exists-found (of_network network_id) (of_network network_id) rows op found
            (select_one-test (of_network network_id) rows found))
          (row-hits op found))
  ]

module _ (env : Env)
    (quiet : (done : List Action) (rows : Operationals) → env.others done rows ≡ rows) where
  -- The task reports no conflict, and if it ends well it leaves the table as it was.
  abbrev Calm {ℓ} : {A : Type ℓ} → Run A → Type ℓ
  Calm {A} m =
      (w : World) → ((m w).0 ≢ err conflict) × ((a : A) → (m w).0 ≡ ok a → (m w).1.rows ≡ w.rows)

  abbrev Peaceful {ℓ} : {A : Type ℓ} → Operationals → Run A → Type ℓ
  Peaceful rows m = (w : World) → w.rows ≡ rows → (m w).0 ≢ err conflict

  Peaceful-and_then {ℓ κ} :
      {A : Type ℓ} {B : Type κ} (rows : Operationals) (f : A → Run B)
      → ((a : A) → Peaceful rows (f a))
      → (o : Outcome A) (w : World) → o ≢ err conflict
      → ((a : A) → o ≡ ok a → w.rows ≡ rows)
      → (and_then f o w).0 ≢ err conflict
  Peaceful-and_then rows f h (ok a) w calm same = h a w (same a refl)
  Peaceful-and_then rows f h (err conflict) w calm same = absurd (calm refl)
  Peaceful-and_then rows f h (err internal) w calm same = (λ e. absurd (ground arith))

  Peaceful-bind {ℓ κ} :
      {A : Type ℓ} {B : Type κ} (rows : Operationals) (m : Run A) (f : A → Run B)
      → Calm m
      → ((a : A) → Peaceful rows (f a))
      → Peaceful rows (m >>= f)
  Peaceful-bind rows m f calm h w same =
      Peaceful-and_then rows f h (m w).0 (m w).1 (calm w).0 (λ a e. (calm w).1 a e ∙ same)

  Calm-and_then {ℓ κ} :
      {A : Type ℓ} {B : Type κ} (f : A → Run B) (rows : Operationals)
      → ((a : A) → Calm (f a))
      → (o : Outcome A) (w : World) → o ≢ err conflict
      → ((a : A) → o ≡ ok a → w.rows ≡ rows)
      → ((and_then f o w).0 ≢ err conflict)
        × ((b : B) → (and_then f o w).0 ≡ ok b → (and_then f o w).1.rows ≡ rows)
  Calm-and_then f rows h (ok a) w calm same = ((h a w).0, (λ b e. (h a w).1 b e ∙ same a refl))
  Calm-and_then f rows h (err conflict) w calm same = absurd (calm refl)
  Calm-and_then f rows h (err internal) w calm same =
      ((λ e. absurd (ground arith)), (λ b e. absurd (ground arith)))

  Calm-bind {ℓ κ} :
      {A : Type ℓ} {B : Type κ} (m : Run A) (f : A → Run B)
      → Calm m
      → ((a : A) → Calm (f a))
      → Calm (m >>= f)
  Calm-bind m f calm h w = Calm-and_then f w.rows h (m w).0 (m w).1 (calm w).0 (calm w).1

  Calm-pure {ℓ} : {A : Type ℓ} (a : A) → Calm (pure a)
  Calm-pure a w = ((λ e. absurd (ground arith)), (λ b e. refl))

  Calm-call : (a : Action) → Calm (call env a)
  unfolding call or_internal
  Calm-call a w = elim (Option-cases (env.answer w.done a)) [
    | inl failed ↦ rw failed ((λ e. absurd (ground arith)), (λ b e. refl))
    | inr (answered, found) ↦ rw found ((λ e. absurd (ground arith)), (λ b e. refl))
  ]

  Calm-required : (id : Option String) → Calm (required id)
  unfolding required
  Calm-required none w = ((λ e. absurd (ground arith)), (λ b e. refl))
  Calm-required (some id) w = ((λ e. absurd (ground arith)), (λ b e. refl))

  Calm-upsert :
      (fqdn value : String) (id : Option String) → Calm (upsert_txt_record env fqdn value id)
  unfolding upsert_txt_record
  Calm-upsert fqdn value id =
      Calm-bind (call env (upsert_txt fqdn value id)) required (Calm-call _) Calm-required

  Calm-delete : (id : String) → Calm (delete_record env id)
  unfolding delete_record
  Calm-delete id = Calm-bind (call env (delete_id id)) _ (Calm-call _) (λ a. Calm-pure tt)

  Calm-deletes : (ids : List String) → Calm (delete_records_or_err env ids)
  unfolding delete_records_or_err
  Calm-deletes [] = Calm-pure tt
  Calm-deletes (id ∷ ids) =
      Calm-bind (delete_record env id) _ (Calm-delete id) (λ a. Calm-deletes ids)

  cleanup_created-ok : (ids : List String) (w : World) → (cleanup_created env ids w).0 ≡ ok tt
  unfolding cleanup_created
  cleanup_created-ok [] w = refl
  cleanup_created-ok (id ∷ ids) w = cleanup_created-ok ids _

  give_up-err :
      (network_id : String) (prior created : List String) (e : DdnsError) (w : World)
      → (give_up env network_id prior created e w).0 ≡ err e
  unfolding give_up
  give_up-err network_id prior created e w = rw (cleanup_created-ok created w) refl

  created_or_give_up-Calm :
      (network_id : String) (prior created : List String) (rest : String → Run (List String))
      (rows : Operationals)
      → ((id : String) → Calm (rest id))
      → (o : Outcome String) (w : World) → o ≢ err conflict
      → ((id : String) → o ≡ ok id → w.rows ≡ rows)
      → let t = created_or_give_up env network_id prior created rest o w in
        (t.0 ≢ err conflict) × ((ids : List String) → t.0 ≡ ok ids → t.1.rows ≡ rows)
  unfolding created_or_give_up
  created_or_give_up-Calm network_id prior created rest rows h (ok id) w calm same =
      ((h id w).0, (λ ids e. (h id w).1 ids e ∙ same id refl))
  created_or_give_up-Calm network_id prior created rest rows h (err conflict) w calm same =
      absurd (calm refl)
  created_or_give_up-Calm network_id prior created rest rows h (err internal) w calm same =
      rw (give_up-err network_id prior created internal w)
        ((λ e. absurd (ground arith)), (λ ids e. absurd (ground arith)))

  create_all-Calm :
      (network_id fqdn : String) (prior created values : List String)
      → Calm (create_all env network_id fqdn prior created values)
  unfolding create_all
  create_all-Calm network_id fqdn prior created [] w = ((λ e. absurd (ground arith)), (λ b e. refl))
  create_all-Calm network_id fqdn prior created (value ∷ values) w =
      created_or_give_up-Calm network_id prior created
        (λ id. create_all env network_id fqdn prior (created ++ id ∷ []) values) w.rows
        (λ id. create_all-Calm network_id fqdn prior (created ++ id ∷ []) values)
        (upsert_txt_record env fqdn value none w).0 (upsert_txt_record env fqdn value none w).1
        (Calm-upsert fqdn value none w).0 (Calm-upsert fqdn value none w).1

  cas_or_conflict-Peaceful :
      (network_id : String) (new_ids : List String) (rows : Operationals)
      → Peaceful rows (
          cas_or_conflict env network_id (acme_ids (Repository.find_by_id network_id rows)) new_ids)
  unfolding cas_or_conflict cas_acme_records execute hit_or_conflict
  cas_or_conflict-Peaceful network_id new_ids rows w same = elim (Bool-cases (env.db_ok w.done)) [
    | inr broken ↦ rw broken (λ e. absurd (ground arith))
    | inl fine ↦
        rw (fine, quiet w.done w.rows, same, cas-hits network_id new_ids (env.now w.done) rows)
          (λ e. absurd (ground arith))
  ]

-- With no other writer of the table, setting an ACME challenge never reports a conflict, whatever the
-- provider and the database answer: the compare-and-set expects the very set that is stored. A
-- conflict therefore means that another replica wrote in between.
pub set_acme_challenge_alone :
    (env : Env) (network_id fqdn : String) (values : List String) (w : World)
    → ((done : List Action) (rows : Operationals) → env.others done rows ≡ rows)
    → (set_acme_challenge env network_id fqdn values w).0 ≢ err conflict
unfolding set_acme_challenge current_acme_ids find_by_id execute
set_acme_challenge_alone env network_id fqdn values w quiet = elim (Bool-cases (env.db_ok w.done)) [
  | inr broken ↦ rw broken (λ e. absurd (ground arith))
  | inl fine ↦ rw fine (
      Peaceful-bind env quiet rows (delete_records_or_err env prior) _
        (Calm-deletes env quiet prior)
        (λ u.
          Peaceful-bind env quiet rows (create_all env network_id fqdn prior [] values) _
            (create_all-Calm env quiet network_id fqdn prior [] values)
            (λ new_ids. cas_or_conflict-Peaceful env quiet network_id new_ids rows))
        (record { rows = rows; done = statement ∷ w.done }) refl)
]
  where
    rows : Operationals
    rows = env.others w.done w.rows

    prior : List String
    prior = acme_ids (Repository.find_by_id network_id rows)
