-- ===== src/Ddns/Service/Does.antt =====
-- Properties of everything that a task of the service does.
use wardnet_cloud.Prelude.{
  String, Bool, true, false, List, [], ◌∷◌, Option, none, some, All, Bool-cases, inl, inr,
}
use wardnet_cloud.Contract.License.{Time}
use wardnet_cloud.Ddns.Repository.{Operational, Operationals}
use wardnet_cloud.Ddns.Repository
use wardnet_cloud.Ddns.Service.{
  Action, upsert_a, upsert_txt, delete_id, statement, World, Outcome, ok, err, Run, and_then, ◌>>=◌,
  Env, execute, call, find_by_id, record_ip, upsert_a_record, required, delete_record,
  delete_records_or_err, cas_or_conflict, cas_acme_records, hit_or_conflict, delete_row,
}

-- The action makes no new record at the provider.
abbrev pub CreatesNothing : Action → Type 0
CreatesNothing (upsert_a fqdn ip none) = ⊥
CreatesNothing (upsert_txt fqdn value none) = ⊥
CreatesNothing _ = Unit

-- All that the task does satisfies `Q`.
abbrev pub Does {ℓ} : {A : Type ℓ} → (Action → Type 0) → Run A → Type 0
Does Q m = (w : World) → All Q w.done → All Q (m w).1.done

pub Does-and_then {ℓ κ} :
    {A : Type ℓ} {B : Type κ} (Q : Action → Type 0) (f : A → Run B)
    → ((a : A) → Does Q (f a))
    → (o : Outcome A) → Does Q (and_then f o)
Does-and_then Q f h (ok a) w done = h a w done
Does-and_then Q f h (err e) w done = done

pub Does-bind {ℓ κ} :
    {A : Type ℓ} {B : Type κ} (Q : Action → Type 0) (m : Run A) (f : A → Run B)
    → Does Q m
    → ((a : A) → Does Q (f a))
    → Does Q (m >>= f)
Does-bind Q m f h k w done = Does-and_then Q f k (m w).0 (m w).1 (h w done)

pub Does-execute {ℓ} :
    {A : Type ℓ} (Q : Action → Type 0) (env : Env) (sql : Time → Operationals → A × Operationals)
    → Q statement
    → Does Q (execute env sql)
unfolding execute
Does-execute Q env sql q w done = elim (Bool-cases (env.db_ok w.done)) [
  | inl fine ↦ rw fine (q, done)
  | inr broken ↦ rw broken (q, done)
]

pub Does-call : (Q : Action → Type 0) (env : Env) (a : Action) → Q a → Does Q (call env a)
unfolding call
Does-call Q env a q w done = (q, done)

Does-required : (Q : Action → Type 0) (id : Option String) → Does Q (required id)
unfolding required
Does-required Q none w done = done
Does-required Q (some id) w done = done

pub Does-upsert_a_record :
    (Q : Action → Type 0) (env : Env) (fqdn ip : String) (id : Option String)
    → Q (upsert_a fqdn ip id)
    → Does Q (upsert_a_record env fqdn ip id)
unfolding upsert_a_record
Does-upsert_a_record Q env fqdn ip id q =
    Does-bind Q (call env (upsert_a fqdn ip id)) required (Does-call Q env _ q) (Does-required Q)

pub Does-find :
    (Q : Action → Type 0) (env : Env) (network_id : String)
    → Q statement
    → Does Q (find_by_id env network_id)
unfolding find_by_id
Does-find Q env network_id q =
    Does-execute Q env (λ now rows. (Repository.find_by_id network_id rows, rows)) q

pub Does-record_ip :
    (Q : Action → Type 0) (env : Env) (network_id ip : String)
    → Q statement
    → Does Q (record_ip env network_id ip)
unfolding record_ip
Does-record_ip Q env network_id ip q =
    Does-execute Q env (λ now rows. (tt, Repository.record_ip network_id ip now rows)) q

pub Does-delete_row :
    (Q : Action → Type 0) (env : Env) (network_id : String)
    → Q statement
    → Does Q (delete_row env network_id)
unfolding delete_row
Does-delete_row Q env network_id q =
    Does-execute Q env (λ now rows. (tt, Repository.delete network_id rows)) q

Does-hit : (Q : Action → Type 0) (hit : Bool) → Does Q (hit_or_conflict hit)
unfolding hit_or_conflict
Does-hit Q true w done = done
Does-hit Q false w done = done

pub Does-cas :
    (Q : Action → Type 0) (env : Env) (network_id : String) (prior new_ids : List String)
    → Q statement
    → Does Q (cas_or_conflict env network_id prior new_ids)
unfolding cas_or_conflict cas_acme_records
Does-cas Q env network_id prior new_ids q =
    Does-bind Q (cas_acme_records env network_id prior new_ids) _
      (Does-execute Q env
        (λ now rows. Repository.cas_acme_records network_id prior new_ids now rows) q)
      (Does-hit Q)

pub Does-delete_record :
    (Q : Action → Type 0) (env : Env) (id : String)
    → Q (delete_id id)
    → Does Q (delete_record env id)
unfolding delete_record
Does-delete_record Q env id q =
    Does-bind Q (call env (delete_id id)) _ (Does-call Q env _ q) (λ _ w done. done)

pub Does-deletes :
    (Q : Action → Type 0) (env : Env)
    → ((id : String) → Q (delete_id id))
    → (ids : List String) → Does Q (delete_records_or_err env ids)
unfolding delete_records_or_err
Does-deletes Q env q [] w done = done
Does-deletes Q env q (id ∷ ids) w done =
    Does-bind Q (delete_record env id) _ (Does-delete_record Q env id (q id))
      (λ _. Does-deletes Q env q ids) w done
