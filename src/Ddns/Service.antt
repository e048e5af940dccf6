-- ===== src/Ddns/Service.antt =====
-- crates/ddns/src/service/ddns.rs: a record written at the provider, and its persistence.
pub mod Does
pub mod Reports
pub mod Provisioning
pub mod Teardown
pub mod Conflicts
use wardnet_cloud.Prelude.{
  String, Bool, true, false, not, List, [], ◌∷◌, ◌++◌, Option, none, some, if◌then◌else◌, str_eq,
}
use wardnet_cloud.Contract.License.{Time}
use wardnet_cloud.Ddns.Repository.{Operational, Operationals}
use wardnet_cloud.Ddns.Repository
pub use wardnet_cloud.Ddns.Run.{
  Action, find_a, upsert_a, upsert_txt, delete_id, statement, World, DdnsError, conflict, internal,
  Outcome, ok, err, Run, and_then, ◌>>=◌, ◌>>◌, pure, fail, best_effort, Env,
}
unfoldable pub use wardnet_cloud.Ddns.Run.{execute, call, or_internal, required}

abbrev pub stored_id : Option Operational → Option String
stored_id none = none
stored_id (some op) = op.cf_a_record_id

abbrev pub is_some_id : Option String → String → Bool
is_some_id none id = false
is_some_id (some stored) id = str_eq stored id

fqdn_of : Option Operational → Option String
fqdn_of none = none
fqdn_of (some op) = op.fqdn

acme_ids : Option Operational → List String
acme_ids none = []
acme_ids (some op) = op.cf_acme_record_ids

pub hit_or_conflict : Bool → Run (Unit {0})
hit_or_conflict true = pure tt
hit_or_conflict false = fail conflict

module _ (env : Env) where
  pub find_by_id : String → Run (Option Operational)
  unfolding execute
  find_by_id network_id = execute env (λ now rows. (Repository.find_by_id network_id rows, rows))

  pub record_ip : String → String → Run (Unit {0})
  unfolding execute
  record_ip network_id ip =
      execute env (λ now rows. (tt, Repository.record_ip network_id ip now rows))

  pub claim_a_record : String → String → String → Run Bool
  unfolding execute
  claim_a_record network_id fqdn record_id =
      execute env (λ now rows. Repository.claim_a_record network_id fqdn record_id now rows)

  pub cas_acme_records : String → List String → List String → Run Bool
  unfolding execute
  cas_acme_records network_id expected new_ids =
      execute env (λ now rows. Repository.cas_acme_records network_id expected new_ids now rows)

  pub delete_row : String → Run (Unit {0})
  unfolding execute
  delete_row network_id = execute env (λ now rows. (tt, Repository.delete network_id rows))

  pub delete_record : String → Run (Unit {0})
  unfolding call
  delete_record id = do call env (delete_id id) >>= λ _. pure tt

  -- A record that was written has an id.
  pub upsert_a_record : String → String → Option String → Run String
  unfolding call required
  upsert_a_record fqdn ip id = do answered ← call env (upsert_a fqdn ip id); required answered

  upsert_txt_record : String → String → Option String → Run String
  unfolding call required
  upsert_txt_record fqdn value id = do
    answered ← call env (upsert_txt fqdn value id)
    required answered

  -- The A record that the row names, if it has one.
  update_in_place : Option String → Option String → String → Run (Unit {0})
  unfolding upsert_a_record
  update_in_place (some record_id) (some fqdn) ip = do
    id ← upsert_a_record fqdn ip (some record_id)
    pure tt
  update_in_place _ _ ip = pure tt

  update_published : Option Operational → String → Run (Unit {0})
  unfolding update_in_place
  update_published none ip = pure tt
  update_published (some op) ip = update_in_place op.cf_a_record_id op.fqdn ip

  unfoldable pub report_ip : String → String → Run (Unit {0})
  unfolding find_by_id update_published record_ip
  report_ip network_id ip = do
    op ← find_by_id network_id
    update_published op ip
    record_ip network_id ip

  -- A claim that was lost: drop the record held, unless the winner stored that one.
  pub unless_winner : Bool → String → Run (Unit {0})
  unfolding delete_record
  unless_winner true record_id = pure tt
  unless_winner false record_id = best_effort (delete_record record_id)

  pub settle : Bool → String → String → Run (Unit {0})
  unfolding find_by_id unless_winner
  settle true network_id record_id = pure tt
  settle false network_id record_id = do
    winner ← find_by_id network_id
    unless_winner (is_some_id (stored_id winner) record_id) record_id

  unfoldable pub provision : String → String → String → Run (Unit {0})
  unfolding call upsert_a_record claim_a_record settle
  provision network_id fqdn ip = do
    existing ← call env (find_a fqdn)
    record_id ← upsert_a_record fqdn ip existing
    won ← claim_a_record network_id fqdn record_id
    settle won network_id record_id

  unfoldable pub network_fqdn : String → Run (Option String)
  unfolding find_by_id fqdn_of
  network_fqdn network_id = do op ← find_by_id network_id; pure (fqdn_of op)

  current_acme_ids : String → Run (List String)
  unfolding find_by_id acme_ids
  current_acme_ids network_id = do op ← find_by_id network_id; pure (acme_ids op)

  pub delete_records_or_err : List String → Run (Unit {0})
  unfolding delete_record
  delete_records_or_err [] = pure tt
  delete_records_or_err (id ∷ ids) = do delete_record id; delete_records_or_err ids

  cleanup_created : List String → Run (Unit {0})
  unfolding delete_record
  cleanup_created [] = pure tt
  cleanup_created (id ∷ ids) = do best_effort (delete_record id); cleanup_created ids

  pub cas_or_conflict : String → List String → List String → Run (Unit {0})
  unfolding cas_acme_records hit_or_conflict
  cas_or_conflict network_id prior new_ids = do
    hit ← cas_acme_records network_id prior new_ids
    hit_or_conflict hit

  -- A TXT record that could not be created: take back those that were, clear the stored ids, and
  -- surface the provider's error.
  give_up : String → List String → List String → DdnsError → Run (List String)
  unfolding cleanup_created cas_acme_records
  give_up network_id prior created e = do
    cleanup_created created
    best_effort (cas_acme_records network_id prior [])
    fail e

  created_or_give_up :
      String
      → List String
      → List String
      → (String → Run (List String))
      → Outcome String
      → Run (List String)
  unfolding give_up
  created_or_give_up network_id prior created rest (ok id) = rest id
  created_or_give_up network_id prior created rest (err e) = give_up network_id prior created e

  -- The loop over the values; the ids created so far are in their order.
  create_all : String → String → List String → List String → List String → Run (List String)
  unfolding upsert_txt_record created_or_give_up
  create_all network_id fqdn prior created [] w = (ok created, w)
  create_all network_id fqdn prior created (value ∷ values) w =
      let (id, w') = upsert_txt_record fqdn value none w in
      created_or_give_up network_id prior created
        (λ id. create_all network_id fqdn prior (created ++ id ∷ []) values) id w'

  unfoldable pub set_acme_challenge : String → String → List String → Run (Unit {0})
  unfolding current_acme_ids delete_records_or_err create_all cas_or_conflict
  set_acme_challenge network_id fqdn values = do
    prior ← current_acme_ids network_id
    delete_records_or_err prior
    new_ids ← create_all network_id fqdn prior [] values
    cas_or_conflict network_id prior new_ids

  clear_ids : String → List String → Run (Unit {0})
  unfolding delete_records_or_err cas_or_conflict
  clear_ids network_id [] = pure tt
  clear_ids network_id (id ∷ ids) = do
    delete_records_or_err (id ∷ ids)
    cas_or_conflict network_id (id ∷ ids) []

  unfoldable pub clear_acme_challenge : String → Run (Unit {0})
  unfolding current_acme_ids clear_ids
  clear_acme_challenge network_id = do
    prior ← current_acme_ids network_id
    clear_ids network_id prior

  delete_a : Option String → Run (Unit {0})
  unfolding delete_record
  delete_a none = pure tt
  delete_a (some id) = delete_record id

  tear_down : String → Option Operational → Run (Unit {0})
  unfolding delete_a delete_records_or_err delete_row
  tear_down network_id none = pure tt
  tear_down network_id (some op) = do
    delete_a op.cf_a_record_id
    delete_records_or_err op.cf_acme_record_ids
    delete_row network_id

  unfoldable pub delete_records : String → Run (Unit {0})
  unfolding find_by_id tear_down
  delete_records network_id = do op ← find_by_id network_id; tear_down network_id op
