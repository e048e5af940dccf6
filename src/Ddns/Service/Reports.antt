-- ===== src/Ddns/Service/Reports.antt =====
-- The operations that create no DNS record.
use wardnet_cloud.Prelude.{String, List, [], ◌∷◌, Option, none, some, All}
use wardnet_cloud.Ddns.Repository.{Operational}
use wardnet_cloud.Ddns.Service.{
  World, Env, find_by_id, update_in_place, update_published, upsert_a_record, report_ip,
  current_acme_ids, clear_ids, clear_acme_challenge, delete_a, tear_down, delete_records,
  delete_records_or_err,
}
use wardnet_cloud.Ddns.Service.Does.{
  CreatesNothing, Does, Does-bind, Does-find, Does-record_ip, Does-upsert_a_record, Does-delete_row,
  Does-cas, Does-delete_record, Does-deletes,
}

Does-update :
    (env : Env) (op : Option Operational) (ip : String)
    → Does CreatesNothing (update_published env op ip)
unfolding update_published update_in_place
Does-update env none ip = λ w done. done
Does-update env (some op) ip = by_columns op.cf_a_record_id op.fqdn
  where
    by_columns : (id fqdn : Option String) → Does CreatesNothing (update_in_place env id fqdn ip)
    by_columns none fqdn = λ w done. done
    by_columns (some id) none = λ w done. done
    by_columns (some id) (some fqdn) =
        Does-bind CreatesNothing (upsert_a_record env fqdn ip (some id)) _
          (Does-upsert_a_record CreatesNothing env fqdn ip (some id) tt) (λ _ w done. done)

report_ip-CreatesNothing :
    (env : Env) (network_id ip : String) → Does CreatesNothing (report_ip env network_id ip)
unfolding report_ip
report_ip-CreatesNothing env network_id ip =
    Does-bind CreatesNothing (find_by_id env network_id) _
      (Does-find CreatesNothing env network_id tt)
      (λ op.
        Does-bind CreatesNothing (update_published env op ip) _ (Does-update env op ip)
          (λ _. Does-record_ip CreatesNothing env network_id ip tt))

clear_ids-CreatesNothing :
    (env : Env) (network_id : String) (ids : List String)
    → Does CreatesNothing (clear_ids env network_id ids)
unfolding clear_ids
clear_ids-CreatesNothing env network_id [] = λ w done. done
clear_ids-CreatesNothing env network_id (id ∷ ids) =
    Does-bind CreatesNothing (delete_records_or_err env (id ∷ ids)) _
      (Does-deletes CreatesNothing env (λ id. tt) (id ∷ ids))
      (λ _. Does-cas CreatesNothing env network_id (id ∷ ids) [] tt)

clear-CreatesNothing :
    (env : Env) (network_id : String) → Does CreatesNothing (clear_acme_challenge env network_id)
unfolding clear_acme_challenge current_acme_ids
clear-CreatesNothing env network_id =
    Does-bind CreatesNothing (current_acme_ids env network_id) _
      (Does-bind CreatesNothing (find_by_id env network_id) _
        (Does-find CreatesNothing env network_id tt) (λ op w done. done))
      (clear_ids-CreatesNothing env network_id)

delete_a-CreatesNothing : (env : Env) (id : Option String) → Does CreatesNothing (delete_a env id)
unfolding delete_a
delete_a-CreatesNothing env none = λ w done. done
delete_a-CreatesNothing env (some id) = Does-delete_record CreatesNothing env id tt

tear_down-CreatesNothing :
    (env : Env) (network_id : String) (op : Option Operational)
    → Does CreatesNothing (tear_down env network_id op)
unfolding tear_down
tear_down-CreatesNothing env network_id none = λ w done. done
tear_down-CreatesNothing env network_id (some op) =
    Does-bind CreatesNothing (delete_a env op.cf_a_record_id) _
      (delete_a-CreatesNothing env op.cf_a_record_id)
      (λ _.
        Does-bind CreatesNothing (delete_records_or_err env op.cf_acme_record_ids) _
          (Does-deletes CreatesNothing env (λ id. tt) op.cf_acme_record_ids)
          (λ _. Does-delete_row CreatesNothing env network_id tt))

-- Whatever the provider, the database and the other replicas do, an IP report, the clearing of an
-- ACME challenge and the tear-down of a network create no DNS record: every call that they make at
-- the provider deletes a record or updates one in place, so none can bring a reaped record back.
creates_nothing :
    (env : Env) (network_id ip : String) (w : World)
    → All CreatesNothing w.done
    → All CreatesNothing (report_ip env network_id ip w).1.done
      × All CreatesNothing (clear_acme_challenge env network_id w).1.done
      × All CreatesNothing (delete_records env network_id w).1.done
unfolding delete_records
creates_nothing env network_id ip w done = (
  report_ip-CreatesNothing env network_id ip w done,
  clear-CreatesNothing env network_id w done,
  Does-bind CreatesNothing (find_by_id env network_id) _
      (Does-find CreatesNothing env network_id tt) (tear_down-CreatesNothing env network_id) w done,
)
