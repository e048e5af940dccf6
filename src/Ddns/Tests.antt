-- ===== src/Ddns/Tests.antt =====
-- The theorems on the DNS plane at one network and an environment that never fails.
use wardnet_cloud.Prelude.{◌≡◌, refl, true, false, [], ◌∷◌, some, none, ◌≢◌}
use wardnet_cloud.Prelude.Int.{pos}
use wardnet_cloud.Prelude.Table.{exists, select_one}
use wardnet_cloud.Ddns.Repository.{Operational, Operationals, claim_a_record, of_network}
use wardnet_cloud.Ddns.Repository
use wardnet_cloud.Ddns.Repository.Claims.{none_yet, claim_exclusive}
use wardnet_cloud.Ddns.Run.{World, Env, err, conflict}
use wardnet_cloud.Ddns.Service.{provision, delete_records, set_acme_challenge}
use wardnet_cloud.Ddns.Service.Provisioning.{SparesLive, provision-SparesLive}
use wardnet_cloud.Ddns.Service.Teardown.{delete_records_lem, RowLast}
use wardnet_cloud.Ddns.Service.Conflicts.{set_acme_challenge_alone}

abbrev row : Operational
row = record {
  network_id = "n1";
  ip = some "8.8.8.8";
  fqdn = none;
  cf_a_record_id = none;
  cf_acme_record_ids = "x1" ∷ [];
  updated_at = pos 1;
}

abbrev env : Env
env = record {
  others = λ done rows. rows;
  db_ok = λ done. true;
  answer = λ done action. some (some "r1");
  now = λ done. pos 5;
}

abbrev world : World
world = record { rows = row ∷ []; done = [] }

won : (claim_a_record "n1" "alice.my" "r1" (pos 5) (row ∷ [])).0 ≡ true
unfolding claim_a_record exists
won = refl

claim_exclusive_example :
    claim_a_record "n1" "alice.my" "r2"
      (pos 6)
      (claim_a_record "n1" "alice.my" "r1" (pos 5) (row ∷ [])).1
    ≡ (false, (claim_a_record "n1" "alice.my" "r1" (pos 5) (row ∷ [])).1)
claim_exclusive_example =
    claim_exclusive "n1" "alice.my" "r1" "alice.my" "r2" (pos 5) (pos 6) (row ∷ [])
      (claim_a_record "n1" "alice.my" "r1" (pos 5) (row ∷ [])).1 won none_yet

provision-SparesLive_example : SparesLive "n1" (provision env "n1" "alice.my" "8.8.8.8" world).1
provision-SparesLive_example = provision-SparesLive env "n1" "alice.my" "8.8.8.8" world tt

row_found : Repository.find_by_id "n1" (row ∷ []) ≡ some row
unfolding Repository.find_by_id select_one
row_found = refl

delete_records_lem_example :
    RowLast env "n1" (row ∷ []) none ("x1" ∷ []) (delete_records env "n1" world)
delete_records_lem_example = delete_records_lem env "n1" world row row_found refl

set_acme_challenge_alone_example :
    (set_acme_challenge env "n1" "_acme-challenge.alice.my" ("v1" ∷ "v2" ∷ []) world).0
    ≢ err conflict
set_acme_challenge_alone_example =
    set_acme_challenge_alone env "n1" "_acme-challenge.alice.my" ("v1" ∷ "v2" ∷ []) world
      (λ done rows. refl)
