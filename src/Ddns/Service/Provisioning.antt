-- ===== src/Ddns/Service/Provisioning.antt =====
-- `provision`: which record a replica that lost the claim may drop.
use wardnet_cloud.Prelude.{
  String, ◌≡◌, refl, Bool, true, false, ◌⊎◌, inl, inr, List, ◌∷◌, All, Bool-cases, Option-cases,
}
use wardnet_cloud.Ddns.Repository.{Operational, Operationals}
use wardnet_cloud.Ddns.Repository
use wardnet_cloud.Ddns.Service.{
  Action, find_a, delete_id, statement, World, Outcome, ok, err, Run, and_then, ◌>>=◌, Env, execute,
  call, find_by_id, claim_a_record, upsert_a_record, provision, settle, unless_winner, stored_id,
  is_some_id, delete_record, or_internal,
}
use wardnet_cloud.Ddns.Service.Does.{Does, Does-call, Does-execute, Does-upsert_a_record}

abbrev IsNoDelete : Action → Type 0
IsNoDelete (delete_id id) = ⊥
IsNoDelete _ = Unit

-- Nothing was deleted at the provider, or one record as the last action, which the table did not
-- hold as the network's A record.
abbrev pub SparesLive : String → World → Type 0
SparesLive network_id t =
    All IsNoDelete t.done
    ⊎ ((id : String) × (before : List Action) × (t.done ≡ delete_id id ∷ before)
        × All IsNoDelete before
        × (is_some_id (stored_id (Repository.find_by_id network_id t.rows)) id ≡ false))

spares-and_then {ℓ} :
    {A : Type ℓ} {B : Type 0} (network_id : String) (f : A → Run B)
    → ((a : A) (w : World) → All IsNoDelete w.done → SparesLive network_id (f a w).1)
    → (o : Outcome A) (w : World) → All IsNoDelete w.done
    → SparesLive network_id (and_then f o w).1
spares-and_then network_id f h (ok a) w done = h a w done
spares-and_then network_id f h (err e) w done = inl done

spares-bind {ℓ} :
    {A : Type ℓ} {B : Type 0} (network_id : String) (m : Run A) (f : A → Run B)
    → Does IsNoDelete m
    → ((a : A) (w : World) → All IsNoDelete w.done → SparesLive network_id (f a w).1)
    → (w : World) → All IsNoDelete w.done
    → SparesLive network_id ((m >>= f) w).1
spares-bind network_id m f h k w done = spares-and_then network_id f k (m w).0 (m w).1 (h w done)

delete_record-world :
    (env : Env) (id : String) (w : World)
    → (delete_record env id w).1 ≡ record w { done = delete_id id ∷ w.done }
unfolding delete_record call or_internal
delete_record-world env id w = elim (Option-cases (env.answer w.done (delete_id id))) [
  | inl failed ↦ rw failed refl
  | inr (answered, e) ↦ rw e refl
]

settle-spares :
    (env : Env) (network_id record_id : String) (won : Bool) (w : World)
    → All IsNoDelete w.done
    → SparesLive network_id (settle env won network_id record_id w).1
unfolding settle find_by_id execute unless_winner delete_record call
settle-spares env network_id record_id true w done = inl done
settle-spares env network_id record_id false w done = elim (Bool-cases (env.db_ok w.done)) [
  | inr broken ↦ rw broken (inl (tt, done))
  | inl fine ↦
      rw fine
        (elim (Bool-cases
          (is_some_id (stored_id (Repository.find_by_id network_id rows)) record_id)) [
            | inl live ↦ rw live (inl (tt, done))
            | inr stray ↦ rw stray (dropped stray)
          ])
]
  where
    rows : Operationals
    rows = env.others w.done w.rows

    read : World
    read = record { rows = rows; done = statement ∷ w.done }

    dropped :
        is_some_id (stored_id (Repository.find_by_id network_id rows)) record_id ≡ false
        → SparesLive network_id (unless_winner env false record_id read).1
    dropped stray =
        rw (delete_record-world env record_id read)
          (inr (record_id, statement ∷ w.done, refl, (tt, done), stray))

-- A replica that provisions a network deletes at most one record at the provider, as its last action,
-- and never the one that the table holds as the network's A record when the loser of the claim reads
-- it: whatever the provider, the database and the other replicas do, the winner's record stays.
pub provision-SparesLive :
    (env : Env) (network_id fqdn ip : String) (w : World)
    → All IsNoDelete w.done
    → SparesLive network_id (provision env network_id fqdn ip w).1
unfolding provision claim_a_record
provision-SparesLive env network_id fqdn ip =
    spares-bind network_id (call env (find_a fqdn)) _ (Does-call IsNoDelete env (find_a fqdn) tt)
      (λ existing.
        spares-bind network_id (upsert_a_record env fqdn ip existing) _
          (Does-upsert_a_record IsNoDelete env fqdn ip existing tt)
          (λ record_id.
            spares-bind network_id (claim_a_record env network_id fqdn record_id) _
              (Does-execute IsNoDelete env
                (λ now rows. Repository.claim_a_record network_id fqdn record_id now rows) tt)
              (settle-spares env network_id record_id)))
