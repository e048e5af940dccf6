-- ===== src/Tenants/Identities/Sessions.antt =====
-- What a session gives, and what is left of it once it is revoked.
use wardnet_cloud.Prelude.{String, ◌≡◌, Bool, false, not, ◌&&◌, List}
use wardnet_cloud.Prelude.Text.{Str}
use wardnet_cloud.Prelude.Table.{exists, select}
use wardnet_cloud.Contract.License.{Time}
use wardnet_cloud.Tenants.Repository.{Tenant}
use wardnet_cloud.Tenants.Identities.Repository.{
  Session, hashed_as, session_of, create, touch_and_get_tenant, delete_session, delete_sessions,
}
use wardnet_cloud.Tenants.Identities.Tasks.{Web}
use wardnet_cloud.Tenants.Identities.{logout, logout_all, purge_for}

-- The statements on the sessions, by whatever tasks. A new token has another hash than the one
-- followed.
pub data Step (h : String) : List Session → List Session → Type 0 where
  creates :
      (s : Session) (rows : List Session) → hashed_as h s ≡ false → Step h rows (create s rows)
  touches :
      (tenants : List Tenant) (g : String) (now expires_at : Time) (rows : List Session)
      → Step h rows (touch_and_get_tenant tenants g now expires_at rows).1
  deletes : (g : String) (rows : List Session) → Step h rows (delete_session g rows).1
  deletes_all : (t : String) (rows : List Session) → Step h rows (delete_sessions t rows).1
  cascades : (left : Session → Bool) (rows : List Session) → Step h rows (select left rows)

pub data Reach (h : String) (rows : List Session) : List Session → Type 0 where
  here : Reach h rows rows
  next : {a b : List Session} → Reach h rows a → Step h a b → Reach h rows b

abbrev pub NoSession : String → List Session → Type 0
NoSession h rows = exists (hashed_as h) rows ≡ false

-- Every session under the hash is one of the tenant.
abbrev pub Owned : String → String → List Session → Type 0
Owned h t rows = exists (λ s. hashed_as h s && not (session_of t s)) rows ≡ false

-- What signs a browser out: of one session, or of all sessions of a tenant.
pub data Revokes (hash_token : Str → String) (raw : Str) : Web → Web → Type 1 where
  by_logout : (w : Web) → Revokes hash_token raw w (logout hash_token raw w).1
  by_logout_all :
      (t : String) (w : Web)
      → Owned (hash_token raw) t w.sessions
      → Revokes hash_token raw w (logout_all t w).1
  by_purge :
      (t : String) (w : Web)
      → Owned (hash_token raw) t w.sessions
      → Revokes hash_token raw w (purge_for t w).1
