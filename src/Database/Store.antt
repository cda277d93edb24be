-- ===== src/Database/Store.antt =====
-- The tables of the database, and its log of events.
-- An operation that succeeds returns its value and the new tables. One that throws leaves them as
-- they were: it is a transaction, or it throws before its first write.
use essentials_calls.Base.{
  ℕ, suc, String, ◌≡◌, refl, Bool, true, false, Option, none, some, List, ◌∷◌, ltb, if◌then◌else◌,
}
use essentials_calls.Base.Entries.{Entries}
use essentials_calls.Json.{Json, Fields, object, safe_details}
use essentials_calls.Model.{Topology}
use essentials_calls.Security.Cipher.{EncryptedValue, SecretCipher}
use essentials_calls.History.{take}

pub data Role : Type 0 where
  viewer editor admin : Role

pub record Actor : Type 0 where
  pub id : Option String
  pub username : String
  pub role : Option Role

pub record RevisionRow : Type 0 where
  pub revision : ℕ
  pub topology : Topology
  pub actor_id : Option String
  pub actor_name : String
  pub comment : String
  pub change_summary : String
  pub source : String
  pub created_at : String

pub record TopologyState : Type 0 where
  pub current : ℕ
  pub active : Option ℕ
  pub last_good : Option ℕ

pub record DeploymentRow : Type 0 where
  pub id : String
  pub revision : ℕ
  pub actor_name : String
  pub started_at : String
  pub finished_at : Option String
  pub config_checksum : Option String
  pub result : String
  pub details : Json

pub record UserRecord : Type 0 where
  pub id : String
  pub username : String
  pub password_hash : String
  pub role : Role
  pub disabled : Bool
  pub created_at : String
  pub updated_at : String

pub record SessionRow : Type 0 where
  pub token_hash : String
  pub user_id : String
  pub csrf_token : String
  pub created_at : ℕ
  pub last_seen_at : ℕ
  pub expires_at : ℕ

pub record Attempt : Type 0 where
  pub window_start : ℕ
  pub failures : ℕ
  pub blocked_until : ℕ

pub record AuditRecord : Type 0 where
  pub id : ℕ
  pub timestamp : String
  pub actor_id : Option String
  pub actor : String
  pub action : String
  pub target : String
  pub outcome : String
  pub details : Json

-- The tables, and the cipher of the process. The rows of a table whose key SQLite counts up stand
-- newest first, the order in which they are queried.
pub record PbxDatabase : Type 0 where
  pub cipher : SecretCipher
  pub revision_limit : ℕ
  pub revisions : List RevisionRow
  pub next_revision : ℕ
  pub state : TopologyState
  pub sip_secrets : Entries EncryptedValue
  pub deployments : List DeploymentRow
  pub users : List UserRecord
  pub sessions : List SessionRow
  pub login_attempts : Entries Attempt
  pub audit_events : List AuditRecord
  pub next_audit : ℕ

-- What an operation throws. `constraint` is an error of SQLite: a row that is missing or there
-- already.
pub data Error : Type 0 where
  revision_conflict : ℕ → ℕ → Error
  plaintext_secret : Error
  no_revision : ℕ → Error
  secret_decryption : String → Error
  invalid_secret : Error
  no_extension : Error
  invalid_username : Error
  no_user : Error
  user_safety : Error
  constraint : Error

pub data Result (A : Type 0) : Type 0 where
  ok : A → Result A
  err : Error → Result A

infixl 5 ◌>>=◌
abbrev pub ◌>>=◌ : {A B : Type 0} → Result A → (A → Result B) → Result B
ok a >>= f = f a
err e >>= f = err e

-- The parts of a chain that succeeds.
pub >>=_ok :
    {A B : Type 0} (r : Result A) (f : A → Result B) (b : B)
    → (r >>= f) ≡ ok b
    → (a : A) × (r ≡ ok a) × (f a ≡ ok b)
>>=_ok (ok a) f b h = (a, refl, h)
>>=_ok (err e) f b h = cc h

pub ok_injective : {A : Type 0} (a b : A) → ok a ≡ ok b → a ≡ b
ok_injective a b e = cc

-- A guard that throws.
abbrev pub unless : {A : Type 0} → Bool → Error → Result A → Result A
unless true e r = err e
unless false e r = r

pub unless_ok :
    {A : Type 0} (b : Bool) (e : Error) (r : Result A) (a : A)
    → unless b e r ≡ ok a
    → (b ≡ false) × (r ≡ ok a)
unless_ok true e r a h = cc h
unless_ok false e r a h = (refl, h)

-- `auditInternal`
unfoldable pub audit :
    String → Actor → String → String → String → Fields → PbxDatabase → PbxDatabase
audit now actor action target outcome details d = record d {
  audit_events =
      (record {
        id = d.next_audit;
        timestamp = now;
        actor_id = actor.id;
        actor = actor.username;
        action = action;
        target = target;
        outcome = outcome;
        details = safe_details (object details);
      })
      ∷ d.audit_events;
  next_audit = suc d.next_audit;
}

-- `Math.min(Math.max(limit, 1), most)`, for a safe integer, of which a negative one counts as
-- 0; any other limit is `usual`.
unfoldable pub bounded_limit : ℕ → ℕ → Option ℕ → ℕ
bounded_limit usual most none = usual
bounded_limit usual most (some limit) =
    let low = if ltb limit 1 then 1 else limit in if ltb most low then most else low

unfoldable pub list_audit : Option ℕ → PbxDatabase → List AuditRecord
unfolding bounded_limit
list_audit limit d = take (bounded_limit 100 500 limit) d.audit_events
