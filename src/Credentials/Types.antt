-- ===== src/Credentials/Types.antt =====
-- The types of src/types.ts that the managers share, and what src/credential-manager.ts asks of the
-- entities it manages: their fields, and the UPDATE that revokes one.
use purge_api_gateway.Base.{List, Bool, true, ℕ, ◌≡◌, Option, Str}
use purge_api_gateway.Policy.Types.{PolicyDocument}

pub record AuthResult : Type 0 where
  pub authorized : Bool
  pub error : Option Str
  pub denied : Option (List Str)
  pub key_name : Option Str
  pub upstream_token_id : Option Str

pub data BulkStatus : Type 0 where
  revoked already_revoked deleted not_found : BulkStatus

pub record BulkItemResult : Type 0 where
  pub id : Str
  pub status : BulkStatus

pub record BulkResult : Type 0 where
  pub processed : ℕ
  pub results : List BulkItemResult

pub data CurrentStatus : Type 0 where
  active revoked expired not_found : CurrentStatus

pub record BulkInspectItem : Type 0 where
  pub id : Str
  pub current_status : CurrentStatus
  pub would_become : Str

pub record BulkDryRunResult : Type 0 where
  pub would_process : ℕ
  pub items : List BulkInspectItem

-- `BaseCredential` with the primary key, and the abstract messages of the manager.
pub record Credential (T : Type 0) : Type 0 where
  pub id : T → Str
  pub name : T → Str
  pub is_revoked : T → Bool
  pub expires_at : T → Option ℕ
  pub policy : T → Str
  pub mark_revoked : T → T
  pub invalid_message : Str
  pub revoked_message : Str
  pub expired_message : Str
  pub denied_message : List Str → Str
  -- SET revoked = 1 changes nothing else.
  pub id-mark_revoked : (t : T) → id (mark_revoked t) ≡ id t
  pub policy-mark_revoked : (t : T) → policy (mark_revoked t) ≡ policy t
  pub is_revoked-mark_revoked : (t : T) → is_revoked (mark_revoked t) ≡ true

-- An entry of the in-memory cache.
pub record CachedEntry (T : Type 0) : Type 0 where
  pub entity : T
  pub resolved_policy : PolicyDocument
  pub cached_at : ℕ
