-- ===== src/Audit.antt =====
-- The security event log: pond-sec/app/audit.py, with the rows of db/audit_models.py. The source
-- address and the free text of a row are left out.
use itp2_group6_the_pond.Prelude.{ℕ, Option, List, [], ◌∷◌, ◌++◌, String, Text}

pub record AuditLog : Type 0 where
  pub action : String
  pub actor_user_id : Option ℕ
  pub target_id : Option ℕ
  pub username : Option Text

-- The row names the same account as actor and as target. A row that cannot be written is dropped;
-- here every write succeeds.
unfoldable pub record_event : String → Option ℕ → Option Text → List AuditLog → List AuditLog
record_event event user_id username log =
    log
    ++ (record { action = event; actor_user_id = user_id; target_id = user_id; username = username }
        ∷ [])
