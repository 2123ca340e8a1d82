-- ===== src/Audit.antt =====
-- internal/audit/logger.go: the events of the audit log. Audit/Logger writes them.
pub mod Logger
use ribat.Base.{Bool, Text}
use ribat.Time.{Time}

pub record Event : Type 0 where
  pub timestamp : Time
  pub image_ref : Text
  pub registry : Text
  pub repository : Text
  pub tag : Text
  pub digest : Text
  pub decision : Text
  pub reason : Text
  pub matched_rule : Text
  pub client_user : Text
  pub request_method : Text
  pub request_uri : Text
  pub cosign_verified : Bool
  pub cosign_cached : Bool
