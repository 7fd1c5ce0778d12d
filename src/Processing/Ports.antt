-- ===== src/Processing/Ports.antt =====
-- What the upload commands ask of the object storage, the thumbnailer and the quota handler
-- (internal/domain/port, internal/application/command/quota), over the state of the database.
use notai_api.Base.{List, Option, ℕ}
use notai_api.Base.Text.{Text}
use notai_api.Base.Values.{Uuid}
use notai_api.Errors.{Err, Result}
use notai_api.Quota.Types.{QuotaUsageView}

pub record Ports (S : Type 0) : Type 0 where
  -- Get, and what is read from the body that it opens.
  pub get_object : Text → S → Result (List ℕ)
  -- Delete, whose error the code drops.
  pub delete_object : Text → S → S
  pub put_thumbnail : Text → List ℕ → S → Result S
  pub generate_jpeg : List ℕ → Result (List ℕ)
  -- GetQuotaUsage; none where the handler has no quota handler.
  pub usage : Option (Uuid → S → Result QuotaUsageView)
  -- The texts of an error and of a UUID.
  pub text_of : Err → Text
  pub text_of_uuid : Uuid → Text
