-- ===== src/Processing/Presign/Files.antt =====
-- internal/application/command/media/presign_media.go: the tests on the files of a request.
use notai_api.Base.{List, Option, [], if◌then◌else◌, ltb, none, some, ℕ, ◌∷◌}
use notai_api.Base.Int.{pos}
use notai_api.Base.Text.{Text, codes, trim_space}
use notai_api.Errors.{Result, err, new_error, ok, ◌>>=◌, ◌>>◌}
use notai_api.Media.Entity.{max_presign_batch}
use notai_api.Media.Files.{base, detect_media_type, validate_filename}
use notai_api.Media.Types.{MediaType}
use notai_api.Processing.Receive.{stop_at}
use notai_api.Quota.Assert.{assert_batch_upload, assert_media_upload}
use notai_api.Quota.Types.{QuotaUsageView}

pub record PresignFileInput : Type 0 where
  pub filename : Text
  pub content_type : Text

-- The test on the number of the files.
unfoldable pub batch_fits : Option (Result QuotaUsageView) → ℕ → Result (Unit {0})
batch_fits none n =
    if ltb max_presign_batch n then err (new_error (codes "too many files")) else ok tt
batch_fits (some usage) n = stop_at (assert_batch_upload usage (pos n))

-- The loop that makes `normalized`.
unfoldable pub normalize_file :
    Option (Result QuotaUsageView) → PresignFileInput → Result PresignFileInput
unfolding trim_space base
normalize_file usage f =
    let name = base (trim_space f.filename) in
    let ct = trim_space f.content_type in
    let fits : MediaType → Result (Unit {0}) =
      λ t. elim usage [ none ↦ ok tt | some u ↦ stop_at (assert_media_upload u t none) ] in
    do
      stop_at (validate_filename name)
      t ← detect_media_type name ct
      fits t
      ok (record { filename = name; content_type = ct })

unfoldable pub normalize_files :
    Option (Result QuotaUsageView) → List PresignFileInput → Result (List PresignFileInput)
normalize_files usage [] = ok []
normalize_files usage (f ∷ fs) = do
  g ← normalize_file usage f
  gs ← normalize_files usage fs
  ok (g ∷ gs)
