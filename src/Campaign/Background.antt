-- ===== src/Campaign/Background.antt =====
-- internal/domain/campaign/background.go: the files of a background. FileExtension is that of the
-- media, text for text. The text of a UUID comes from a package outside the repository: it is the
-- argument `str`.
use notai_api.Base.{Bool, Option, if◌then◌else◌, is_empty, none, not, some, ◌++◌}
use notai_api.Base.Text.{Text, codes}
use notai_api.Base.Values.{Uuid}
use notai_api.Errors.{Err, unsupported_background_type}
use notai_api.Media.Files.{file_extension, is_image_ext}

unfoldable pub validate_background_filename : Text → Option Err
unfolding file_extension is_image_ext
validate_background_filename filename =
    let e = file_extension filename in
    if is_empty e
    then some unsupported_background_type
    else if not (is_image_ext e)
    then some unsupported_background_type
    else none

unfoldable pub is_image_filename : Text → Bool
unfolding file_extension is_image_ext
is_image_filename filename = is_image_ext (file_extension filename)

unfoldable pub new_background_object_key : (Uuid → Text) → Uuid → Uuid → Text → Uuid → Text
unfolding file_extension
new_background_object_key str client campaign filename id =
    let e = file_extension filename in
    let file_key = if not (is_empty e) then str id ++ codes "." ++ e else str id in
    codes "clients/" ++ str client ++ codes "/campaigns/" ++ str campaign ++ codes "/" ++ file_key

unfoldable pub new_background_thumbnail_key : (Uuid → Text) → Uuid → Uuid → Text
new_background_thumbnail_key str client campaign =
    codes "clients/"
    ++ str client
    ++ codes "/campaigns/"
    ++ str campaign
    ++ codes "/thumbnails/"
    ++ str campaign
    ++ codes ".jpg"
