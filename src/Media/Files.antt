-- ===== src/Media/Files.antt =====
-- internal/domain/media/entity.go: filenames, media types and object keys. The text of a UUID comes
-- from a package outside the repository: it is the argument `str`.
use notai_api.Base.{
  Bool, Option, [], any_of, if◌then◌else◌, is_empty, none, not, some, ◌&&◌, ◌++◌, ◌==◌, ◌||◌, ◌∷◌,
}
use notai_api.Base.Text.{Text, codes, contains, has_prefix, text_eq, to_lower, trim_space}
use notai_api.Base.Values.{Uuid}
use notai_api.Errors.{Err, Result, err, ok, unsupported_content_type}
use notai_api.Media.Types.{MediaType, image, video}

-- filepath.Ext: from the last dot of the last path element.
unfoldable pub ext : Text → Text
ext [] = []
ext (c ∷ s) =
    let r = ext s in
    if not (is_empty r)
    then r
    else if c == b'.' && not (any_of (λ d. d == b'/') s)
    then c ∷ s
    else []

-- strings.TrimPrefix(s, ".")
abbrev pub trim_dot : Text → Text
trim_dot [] = []
trim_dot (c ∷ s) = if c == b'.' then s else c ∷ s

unfoldable pub strip_slashes : Text → Text
strip_slashes [] = []
strip_slashes (c ∷ s) = let r = strip_slashes s in if is_empty r && c == b'/' then [] else c ∷ r

unfoldable pub last_element : Text → Text
last_element [] = []
last_element (c ∷ s) =
    let r = last_element s in
    if any_of (λ d. d == b'/') s then r else if c == b'/' then s else c ∷ s

-- filepath.Base
unfoldable pub base : Text → Text
unfolding strip_slashes last_element
base s =
    let e = last_element (strip_slashes s) in
    if is_empty s then codes "." else if is_empty e then codes "/" else e

unfoldable pub file_extension : Text → Text
unfolding ext to_lower
file_extension filename = to_lower (trim_dot (ext filename))

-- Membership in imageExtensions and videoExtensions.
unfoldable pub is_image_ext : Text → Bool
is_image_ext e =
    text_eq e (codes "jpg")
    || text_eq e (codes "jpeg")
    || text_eq e (codes "png")
    || text_eq e (codes "webp")

unfoldable pub is_video_ext : Text → Bool
is_video_ext e = text_eq e (codes "mp4") || text_eq e (codes "webm") || text_eq e (codes "mov")

unfoldable pub detect_media_type : Text → Text → Result MediaType
unfolding file_extension is_image_ext is_video_ext to_lower trim_space
detect_media_type filename content_type =
    let e = file_extension filename in
    let ct = to_lower (trim_space content_type) in
    if has_prefix ct (codes "image/") || is_image_ext e
    then if not (is_image_ext e) && not (is_empty e) then err unsupported_content_type else ok image
    else if has_prefix ct (codes "video/") || is_video_ext e
    then if not (is_video_ext e) && not (is_empty e) then err unsupported_content_type else ok video
    else err unsupported_content_type

unfoldable pub validate_filename : Text → Option Err
unfolding file_extension is_image_ext is_video_ext
validate_filename filename =
    let e = file_extension filename in
    if is_empty e
    then some unsupported_content_type
    else if is_image_ext e
    then none
    else if is_video_ext e
    then none
    else some unsupported_content_type

unfoldable pub is_thumbnail_object_key : Text → Bool
is_thumbnail_object_key key = contains key (codes "/thumbnails/")

unfoldable pub is_frame_object_key : Text → Bool
is_frame_object_key key = contains key (codes "/media/") && contains key (codes "/frames/")

unfoldable pub is_media_object_key : Text → Bool
unfolding is_thumbnail_object_key
is_media_object_key key =
    contains key (codes "/media/")
    && not (contains key (codes "/frames/"))
    && not (is_thumbnail_object_key key)

-- clients/<client>/campaigns/<campaign>/media/
unfoldable pub media_folder : (Uuid → Text) → Uuid → Uuid → Text → Text
media_folder str client campaign rest =
    codes "clients/"
    ++ (str client ++ (codes "/campaigns/" ++ (str campaign ++ (codes "/media/" ++ rest))))

unfoldable pub new_object_key : (Uuid → Text) → Uuid → Uuid → Uuid → Text → Text
unfolding media_folder file_extension
new_object_key str client campaign media filename =
    let e = file_extension filename in
    let key = if is_empty e then str media else str media ++ (b'.' ∷ e) in
    media_folder str client campaign key

unfoldable pub new_thumbnail_key : (Uuid → Text) → Uuid → Uuid → Uuid → Text
unfolding media_folder
new_thumbnail_key str client campaign media =
    media_folder str client campaign (codes "thumbnails/" ++ (str media ++ codes ".jpg"))
