-- ===== src/WebView.antt =====
-- backend/src/file/fileWebView.util.ts: how a file is shown in the browser, by its name, its content type and
-- its first bytes. `mime.lookup` of the package of content types is a parameter; where it returns false, it
-- is "" here, which the code makes of it.
mod Tests
pub mod Tables
pub mod Sniffed
pub mod Media
pub mod Shown
use Prim.Native.String.{[], ◌∷◌}
use better_pingvin_share.Prelude.{
  ℕ, zero, suc, ◌+◌, ◌*◌, String, Bool, true, false, not, ◌&&◌, ◌||◌, Option, none, some, List, [],
  ◌∷◌, ltb, leb, ◌==◌, ◌===◌, if◌then◌else◌, length, take, includes,
}
use better_pingvin_share.Text.{split, to_lower, strip_prefix}
use better_pingvin_share.Prisma.Keyed.{lookup}
use better_pingvin_share.Schema.{Bytes}
use better_pingvin_share.FileStore.Sample.{stream_to_uint8_array}
use better_pingvin_share.WebView.Tables.{
  markdown_extensions, code_language_by_extension, text_extensions, video_content_type_by_extension,
  looks_textual_mime_types,
}

pub data FileWebViewKind : Type 0 where
  markdown code text image audio video pdf : FileWebViewKind

-- `inherited` is what a table gives for the name of a property that every object has: it counts as a
-- value, but is no text.
pub data Language : Type 0 where
  named : String → Language
  inherited : Language

pub record FileWebViewDescriptor : Type 0 where
  pub kind : FileWebViewKind
  pub content_type : Option String
  pub language : Option Language

abbrev pub file_web_view_sniff_bytes : ℕ
file_web_view_sniff_bytes = 8 * 1024

abbrev pub starts_with : String → String → Bool
starts_with prefix s = elim (strip_prefix prefix s) [ none ↦ false | some rest ↦ true ]

abbrev pub ends_with : String → String → Bool
ends_with suffix [] = suffix === ""
ends_with suffix (c ∷ s) = suffix === (c ∷ s) || ends_with suffix s

abbrev pub last_of : List String → String
last_of [] = ""
last_of (s ∷ []) = s
last_of (s ∷ t ∷ more) = last_of (t ∷ more)

abbrev pub first_of : List String → String
first_of [] = ""
first_of (s ∷ more) = s

unfoldable pub get_extension : String → String
get_extension file_name =
    let lower = to_lower file_name in
    if lower === "dockerfile"
    then "dockerfile"
    else if lower === "makefile"
    then "makefile"
    else last_of (split b'.' lower)

abbrev pub normalize_content_type : (String → String) → Option String → String
normalize_content_type mime none = mime ""
normalize_content_type mime (some t) = if t === "" then mime "" else first_of (split b';' t)

unfoldable pub is_textual_mime_type : String → Bool
is_textual_mime_type t =
    starts_with "text/" t
    || includes looks_textual_mime_types t
    || ends_with "+json" t
    || ends_with "+xml" t
    || ends_with "+yaml" t

-- `TEXTUAL_FILE_NAME_PREFIXES` has one prefix.
abbrev pub is_special : String → Bool
is_special lower = starts_with ".env." lower

-- A lookup in a table that is an object: two lower-case names are inherited by every object.
abbrev pub is_inherited : String → Bool
is_inherited name = name === "constructor" || name === "__proto__"

abbrev pub named_language : Option String → Option Language
named_language none = none
named_language (some l) = some (named l)

unfoldable pub code_language : String → Option Language
code_language extension =
    if is_inherited extension
    then some inherited
    else named_language (lookup extension code_language_by_extension)

abbrev pub or_undefined : String → Option String
or_undefined t = if t === "" then none else some t

abbrev pub by_language : String → Language → FileWebViewDescriptor
by_language t inherited = record {
  kind = code;
  content_type = or_undefined t;
  language = some inherited;
}
by_language t (named l) =
    if l === "text"
    then record { kind = text; content_type = or_undefined t; language = none }
    else record { kind = code; content_type = or_undefined t; language = some (named l) }

abbrev pub plain : FileWebViewKind → Option String → FileWebViewDescriptor
plain kind t = record { kind = kind; content_type = t; language = none }

-- The checks of the content type, after those of the name, with the entry of the table of videos
abbrev pub by_content_type : String → Bool → Option String → Option FileWebViewDescriptor
by_content_type t text_name video_type =
    if text_name || is_textual_mime_type t
    then some (plain text (or_undefined t))
    else if starts_with "image/" t
    then some (plain image (some t))
    else if starts_with "audio/" t
    then some (plain audio (some t))
    else elim video_type [
      | some v ↦ some (plain video (some v))
      | none ↦
          if starts_with "video/" t
          then some (plain video (some t))
          else if t === "application/mp4"
          then some (plain video (some "video/mp4"))
          else if t === "application/pdf"
          then some (plain pdf (some t))
          else none
    ]

-- The content type that is given, or the one of the name
unfoldable pub content_type_of : (String → String) → String → Option String → String
content_type_of mime file_name given =
    let t = normalize_content_type mime given in
    if t === "" then first_of (split b';' (mime file_name)) else t

abbrev pub by_extension : String → String → Option Language → Option FileWebViewDescriptor
by_extension t extension (some l) = some (by_language t l)
by_extension t extension none =
    by_content_type t (includes text_extensions extension)
      (lookup extension video_content_type_by_extension)

unfoldable pub get_file_web_view_descriptor :
    (String → String) → String → Option String → Option FileWebViewDescriptor
get_file_web_view_descriptor mime file_name given =
    let extension = get_extension file_name in
    if is_special (to_lower file_name)
    then some (plain text (some "text/plain"))
    else if includes markdown_extensions extension
    then some (record {
      kind = markdown;
      content_type = some "text/markdown";
      language = some (named "markdown");
    })
    else by_extension (content_type_of mime file_name given) extension (code_language extension)

-- Is a byte neither one of four control characters, nor printable, nor beyond ASCII?
abbrev pub is_suspicious : ℕ → Bool
is_suspicious b =
    not (b == 9 || b == 10 || b == 13 || b == 12) && not (leb 32 b && leb b 126) && not (leb 128 b)

-- The number of suspicious bytes, unless one is zero
unfoldable pub count_suspicious : Bytes → ℕ → Option ℕ
count_suspicious [] n = some n
count_suspicious (b ∷ bs) n =
    let rest = count_suspicious bs (if is_suspicious b then n + 1 else n) in
    if b == 0 then none else rest

-- `suspiciousByteCount / sample.length < 0.1`
abbrev pub few_of : ℕ → Option ℕ → Bool
few_of total none = false
few_of total (some n) = ltb (10 * n) total

abbrev pub is_sample_text : Bytes → Bool
is_sample_text sample = length sample == 0 || few_of (length sample) (count_suspicious sample 0)

unfoldable pub is_probably_text : Bytes → Bool
unfolding count_suspicious
is_probably_text bytes = is_sample_text (take 2048 bytes)

unfoldable pub get_file_web_view_descriptor_from_sample : Bytes → Option FileWebViewDescriptor
unfolding is_probably_text
get_file_web_view_descriptor_from_sample bytes =
    if is_probably_text bytes then some (plain text (some "text/plain")) else none

-- `sendFileWebView` of backend/src/file/file.controller.ts: the content type that a file is shown with. What
-- is not text, an image, a sound, a film or a PDF is not shown.
abbrev pub known_type : (String → String) → String → String
known_type mime file_name =
    if mime file_name === "" then "application/octet-stream" else mime file_name

abbrev pub plain_text_type : String
plain_text_type = "text/plain; charset=utf-8"

-- `descriptor.contentType || contentType`
abbrev pub type_or : String → Option String → String
type_or other none = other
type_or other (some t) = if t === "" then other else t

abbrev pub served_type : String → FileWebViewKind → Option String → String
served_type known markdown t = plain_text_type
served_type known code t = plain_text_type
served_type known text t = plain_text_type
served_type known image t = type_or known t
served_type known audio t = type_or known t
served_type known video t = type_or known t
served_type known pdf t = type_or known t

abbrev pub served : String → Option FileWebViewDescriptor → Option String
served known none = none
served known (some d) = some (served_type known d.kind d.content_type)

abbrev pub or_sniffed : List Bytes → Option FileWebViewDescriptor → Option FileWebViewDescriptor
or_sniffed pieces none =
    get_file_web_view_descriptor_from_sample
      (stream_to_uint8_array pieces file_web_view_sniff_bytes)
or_sniffed pieces (some d) = some d

unfoldable pub send_file_web_view : (String → String) → String → List Bytes → Option String
unfolding get_file_web_view_descriptor get_file_web_view_descriptor_from_sample
send_file_web_view mime file_name pieces =
    let known = known_type mime file_name in
    served known (or_sniffed pieces (get_file_web_view_descriptor mime file_name (some known)))
