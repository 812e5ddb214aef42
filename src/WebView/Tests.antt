-- ===== src/WebView/Tests.antt =====
-- The preview of files, on concrete data.
use better_pingvin_share.Prelude.{
  String, true, false, ◌===◌, none, some, List, [], ◌∷◌, ◌≡◌, refl, concat,
}
use better_pingvin_share.Schema.{Bytes}
use better_pingvin_share.Text.{to_lower, split}
use better_pingvin_share.FileStore.Sample.{read_pieces, stream_to_uint8_array}
use better_pingvin_share.WebView.Tables.{
  markdown_extensions, text_extensions, code_language_by_extension, video_content_type_by_extension,
  looks_textual_mime_types,
}
use better_pingvin_share.WebView.{
  code, inherited, get_extension, code_language, is_textual_mime_type, content_type_of,
  get_file_web_view_descriptor, file_web_view_sniff_bytes, get_file_web_view_descriptor_from_sample,
  send_file_web_view,
}
use better_pingvin_share.WebView.Sniffed.{sniffed_whole}
use better_pingvin_share.WebView.Media.{AllHarmless}
use better_pingvin_share.WebView.Shown.{send_file_web_view-AllHarmless}

-- A table of types with two entries
abbrev types : String → String
types file_name = elim (file_name === "logo.svg") [
  | true ↦ "image/svg+xml"
  | false ↦ elim (file_name === "photo.png") [ true ↦ "image/png" | false ↦ "" ]
]

abbrev pieces : List Bytes
pieces = (72 ∷ 101 ∷ []) ∷ (108 ∷ 108 ∷ 111 ∷ []) ∷ []

svg_as_text : send_file_web_view types "logo.svg" pieces ≡ some "text/plain; charset=utf-8"
unfolding send_file_web_view get_file_web_view_descriptor get_extension code_language
    is_textual_mime_type content_type_of markdown_extensions text_extensions
    code_language_by_extension video_content_type_by_extension looks_textual_mime_types to_lower
    split
svg_as_text = refl

png_as_image : send_file_web_view types "photo.png" pieces ≡ some "image/png"
unfolding send_file_web_view get_file_web_view_descriptor get_extension code_language
    is_textual_mime_type content_type_of markdown_extensions text_extensions
    code_language_by_extension video_content_type_by_extension looks_textual_mime_types to_lower
    split
png_as_image = refl

unknown_as_text : send_file_web_view types "notes" pieces ≡ some "text/plain; charset=utf-8"
unfolding send_file_web_view get_file_web_view_descriptor get_extension code_language
    is_textual_mime_type content_type_of markdown_extensions text_extensions
    code_language_by_extension video_content_type_by_extension looks_textual_mime_types
    get_file_web_view_descriptor_from_sample to_lower split stream_to_uint8_array read_pieces
unknown_as_text = refl

-- A name that every object inherits passes for one with a known language.
inherited_as_code :
    get_file_web_view_descriptor types "photo.constructor" none
    ≡ some (record { kind = code; content_type = none; language = some inherited })
unfolding get_file_web_view_descriptor get_extension code_language is_textual_mime_type
    content_type_of markdown_extensions to_lower split
inherited_as_code = refl

sniffed_whole_example :
    get_file_web_view_descriptor_from_sample
      (stream_to_uint8_array pieces file_web_view_sniff_bytes)
    ≡ get_file_web_view_descriptor_from_sample (concat pieces)
sniffed_whole_example = sniffed_whole pieces

send_file_web_view-AllHarmless_example : AllHarmless (send_file_web_view types "logo.svg" pieces)
send_file_web_view-AllHarmless_example = send_file_web_view-AllHarmless types "logo.svg" pieces
