-- ===== src/WebView/Shown.antt =====
-- What the browser is made to show of a file.
use better_pingvin_share.Prelude.{
  String, Bool, false, ◌||◌, Option, none, some, List, ◌≡◌, inl, inr, refl, arith, ◌===◌, eq_iff,
  includes, Bool-cases, Option-cases,
}
use better_pingvin_share.Prisma.Keyed.{lookup}
use better_pingvin_share.Schema.{Bytes}
use better_pingvin_share.Text.{to_lower}
use better_pingvin_share.FileStore.Sample.{stream_to_uint8_array}
use better_pingvin_share.WebView.Tables.{
  markdown_extensions, video_content_type_by_extension, text_extensions,
}
use better_pingvin_share.WebView.{
  FileWebViewDescriptor, Language, file_web_view_sniff_bytes, starts_with, is_textual_mime_type,
  by_content_type, by_extension, by_language, served, served_type, or_sniffed, is_probably_text,
  get_file_web_view_descriptor, get_file_web_view_descriptor_from_sample, send_file_web_view,
  content_type_of, known_type, code_language, get_extension, is_special, inherited, named,
}
use better_pingvin_share.WebView.Media.{AllHarmless, video_types, media-IsHarmless}

by_application-AllHarmless :
    (known t : String) (text_name : Bool)
    → (text_name || is_textual_mime_type t) ≡ false
    → is_textual_mime_type t ≡ false
    → (starts_with "image/" t) ≡ false
    → (starts_with "audio/" t) ≡ false
    → AllHarmless (served known (by_content_type t text_name none))
by_application-AllHarmless known t text_name unshown safe no_image no_audio =
    elim (Bool-cases (starts_with "video/" t)) [
      | inl yes_video ↦
          rw (unshown, no_image, no_audio, yes_video) (media-IsHarmless known t (ground arith) safe)
      | inr no_video ↦ elim (Bool-cases (t === "application/mp4")) [
        | inl mp4 ↦ rw (unshown, no_image, no_audio, no_video, mp4) (inr refl)
        | inr no_mp4 ↦ elim (Bool-cases (t === "application/pdf")) [
          | inl is_pdf ↦
              let t_pdf : t ≡ "application/pdf" = (eq_iff t "application/pdf").0 is_pdf in
              rw (unshown, no_image, no_audio, no_video, no_mp4, is_pdf)
                (media-IsHarmless known t (ground arith) safe)
          | inr no_pdf ↦ rw (unshown, no_image, no_audio, no_video, no_mp4, no_pdf) tt
        ]
      ]
    ]

by_content_type-AllHarmless :
    (known t extension : String) (text_name : Bool)
    → AllHarmless (
        served known
          (by_content_type t text_name (lookup extension video_content_type_by_extension)))
by_content_type-AllHarmless known t extension text_name =
    elim (Bool-cases (text_name || is_textual_mime_type t)) [
      | inl shown ↦ rw shown (inl refl)
      | inr unshown ↦
          let safe : is_textual_mime_type t ≡ false = ground arith in
          elim (Bool-cases (starts_with "image/" t)) [
            | inl yes_image ↦ rw (unshown, yes_image) (media-IsHarmless known t (ground arith) safe)
            | inr no_image ↦ elim (Bool-cases (starts_with "audio/" t)) [
              | inl yes_audio ↦
                  rw (unshown, no_image, yes_audio) (media-IsHarmless known t (ground arith) safe)
              | inr no_audio ↦
                  elim (Option-cases (lookup extension video_content_type_by_extension)) [
                    | inl none_found ↦ rw none_found (
                        by_application-AllHarmless known t text_name unshown safe no_image no_audio)
                    | inr (v, found) ↦
                        rw (unshown, no_image, no_audio, found)
                          (video_types known extension v found)
                  ]
            ]
          ]
    ]

by_language-AllHarmless :
    (known t : String) (l : Language)
    → AllHarmless (some (served_type known (by_language t l).kind (by_language t l).content_type))
by_language-AllHarmless known t inherited = inl refl
by_language-AllHarmless known t (named l) = elim (Bool-cases (l === "text")) [
  | inl as_text ↦ rw as_text (inl refl)
  | inr as_code ↦ rw as_code (inl refl)
]

by_extension-AllHarmless :
    (known t extension : String) (l : Option Language)
    → AllHarmless (served known (by_extension t extension l))
by_extension-AllHarmless known t extension none =
    by_content_type-AllHarmless known t extension (includes text_extensions extension)
by_extension-AllHarmless known t extension (some l) = by_language-AllHarmless known t l

sniffed-AllHarmless :
    (known : String) (bytes : Bytes)
    → AllHarmless (served known (get_file_web_view_descriptor_from_sample bytes))
unfolding get_file_web_view_descriptor_from_sample
sniffed-AllHarmless known bytes = elim (Bool-cases (is_probably_text bytes)) [
  | inl as_text ↦ rw as_text (inl refl)
  | inr binary ↦ rw binary tt
]

named-AllHarmless :
    (mime : String → String) (known file_name : String) (given : Option String)
    → AllHarmless (served known (get_file_web_view_descriptor mime file_name given))
unfolding get_file_web_view_descriptor
named-AllHarmless mime known file_name given = elim (Bool-cases (is_special (to_lower file_name))) [
  | inl special ↦ rw special (inl refl)
  | inr ordinary ↦ elim (Bool-cases (includes markdown_extensions (get_extension file_name))) [
    | inl is_markdown ↦ rw (ordinary, is_markdown) (inl refl)
    | inr other ↦
        rw (ordinary, other)
          (by_extension-AllHarmless known (content_type_of mime file_name given)
            (get_extension file_name) (code_language (get_extension file_name)))
  ]
]

or_sniffed-AllHarmless :
    (known : String) (pieces : List Bytes) (d : Option FileWebViewDescriptor)
    → AllHarmless (served known d)
    → AllHarmless (served known (or_sniffed pieces d))
or_sniffed-AllHarmless known pieces none h =
    sniffed-AllHarmless known (stream_to_uint8_array pieces file_web_view_sniff_bytes)
or_sniffed-AllHarmless known pieces (some d) h = h

-- The content type that a file is shown with in the browser is plain text in UTF-8, or it is
-- application/pdf or starts with "image/", "audio/" or "video/", and it does not end in "+xml", as
-- image/svg+xml does: whatever the file's name, its bytes and the table of types.
pub send_file_web_view-AllHarmless :
    (mime : String → String) (file_name : String) (pieces : List Bytes)
    → AllHarmless (send_file_web_view mime file_name pieces)
unfolding send_file_web_view
send_file_web_view-AllHarmless mime file_name pieces =
    let known = known_type mime file_name in
    or_sniffed-AllHarmless known pieces (get_file_web_view_descriptor mime file_name (some known))
      (named-AllHarmless mime known file_name (some known))
