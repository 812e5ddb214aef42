-- ===== src/WebView/Tables.antt =====
-- backend/src/file/fileWebView.util.ts: the tables of file name extensions and of content types.
use better_pingvin_share.Prelude.{String, List, [], ◌∷◌}

unfoldable pub markdown_extensions : List String
markdown_extensions = "md" ∷ "markdown" ∷ "mdown" ∷ "mkd" ∷ "mkdn" ∷ "mdx" ∷ "qmd" ∷ []

unfoldable pub code_language_by_extension : List (String × String)
code_language_by_extension =
    ("bat", "batch")
    ∷ ("c", "c")
    ∷ ("cjs", "javascript")
    ∷ ("cc", "cpp")
    ∷ ("clj", "clojure")
    ∷ ("cmake", "cmake")
    ∷ ("cpp", "cpp")
    ∷ ("cts", "typescript")
    ∷ ("cmd", "batch")
    ∷ ("cs", "csharp")
    ∷ ("css", "css")
    ∷ ("diff", "diff")
    ∷ ("dockerfile", "docker")
    ∷ ("env", "bash")
    ∷ ("gql", "graphql")
    ∷ ("go", "go")
    ∷ ("graphql", "graphql")
    ∷ ("gradle", "groovy")
    ∷ ("groovy", "groovy")
    ∷ ("h", "c")
    ∷ ("hcl", "hcl")
    ∷ ("hpp", "cpp")
    ∷ ("htm", "html")
    ∷ ("html", "html")
    ∷ ("ini", "ini")
    ∷ ("java", "java")
    ∷ ("js", "javascript")
    ∷ ("json", "json")
    ∷ ("json5", "json")
    ∷ ("jsonc", "json")
    ∷ ("jsx", "jsx")
    ∷ ("kt", "kotlin")
    ∷ ("kts", "kotlin")
    ∷ ("less", "less")
    ∷ ("log", "text")
    ∷ ("lua", "lua")
    ∷ ("m", "matlab")
    ∷ ("makefile", "makefile")
    ∷ ("mjs", "javascript")
    ∷ ("mts", "typescript")
    ∷ ("nix", "nix")
    ∷ ("php", "php")
    ∷ ("pl", "perl")
    ∷ ("proto", "protobuf")
    ∷ ("properties", "properties")
    ∷ ("ps1", "powershell")
    ∷ ("psd1", "powershell")
    ∷ ("psm1", "powershell")
    ∷ ("py", "python")
    ∷ ("r", "r")
    ∷ ("rb", "ruby")
    ∷ ("scala", "scala")
    ∷ ("rs", "rust")
    ∷ ("scss", "scss")
    ∷ ("sh", "bash")
    ∷ ("sql", "sql")
    ∷ ("svelte", "svelte")
    ∷ ("swift", "swift")
    ∷ ("tf", "hcl")
    ∷ ("tfvars", "hcl")
    ∷ ("toml", "toml")
    ∷ ("ts", "typescript")
    ∷ ("tsx", "tsx")
    ∷ ("txt", "text")
    ∷ ("vue", "vue")
    ∷ ("xml", "xml")
    ∷ ("yaml", "yaml")
    ∷ ("yml", "yaml")
    ∷ ("zsh", "bash")
    ∷ []

unfoldable pub text_extensions : List String
text_extensions =
    "adoc" ∷ "asc" ∷ "cfg" ∷ "conf" ∷ "csv" ∷ "dockerignore" ∷ "editorconfig" ∷ "eslintrc"
    ∷ "gitattributes" ∷ "gitignore" ∷ "jsonl" ∷ "latex" ∷ "ndjson" ∷ "npmrc" ∷ "plist"
    ∷ "prettierrc" ∷ "rst" ∷ "tex" ∷ "tool-versions" ∷ "tsv" ∷ []

unfoldable pub video_content_type_by_extension : List (String × String)
video_content_type_by_extension =
    ("mp4", "video/mp4")
    ∷ ("m4v", "video/x-m4v")
    ∷ ("mov", "video/quicktime")
    ∷ ("webm", "video/webm")
    ∷ ("ogv", "video/ogg")
    ∷ []

unfoldable pub looks_textual_mime_types : List String
looks_textual_mime_types =
    "application/json" ∷ "application/json5" ∷ "application/ld+json" ∷ "application/toml"
    ∷ "application/xml" ∷ "application/x-httpd-php" ∷ "application/x-sh" ∷ "application/yaml"
    ∷ "text/yaml" ∷ []
