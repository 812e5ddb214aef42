-- ===== src/WebView/Sniffed.antt =====
-- The first bytes by which a file without a known type is judged.
use better_pingvin_share.Prelude.{
  ℕ, zero, suc, ◌≤◌, List, [], ◌∷◌, ◌≡◌, refl, ap, arith, take, concat,
}
use better_pingvin_share.Schema.{Bytes}
use better_pingvin_share.FileStore.Sample.{stream_to_uint8_array, stream_to_uint8_array_lem}
use better_pingvin_share.WebView.{
  file_web_view_sniff_bytes, is_probably_text, get_file_web_view_descriptor_from_sample,
}

take-take : (m n : ℕ) (xs : Bytes) → m ≤ n → take m (take n xs) ≡ take m xs
take-take zero n xs h = refl
take-take (suc m) zero xs h = absurd (omega arith)
take-take (suc m) (suc n) [] h = refl
take-take (suc m) (suc n) (x ∷ xs) h = ap (λ l. x ∷ l) (take-take m n xs (omega arith))

-- A file is judged by its first bytes as all of it would be, however the stream of it is cut.
pub sniffed_whole :
    (pieces : List Bytes)
    → get_file_web_view_descriptor_from_sample
        (stream_to_uint8_array pieces file_web_view_sniff_bytes)
      ≡ get_file_web_view_descriptor_from_sample (concat pieces)
unfolding get_file_web_view_descriptor_from_sample is_probably_text
sniffed_whole pieces = rw (
  stream_to_uint8_array_lem pieces file_web_view_sniff_bytes,
  take-take 2048 file_web_view_sniff_bytes (concat pieces) (omega arith),
)
