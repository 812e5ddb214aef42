-- ===== src/FileStore/Sample.antt =====
-- `streamToUint8Array` of backend/src/file/file.service.ts, which `readSample` reads the beginning of a
-- file with: the pieces of a stream up to a number of bytes.
use better_pingvin_share.Prelude.{
  concat, append_nil, append_assoc, ℕ, ◌+◌, ◌-◌, zero, suc, ◌≤◌, ◌≡◌, ◌∙◌, refl, ap, sym, arith,
  true, false, List, [], ◌∷◌, ◌++◌, inl, inr, Bool-cases, length, take, ltb, ◌==◌, if◌then◌else◌,
}
use better_pingvin_share.Schema.{Bytes}

-- The loop over the stream, with the bytes so far. `Buffer.concat` puts the pieces together.
unfoldable pub read_pieces : List Bytes → ℕ → ℕ → Bytes → Bytes
read_pieces [] max_bytes total so_far = so_far
read_pieces (piece ∷ more) max_bytes total so_far =
    let rest = read_pieces more max_bytes (total + length piece) (so_far ++ piece) in
    if max_bytes - total == 0
    then so_far
    else if ltb (max_bytes - total) (length piece)
    then so_far ++ take (max_bytes - total) piece
    else rest

unfoldable pub stream_to_uint8_array : List Bytes → ℕ → Bytes
stream_to_uint8_array stream max_bytes = read_pieces stream max_bytes 0 []

-- `take` over pieces
take_short : (n : ℕ) (xs ys : Bytes) → n ≤ length xs → take n (xs ++ ys) ≡ take n xs
take_short zero xs ys h = refl
take_short (suc n) [] ys h = absurd (omega arith)
take_short (suc n) (x ∷ xs) ys h = ap (λ l. x ∷ l) (take_short n xs ys (omega arith))

take_long : (n k : ℕ) (xs ys : Bytes) → length xs + k ≡ n → take n (xs ++ ys) ≡ xs ++ take k ys
take_long n k [] ys e = let same : k ≡ n = omega arith in rw same refl
take_long zero k (x ∷ xs) ys e = absurd (omega arith)
take_long (suc n) k (x ∷ xs) ys e = ap (λ l. x ∷ l) (take_long n k xs ys (omega arith))

nil_taken : (k : ℕ) → take {A = ℕ} k [] ≡ []
nil_taken zero = refl
nil_taken (suc k) = refl

read_pieces_lem :
    (stream : List Bytes) (max_bytes total k : ℕ) (so_far : Bytes)
    → total + k ≡ max_bytes
    → read_pieces stream max_bytes total so_far ≡ so_far ++ take k (concat stream)
unfolding read_pieces
read_pieces_lem [] max_bytes total k so_far e = rw (nil_taken k, append_nil so_far) refl
read_pieces_lem (piece ∷ more) max_bytes total zero so_far e =
    let full : (max_bytes - total == 0) ≡ true = ground arith in rw (full, append_nil so_far) refl
read_pieces_lem (piece ∷ more) max_bytes total (suc k) so_far e =
    let left : max_bytes - total ≡ suc k = omega arith in
    let open_still : (suc k == 0) ≡ false = ground arith in
    elim (Bool-cases (ltb (suc k) (length piece))) [
      | inl cut ↦
          rw (left, open_still, cut)
            (ap (λ l. so_far ++ l) (sym (take_short (suc k) piece (concat more) (ground arith))))
      | inr whole ↦
          let rest : length piece + (suc k - length piece) ≡ suc k = ground arith in
          rw (left, open_still, whole)
            (read_pieces_lem more max_bytes (total + length piece) (suc k - length piece)
                (so_far ++ piece) (ground arith)
              ∙ append_assoc so_far piece _
              ∙ ap (λ l. so_far ++ l) (sym (take_long (suc k) _ piece (concat more) rest)))
    ]

-- However a stream is cut into pieces, what is read of it are the first bytes of all of it, as many
-- as are asked for or as there are.
pub stream_to_uint8_array_lem :
    (stream : List Bytes) (max_bytes : ℕ)
    → stream_to_uint8_array stream max_bytes ≡ take max_bytes (concat stream)
unfolding stream_to_uint8_array
stream_to_uint8_array_lem stream max_bytes =
    read_pieces_lem stream max_bytes 0 max_bytes [] (omega arith)
