-- ===== src/Upload/Parts.antt =====
-- What the bucket makes of the chunks of one file.
use better_pingvin_share.Prelude.{
  ℕ, zero, suc, ◌+◌, ◌*◌, ◌<◌, ◌≡◌, ◌∙◌, sym, ap, refl, arith, true, some, List, [], ◌∷◌, ◌++◌,
  length, length-append, append_nil, append_assoc, concat, take, take_all,
}
use better_pingvin_share.Schema.{Bytes}
use better_pingvin_share.World.{World, Bucket, numbered}
use better_pingvin_share.FileStore.S3.{with_part}
use better_pingvin_share.Upload.Pieces.{append-slice, chunk_count_enough, chunk_count_pos}
use better_pingvin_share.Upload.Server.{chunks, chunk_at, piece}

-- The first pieces of a file
abbrev pub pieces : World → Bytes → ℕ → List Bytes
pieces w file zero = []
pieces w file (suc n) = pieces w file n ++ piece w file n ∷ []

length-pieces : (w : World) (file : Bytes) (n : ℕ) → length (pieces w file n) ≡ n
length-pieces w file zero = refl
length-pieces w file (suc n) =
    omega (arith, length-append (pieces w file n) (piece w file n ∷ []), length-pieces w file n)

numbered-append :
    (i j : ℕ) (l : List Bytes) (x : Bytes)
    → i + length l + 1 ≡ j
    → numbered i (l ++ x ∷ []) ≡ numbered i l ++ (j, x) ∷ []
numbered-append i j [] x e = let same : i + 1 ≡ j = omega arith in rw same refl
numbered-append i j (y ∷ l) x e =
    ap (λ more. (i + 1, y) ∷ more) (numbered-append (i + 1) j l x (omega arith))

concat-append : (l : List Bytes) (x : Bytes) → concat (l ++ x ∷ []) ≡ concat l ++ x
concat-append [] x = append_nil x
concat-append (y ∷ l) x =
    ap (λ more. y ++ more) (concat-append l x) ∙ sym (append_assoc y (concat l) x)

concat-pieces :
    (w : World) (file : Bytes) (n : ℕ)
    → concat (pieces w file n) ≡ take (n * w.config.chunk_size) file
concat-pieces w file zero = let same : zero * w.config.chunk_size ≡ 0 = omega arith in rw same refl
concat-pieces w file (suc n) =
    let next : (n + 1) * w.config.chunk_size ≡ suc n * w.config.chunk_size = omega arith in
    concat-append (pieces w file n) (piece w file n)
    ∙ ap (λ l. l ++ piece w file n) (concat-pieces w file n)
    ∙ append-slice w.config.chunk_size n file
    ∙ ap (λ k. take k file) next

-- The bucket makes the file of all its pieces.
complete-some :
    (b : Bucket) (l : List Bytes)
    → 0 < length l
    → b.takes_sizes l ≡ true
    → b.complete (numbered 0 l) ≡ some (concat l)
complete-some b [] h e = absurd (omega arith)
complete-some b (x ∷ l) h e = b.complete-numbered x l e

pub complete-pieces :
    (w : World) (file : Bytes) (n : ℕ)
    → 0 < w.config.chunk_size
    → w.bucket.takes_sizes (pieces w file (chunks w file)) ≡ true
    → n ≡ chunks w file
    → w.bucket.complete (numbered 0 (pieces w file n)) ≡ some file
complete-pieces w file n h e same =
    let count = length-pieces w file n in
    complete-some w.bucket (pieces w file n)
      (omega (arith, count, chunk_count_pos (length file) w.config.chunk_size)) (rw same e)
    ∙ ap some (
        concat-pieces w file n
        ∙ take_all _ file (rw same (chunk_count_enough (length file) w.config.chunk_size h)))

pub with_part-pieces :
    (w : World) (file : Bytes) (k : ℕ)
    → with_part
        (chunk_at w file k)
        (piece w file k)
        (record { parts = numbered 0 (pieces w file k) })
      ≡ record { parts = numbered 0 (pieces w file (suc k)) }
with_part-pieces w file k =
    ap (λ l. record { parts = l })
      (sym (
        numbered-append 0 (k + 1) (pieces w file k) (piece w file k)
          (omega (arith, length-pieces w file k))))
