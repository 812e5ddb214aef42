-- ===== src/Upload/Pieces.antt =====
-- The chunks of a file: how many there are, and what a number of them holds together.
use native.Mathlib.Nat.{mul-add-div_right, div-eq_of_lt, le-div_iff_mul-le, div-lt_iff_lt-mul}
use better_pingvin_share.Prelude.{
  ℕ, ◌+◌, ◌-◌, ◌*◌, ◌/◌, ◌≤◌, ◌<◌, ◌≡◌, ap, arith, inl, inr, ◌++◌, ◌==◌, Bool-cases, length,
  length-append, length-take, take, take-drop, take_all, leb,
}
use better_pingvin_share.Schema.{Bytes}
use better_pingvin_share.FileStore.Local.{ceil_div}
use better_pingvin_share.Upload.{chunk_count, slice}

pub ceil_div-mul : (k c : ℕ) → 0 < c → ceil_div (k * c) c ≡ k
ceil_div-mul k c h =
    let rest : (c - 1) / c ≡ 0 = div-eq_of_lt (omega arith) in
    rw (mul-add-div_right h k (c - 1), rest) (omega arith)

ceil_div_below : (n c k : ℕ) → 0 < c → k < ceil_div n c → k * c ≤ n
ceil_div_below n c k h e =
    let more : (k + 1) * c ≤ n + (c - 1) = (le-div_iff_mul-le h).0 (omega (arith, e)) in omega arith

ceil_div_enough : (n c : ℕ) → 0 < c → n ≤ ceil_div n c * c
ceil_div_enough n c h =
    let less : n + (c - 1) < (ceil_div n c + 1) * c = (div-lt_iff_lt-mul h).0 (omega arith) in
    omega arith

pub chunk_count_below : (n c k : ℕ) → 0 < c → k < chunk_count n c → k * c ≤ n
chunk_count_below n c k h e = elim (Bool-cases (ceil_div n c == 0)) [
  | inl none_at_all ↦ ground arith
  | inr some_chunk ↦ ceil_div_below n c k h (ground arith)
]

pub chunk_count_enough : (n c : ℕ) → 0 < c → n ≤ chunk_count n c * c
chunk_count_enough n c h = ground (arith, ceil_div_enough n c h)

pub chunk_count_pos : (n c : ℕ) → 0 < chunk_count n c
chunk_count_pos n c = ground arith

-- A chunk behind the chunks before it
pub append-slice :
    (c k : ℕ) (file : Bytes) → take (k * c) file ++ slice c k file ≡ take ((k + 1) * c) file
append-slice c k file = take-drop (k * c) c ((k + 1) * c) file (omega arith)

length-take_le : (n : ℕ) (file : Bytes) → length (take n file) ≤ length file
length-take_le n file = elim (Bool-cases (leb n (length file))) [
  | inl e ↦ ground (arith, length-take n file)
  | inr e ↦ ground (arith, take_all n file)
]

-- No chunk reaches over the end of the file.
pub length-slice :
    (c k : ℕ) (file : Bytes) → k * c ≤ length file → k * c + length (slice c k file) ≤ length file
length-slice c k file h = omega (
  arith,
  length-append (take (k * c) file) (slice c k file),
  ap length (append-slice c k file),
  length-take_le ((k + 1) * c) file,
  length-take (k * c) file h,
)
