-- ===== src/Upload/Turn.antt =====
-- The checks of the local storage on a chunk that comes at its turn, and on another.
use better_pingvin_share.Prelude.{
  ℕ, ◌+◌, ◌≤◌, ◌≡◌, ◌≢◌, refl, arith, true, false, Option, none, some, ◌==◌, ==_iff, ltb,
}
use better_pingvin_share.Http.{done, throw, unexpected_chunk}
use better_pingvin_share.Schema.{Share, ReverseShare}
use better_pingvin_share.World.{World}
use better_pingvin_share.FileStore.Local.{ceil_div, too_large, check_chunk}

pub too_large_monotone :
    (w : World) (r : Option ReverseShare) (m n : ℕ)
    → m ≤ n
    → too_large w r n ≡ false
    → too_large w r m ≡ false
too_large_monotone w none m n h e = ground arith
too_large_monotone w (some r) m n h e = ground arith

-- The checks, for a chunk that comes at its turn, and for another
pub check_chunk_passes :
    (w : World) (s : Share) (r : Option ReverseShare) (sum held index n : ℕ)
    → s.upload_locked ≡ false
    → ceil_div held w.config.chunk_size ≡ index
    → n ≤ w.available_space
    → too_large w r (sum + held + n) ≡ false
    → check_chunk w s r sum held index n ≡ done tt
unfolding check_chunk
check_chunk_passes w s r sum held index n unlocked turn space fits =
    let same : (ceil_div held w.config.chunk_size == index) ≡ true = (==_iff _ _).1 turn in
    let room : ltb w.available_space n ≡ false = ground arith in
    rw (unlocked, same, room, fits) refl

pub check_chunk_refuses :
    (w : World) (s : Share) (r : Option ReverseShare) (sum held index n k : ℕ)
    → s.upload_locked ≡ false
    → ceil_div held w.config.chunk_size ≡ k
    → k ≢ index
    → check_chunk w s r sum held index n ≡ throw (unexpected_chunk k)
unfolding check_chunk
check_chunk_refuses w s r sum held index n k unlocked turn other =
    let differ : (k == index) ≡ false = ground arith in rw (unlocked, turn, differ) refl
