-- ===== src/Upload/Schedule.antt =====
-- The upload's loop over a schedule of losses, with whatever relation each round keeps.
use better_pingvin_share.Prelude.{
  ℕ, zero, suc, ◌≤◌, ◌≡◌, arith, String, Bool, true, false, Option, List, [], ◌∷◌, ◌++◌, all,
}
use better_pingvin_share.Http.{Handler}
use better_pingvin_share.Schema.{Bytes}
use better_pingvin_share.FileStore.Local.{Chunk}
use better_pingvin_share.Upload.{
  Delivery, arrives, request_lost, response_lost, Progress, advance, run,
}

-- Did the response come through, if the request did?
abbrev pub answers : Delivery → Bool
answers arrives = true
answers request_lost = true
answers response_lost = false

abbrev pub replicate : ℕ → Delivery → List Delivery
replicate zero d = []
replicate (suc n) d = d ∷ replicate n d

-- A relation between the client, the server and a number of rounds that are enough: a round that
-- arrives leaves one fewer, and after a lost request `most` rounds are enough again.
pub record Nearing {S : Type 0} (R : ℕ → Progress → S → Type 0) (most : ℕ)
    (step : Delivery → Progress → S → Progress × S) : Type 0 where
  pub arrive :
      (n : ℕ) (p : Progress) (s : S) → R (suc n) p s → R n (step arrives p s).0 (step arrives p s).1
  pub lose :
      (n : ℕ) (p : Progress) (s : S)
      → R n p s
      → R most (step request_lost p s).0 (step request_lost p s).1
  pub weaken : (n m : ℕ) (p : Progress) (s : S) → n ≤ m → R n p s → R m p s

module _ {S : Type 0} (chunk_size : ℕ) (file : Bytes)
    (post : Option String → Chunk → Bytes → Handler S String) (R : ℕ → Progress → S → Type 0)
    (most : ℕ) (near : Nearing R most (advance chunk_size file post)) where
  straight :
      (n : ℕ) (p : Progress) (s : S)
      → R n p s
      → R 0
          (run chunk_size file post (replicate n arrives) p s).0
          (run chunk_size file post (replicate n arrives) p s).1
  unfolding run
  straight zero p s h = h
  straight (suc n) p s h = straight n _ _ (near.arrive n p s h)

  after_round :
      (d : Delivery) (p : Progress) (s : S)
      → answers d ≡ true
      → R most p s
      → R most (advance chunk_size file post d p s).0 (advance chunk_size file post d p s).1
  after_round arrives p s e h =
      near.arrive most p s (near.weaken most (suc most) p s (omega arith) h)
  after_round request_lost p s e h = near.lose most p s h
  after_round response_lost p s e h = absurd (ground arith)

  -- After any schedule in which no response is lost, `most` rounds that arrive leave none.
  pub run_nearing :
      (net : List Delivery) (p : Progress) (s : S)
      → all answers net ≡ true
      → R most p s
      → R 0
          (run chunk_size file post (net ++ replicate most arrives) p s).0
          (run chunk_size file post (net ++ replicate most arrives) p s).1
  unfolding run
  run_nearing [] p s e h = straight most p s h
  run_nearing (d ∷ net) p s e h =
      run_nearing net _ _ (ground arith) (after_round d p s (ground arith) h)
