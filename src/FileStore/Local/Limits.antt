-- ===== src/FileStore/Local/Limits.antt =====
-- What the local storage took when it answers an upload of a chunk without an error.
use better_pingvin_share.Prelude.{
  ℕ, ◌+◌, ◌≤◌, ◌≡◌, refl, arith, ap, String, Bool, true, false, Option, none, some, ◌++◌, inl, inr,
  length, length-append, Option-cases, ===-refl, if◌then◌else◌,
}
use better_pingvin_share.Http.{
  Outcome, done, throw, pure, continue, HttpError, system_error, Outcome-cases,
}
use better_pingvin_share.Prisma.{Prisma}
use better_pingvin_share.Schema.{Db, Share, ReverseShare, File, Bytes}
use better_pingvin_share.World.{World}
use better_pingvin_share.Store.{files_of, find_reverse_share}
use better_pingvin_share.FileStore.Local.Disk.{
  read_file_there, read_file_written, find-put_directory, append_file_there, append_file_missing,
  rename_there, create_file_new, create_file_used,
}
use better_pingvin_share.FileStore.Local.{
  Chunk, FileRef, Created, ceil_div, temporary, chosen_id, size_sum, too_large,
  exceeds_reverse_share, check_chunk, check, or_empty, read_file, put_directory, finish_file,
  finish_if, is_last, receive, create,
}

-- Where the checks pass
check_chunk_passed :
    (w : World) (s : Share) (r : Option ReverseShare) (sum held index n : ℕ)
    → check_chunk w s r sum held index n ≡ done tt
    → (s.upload_locked ≡ false)
      × (ceil_div held w.config.chunk_size ≡ index)
      × (too_large w r (sum + held + n) ≡ false)
unfolding check_chunk
check_chunk_passed w s r sum held index n e = ground arith

continue-pure :
    {S A B : Type 0} (r : Outcome A) (b : B) (s : S) → (continue r (λ x. pure b) s).1 ≡ s
continue-pure (done a) b s = refl
continue-pure (throw e) b s = refl

continue-pure_value :
    {S A B : Type 0} (r : Outcome A) (b c : B) (s : S)
    → (continue r (λ x. pure b) s).0 ≡ done c
    → c ≡ b
continue-pure_value (done a) b c s e = ground (arith, e)
continue-pure_value (throw e) b c s h = absurd (ground arith)

module _ {P : Prisma} where
  -- The bytes of a file that came before a chunk
  abbrev pub before : String → String → Db P → Bytes
  before share_id id db = or_empty (read_file share_id (temporary id) db)

module _ {P : Prisma} (w : World) (s : Share) (share_id : String) (chunk : Chunk)
    (bytes : Bytes) where
  -- A chunk that the storage took, from a state `a` to a state `b`
  pub record Took (id : String) (a b : Db P) : Type 0 where
    pub unlocked : s.upload_locked ≡ false
    pub turn : ceil_div (length (before share_id id a)) w.config.chunk_size ≡ chunk.index
    pub kept :
        read_file share_id (if is_last chunk then id else temporary id) b
        ≡ some (before share_id id a ++ bytes)
    pub limit :
        size_sum (files_of share_id a) + length (before share_id id a ++ bytes) ≤ w.config.max_size
    pub reverse_limit :
        exceeds_reverse_share
          (find_reverse_share s.reverse_share_id a)
          (size_sum (files_of share_id a) + length (before share_id id a ++ bytes))
        ≡ false

  -- The state after the chunk is appended to the temporary file, and after the last one
  abbrev appended : String → P.Table Bytes → Bytes → Db P → Db P
  appended id dir all db = put_directory share_id (P.write (temporary id) all dir) db

  abbrev renamed : String → P.Table Bytes → Bytes → Db P → Db P
  renamed id dir all db =
      put_directory share_id
        (P.write id all (P.erase (temporary id) (P.write (temporary id) all dir)))
        (appended id dir all db)

  finish_file_lem :
      (id name : String) (dir : P.Table Bytes) (all : Bytes) (db : Db P)
      → read_file share_id id (finish_file share_id id name (appended id dir all db)).1 ≡ some all
  unfolding finish_file
  finish_file_lem id name dir all db =
      let after = P.write (temporary id) all dir in
      let kept =
        read_file_written share_id id all (P.erase (temporary id) after) (appended id dir all db) in
      let row : File = record {
        name = name;
        size = length (or_empty (read_file share_id id (renamed id dir all db)));
        share_id = share_id;
      } in
      rw
        (rename_there share_id after (appended id dir all db) (temporary id) id all
          (find-put_directory share_id after db) (simp (P.find-write, ===-refl)))
        (elim (Option-cases (P.find id db.files)) [
          | inl unused ↦ rw (create_file_new id row (renamed id dir all db) unused) kept
          | inr (old, used) ↦ rw (create_file_used id row (renamed id dir all db) old used) kept
        ])

  -- What follows the checks and the chunk's bytes
  finish_if_lem :
      (last : Bool) (id name : String) (dir : P.Table Bytes) (all : Bytes) (db : Db P)
      → read_file share_id
          (if last then id else temporary id)
          (finish_if last share_id id name (appended id dir all db)).1
        ≡ some all
  finish_if_lem true id name dir all db = finish_file_lem id name dir all db
  finish_if_lem false id name dir all db = read_file_written share_id (temporary id) all dir db

  taken :
      (id : String) (a b : Db P)
      → check_chunk w s
          (find_reverse_share s.reverse_share_id a)
          (size_sum (files_of share_id a))
          (length (before share_id id a))
          chunk.index
          (length bytes)
        ≡ done tt
      → read_file share_id (if is_last chunk then id else temporary id) b
        ≡ some (before share_id id a ++ bytes)
      → Took id a b
  taken id a b passed kept =
      let (unlocked, turn, small) =
        check_chunk_passed w s (find_reverse_share s.reverse_share_id a) _ _ _ _ passed in
      let joined = length-append (before share_id id a) bytes in
      let total : size_sum (files_of share_id a) + length (before share_id id a) + length bytes
          ≡ size_sum (files_of share_id a) + length (before share_id id a ++ bytes) =
        omega (arith, joined) in
      let fits : too_large w (find_reverse_share s.reverse_share_id a)
            (size_sum (files_of share_id a) + length (before share_id id a ++ bytes))
          ≡ false =
        rw (← total) small in
      record {
        unlocked = unlocked;
        turn = turn;
        kept = kept;
        limit = ground (arith, fits);
        reverse_limit = ground (arith, fits);
      }

  abbrev checked : String → Db P → Outcome (Unit {0})
  checked id a =
      check_chunk w s (find_reverse_share s.reverse_share_id a) (size_sum (files_of share_id a))
        (length (before share_id id a)) chunk.index (length bytes)

  receive_refused :
      (id name : String) (a : Db P) (e : HttpError)
      → checked id a ≡ throw e
      → receive w s share_id id name chunk bytes a ≡ (throw e, a)
  unfolding receive check
  receive_refused id name a e refused = rw refused refl

  receive_missing :
      (id name : String) (a : Db P)
      → checked id a ≡ done tt
      → P.find share_id a.disk ≡ none
      → receive w s share_id id name chunk bytes a ≡ (throw (system_error "ENOENT"), a)
  unfolding receive check
  receive_missing id name a passed missing =
      rw (passed, append_file_missing share_id (temporary id) a bytes missing) refl

  -- The state at the end of the file, or after a chunk in its midst
  abbrev ended : String → String → P.Table Bytes → Db P → Outcome (Unit {0}) × Db P
  ended id name dir a =
      finish_if (is_last chunk) share_id id name
        (appended id dir (or_empty (P.find (temporary id) dir) ++ bytes) a)

  abbrev answer : String → String → P.Table Bytes → Db P → Outcome Created × Db P
  answer id name dir a =
      let (r, b) = ended id name dir a in continue r (λ x. pure (record { id = id; name = name })) b

  receive_appended :
      (id name : String) (dir : P.Table Bytes) (a : Db P)
      → checked id a ≡ done tt
      → P.find share_id a.disk ≡ some dir
      → receive w s share_id id name chunk bytes a ≡ answer id name dir a
  unfolding receive check
  receive_appended id name dir a passed there =
      rw (passed, append_file_there share_id dir a (temporary id) bytes there) refl

  receive-Took :
      (id name : String) (c : Created) (a : Db P)
      → (receive w s share_id id name chunk bytes a).0 ≡ done c
      → (c ≡ record { id = id; name = name })
        × Took id a (receive w s share_id id name chunk bytes a).1
  receive-Took id name c a e = elim (Outcome-cases (checked id a)) [
    | inl (err, refused) ↦ absurd (ground (arith, receive_refused id name a err refused))
    | inr (u, passed) ↦ elim (Option-cases (P.find share_id a.disk)) [
      | inl missing ↦ absurd (ground (arith, receive_missing id name a passed missing))
      | inr (dir, there) ↦
          let all = or_empty (P.find (temporary id) dir) ++ bytes in
          let is = receive_appended id name dir a passed there in
          let same : before share_id id a ≡ or_empty (P.find (temporary id) dir) =
            ap or_empty (read_file_there share_id dir a (temporary id) there) in
          let (r, b) = ended id name dir a in
          let told : Created = record { id = id; name = name } in
          (
            continue-pure_value r told c b (rw is at e),
            taken id a _ passed (
                rw (is, continue-pure r told b, same)
                  (finish_if_lem (is_last chunk) id name dir all a)),
          )
    ]
  ]

module _ {P : Prisma} (w : World) (share_id : String) (chunk : Chunk) (bytes : Bytes) where
  create_found :
      (file : FileRef) (s : Share) (id : String) (a : Db P)
      → P.find share_id a.shares ≡ some s
      → chosen_id w file.id ≡ done id
      → create w bytes chunk file share_id a ≡ receive w s share_id id file.name chunk bytes a
  unfolding create
  create_found file s id a found chosen = rw (chosen, found) refl

  create_refused :
      (file : FileRef) (x : HttpError) (a : Db P)
      → chosen_id w file.id ≡ throw x
      → create w bytes chunk file share_id a ≡ (throw x, a)
  unfolding create
  create_refused file x a refused = rw refused refl

  -- When the storage takes a chunk without an error, the share was not locked, the chunk's index is
  -- the number of chunks that the bytes before it fill, rounded up, the file on the disk has those
  -- bytes and then the chunk's, and this file and the share's complete files together are within the
  -- configured limit, and within that of the reverse share where there is one.
  pub create-Took :
      (file : FileRef) (s : Share) (c : Created) (a : Db P)
      → P.find share_id a.shares ≡ some s
      → (create w bytes chunk file share_id a).0 ≡ done c
      → Took w s share_id chunk bytes c.id a (create w bytes chunk file share_id a).1
  create-Took file s c a found e = elim (Outcome-cases (chosen_id w file.id)) [
    | inl (x, refused) ↦ absurd (ground (arith, create_refused file x a refused))
    | inr (id, chosen) ↦
        let same = create_found file s id a found chosen in
        let took : (receive w s share_id id file.name chunk bytes a).0 ≡ done c = rw same at e in
        let (is, took_it) = receive-Took w s share_id chunk bytes id file.name c a took in
        rw (same, is) took_it
  ]
