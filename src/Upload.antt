-- ===== src/Upload.antt =====
-- The browser's upload of a file: the loop of frontend/src/pages/upload/index.tsx over the chunks of
-- one file, with frontend/src/utils/upload.util.ts, which sorts the errors. A round is one pass
-- through the loop's body; the network may lose a request, or the response to it.
use better_pingvin_share.Prelude.{
  ℕ, ◌+◌, ◌-◌, ◌*◌, ◌≤◌, String, Bool, true, false, not, ◌&&◌, ◌||◌, Option, none, some, List, [],
  ◌∷◌, length, take, drop, ltb, leb, ◌==◌, ◌===◌, if◌then◌else◌,
}
use better_pingvin_share.Http.{
  Outcome, done, throw, Handler, HttpError, bad_request, unauthorized, forbidden, not_found,
  payload_too_large, too_many_requests, internal_server_error, prisma_error, type_error,
  unexpected_chunk, system_error, error_page, and_then,
}
use better_pingvin_share.Schema.{Bytes, Db}
use better_pingvin_share.FileStore.Controller.{request_create}
use better_pingvin_share.Share.Request.{Request}
use better_pingvin_share.FileStore.Local.{Chunk, Created, ceil_div}
use better_pingvin_share.Prisma.{Prisma}
use better_pingvin_share.World.{World}
pub mod Pieces
pub mod Admits
pub mod Turn
pub mod Server
pub mod Schedule
pub mod Rounds
pub mod Ends
pub mod Parts
pub mod ToBucket
pub mod BucketEnds
mod Tests

-- The status of the response to an error; what is no HTTP exception is answered with 500.
abbrev pub status : HttpError → ℕ
status (bad_request m) = 400
status (unauthorized m) = 401
status (forbidden m e) = 403
status (not_found m e) = 404
status (payload_too_large m) = 413
status (too_many_requests m) = 429
status (internal_server_error m) = 500
status (prisma_error c) = 500
status type_error = 500
status (unexpected_chunk n) = 400
status (system_error c) = 500
status (error_page k) = 500

-- The message of a response of status 500
abbrev pub message : HttpError → String
message (bad_request m) = m
message (unauthorized m) = m
message (forbidden m e) = m
message (not_found m e) = m
message (payload_too_large m) = m
message (too_many_requests m) = m
message (internal_server_error m) = m
message (prisma_error c) = "Internal server error"
message type_error = "Internal server error"
message (unexpected_chunk n) = "Unexpected chunk received"
message (system_error c) = "Internal server error"
message (error_page k) = "Internal server error"

-- An error that the client catches: the server's, or none because no response came.
abbrev pub Failure : Type 0
Failure = Option HttpError

abbrev pub get_unexpected_chunk_index : Failure → Option ℕ
get_unexpected_chunk_index none = none
get_unexpected_chunk_index (some (bad_request m)) = none
get_unexpected_chunk_index (some (unauthorized m)) = none
get_unexpected_chunk_index (some (forbidden m e)) = none
get_unexpected_chunk_index (some (not_found m e)) = none
get_unexpected_chunk_index (some (payload_too_large m)) = none
get_unexpected_chunk_index (some (too_many_requests m)) = none
get_unexpected_chunk_index (some (internal_server_error m)) = none
get_unexpected_chunk_index (some (prisma_error c)) = none
get_unexpected_chunk_index (some type_error) = none
get_unexpected_chunk_index (some (unexpected_chunk n)) = some n
get_unexpected_chunk_index (some (system_error c)) = none
get_unexpected_chunk_index (some (error_page k)) = none

abbrev pub is_permanent_status : ℕ → String → Bool
is_permanent_status code text =
    (leb 400 code && ltb code 500 && not (code == 408) && not (code == 429))
    || (code == 500 && text === "Not enough space on the server")

abbrev pub is_permanent_upload_error : Failure → Bool
is_permanent_upload_error none = false
is_permanent_upload_error (some e) = is_permanent_status (status e) (message e)

-- What becomes of a request.
pub data Delivery : Type 0 where
  arrives : Delivery
  request_lost : Delivery
  response_lost : Delivery

-- The loop's variables, and where the loop stands: it runs, or returned whether the file is there.
pub record Client : Type 0 where
  pub file_id : Option String
  pub index : ℕ

pub data Progress : Type 0 where
  running : Client → Progress
  finished : Bool → Progress

-- `chunks`, one for an empty file
abbrev pub chunk_count : ℕ → ℕ → ℕ
chunk_count size chunk_size = if ceil_div size chunk_size == 0 then 1 else ceil_div size chunk_size

-- `file.slice(from, to)` for the chunk at an index
abbrev pub slice : ℕ → ℕ → Bytes → Bytes
slice chunk_size index file = take chunk_size (drop (index * chunk_size) file)

-- The loop's head: is there a chunk left?
abbrev pub head : ℕ → Client → Progress
head chunks c = if ltb c.index chunks then running c else finished true

-- The `catch` of the loop's body. A restart counts from -1 on.
abbrev pub caught : Option ℕ → ℕ → Client → Failure → Progress
caught (some expected) chunks c e = head chunks (record c { index = expected })
caught none chunks c e =
    if is_permanent_upload_error e then finished false else head chunks (record c { index = 0 })

abbrev pub answered : ℕ → Client → Outcome String → Progress
answered chunks c (done id) = head chunks (record { file_id = some id; index = c.index + 1 })
answered chunks c (throw e) = caught (get_unexpected_chunk_index (some e)) chunks c (some e)

-- `post` sends a chunk of the file to the server, and gives the id that it answers with.
module _ {S : Type 0} (chunk_size : ℕ) (file : Bytes)
    (post : Option String → Chunk → Bytes → Handler S String) where
  abbrev pub chunks : ℕ
  chunks = chunk_count (length file) chunk_size

  abbrev pub request : Client → Handler S String
  request c =
      post c.file_id (record { index = c.index; total = chunks }) (slice chunk_size c.index file)

  unfoldable pub round : Delivery → Client → S → Progress × S
  round arrives c s = let (r, s') = request c s in (answered chunks c r, s')
  round request_lost c s = (caught none chunks c none, s)
  round response_lost c s = let (r, s') = request c s in (caught none chunks c none, s')

  abbrev pub advance : Delivery → Progress → S → Progress × S
  advance d (running c) s = round d c s
  advance d (finished b) s = (finished b, s)

  -- The loop, for as many rounds as the network's schedule has
  unfoldable pub run : List Delivery → Progress → S → Progress × S
  run [] p s = (p, s)
  run (d ∷ more) p s = let (p', s') = advance d p s in run more p' s'

  unfoldable pub upload_file : List Delivery → S → Progress × S
  unfolding run
  upload_file net s = run net (head chunks (record { file_id = none; index = 0 })) s

-- The body of the answer to a chunk: the id of the file
abbrev pub answer : {S : Type 0} → Outcome Created × S → Outcome String × S
answer (r, s) = (and_then r (λ c. done c.id), s)

-- `shareService.uploadFile`: a request of the browser to the file controller, which keeps its file in the
-- storage of the configuration
unfoldable pub post_chunk :
    {P : Prisma}
    → World
    → Request
    → String
    → String
    → Option String
    → Chunk
    → Bytes
    → Handler (Db P) String
unfolding request_create
post_chunk w request share_id name id chunk bytes db =
    answer (request_create w request bytes chunk (record { id = id; name = name }) share_id db)
