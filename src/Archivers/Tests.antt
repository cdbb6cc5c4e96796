-- ===== src/Archivers/Tests.antt =====
-- Runs of the S3 archiver over small parts.
use product_feed_protocol.Prelude.{String, ◌≡◌, ◌⊎◌, refl, some, List, [], ◌∷◌, ◌++◌}
use product_feed_protocol.ChunkBuffer.{Bytes}
use product_feed_protocol.Transport.{Attempt, returned, raised}
use product_feed_protocol.Archivers.S3.{
  Request, create_multipart_upload, upload_part, complete_multipart_upload, put_empty_object,
  abort_multipart_upload, Archiver, archived, new, abort_previous, archive, open_archive, write_all,
  write_chunk, append_chunk, upload, finalize, flush, complete, then_call, abort_upload,
}
use product_feed_protocol.Archivers.S3.Uploads.{Failed}
use product_feed_protocol.Archivers.S3.Archives.{ArchivedAfter, archive-ends}

-- A store that answers, and one that refuses parts.
abbrev accepting : Request → Attempt String String
accepting (create_multipart_upload _) = returned "u1"
accepting _ = returned "tag"

abbrev refusing_parts : Request → Attempt String String
refusing_parts (create_multipart_upload _) = returned "u1"
refusing_parts (upload_part _ _ _) = raised "timeout"
refusing_parts _ = returned ""

abbrev chunks : List Bytes
chunks = (1 ∷ 2 ∷ []) ∷ (3 ∷ 4 ∷ []) ∷ (5 ∷ []) ∷ []

abbrev left_open : Archiver
left_open = record new { upload_id = some "u0"; buffer = some [] }

archive_requests :
    (archive 3 accepting "feed_1" "feeds" chunks left_open).requests
    ≡ abort_multipart_upload "u0"
      ∷ create_multipart_upload "feed_1"
      ∷ upload_part (some "u1") 1 (1 ∷ 2 ∷ 3 ∷ 4 ∷ [])
      ∷ upload_part (some "u1") 2 (5 ∷ [])
      ∷ complete_multipart_upload (some "u1") ((1, "tag") ∷ (2, "tag") ∷ [])
      ∷ []
unfolding archive open_archive write_all write_chunk append_chunk upload finalize flush complete
    then_call abort_previous abort_upload new
archive_requests = refl

archive_reply :
    (archive 3 accepting "feed_1" "feeds" chunks new).reply ≡ archived "s3://feeds/feed_1"
unfolding archive open_archive write_all write_chunk append_chunk upload finalize flush complete
    then_call abort_previous abort_upload new
archive_reply = refl

empty_archive :
    (archive 3 accepting "feed_1" "feeds" [] new).requests
    ≡ create_multipart_upload "feed_1"
      ∷ abort_multipart_upload "u1"
      ∷ put_empty_object "feed_1"
      ∷ []
unfolding archive open_archive write_all write_chunk append_chunk upload finalize flush complete
    then_call abort_previous abort_upload new
empty_archive = refl

refused_part :
    (archive 3 refusing_parts "feed_1" "feeds" chunks new).requests
    ≡ create_multipart_upload "feed_1"
      ∷ upload_part (some "u1") 1 (1 ∷ 2 ∷ 3 ∷ 4 ∷ [])
      ∷ abort_multipart_upload "u1"
      ∷ []
unfolding archive open_archive write_all write_chunk append_chunk upload finalize flush complete
    then_call abort_previous abort_upload new
refused_part = refl

archive-ends_example :
    Failed "u1" (archive 3 accepting "feed_1" "feeds" chunks left_open)
    ⊎ ArchivedAfter 3 accepting "feed_1" "u1" "feeds"
        (abort_previous left_open ++ create_multipart_upload "feed_1" ∷ [])
        chunks
        (archive 3 accepting "feed_1" "feeds" chunks left_open)
archive-ends_example = archive-ends 3 accepting "feed_1" "u1" "feeds" left_open chunks refl
