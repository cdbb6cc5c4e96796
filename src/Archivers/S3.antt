-- ===== src/Archivers/S3.antt =====
-- pfp_runtime/publishing/archivers/s3_archiver.py: `S3Archiver`. Bytes are numbers, and the store is a parameter: a request, with
-- its retries (see Transport), is answered with a text, an upload's id or a part's tag, or raises. `_MIN_PART_SIZE` is a
-- parameter too, so that small runs can be tested.

pub mod Uploads
pub mod Chunks
pub mod Completion
pub mod Archives
use product_feed_protocol.Prelude.{
  ℕ, ◌+◌, String, Bool, true, false, not, ◌&&◌, Option, none, some, List, [], ◌∷◌, ◌++◌, length,
  leb, if◌then◌else◌,
}
use product_feed_protocol.Text.{◌⧺◌}
use product_feed_protocol.ChunkBuffer.{Bytes}
use product_feed_protocol.Transport.{Attempt, returned, raised}

-- The calls of the boto3 client; the upload's id is None before the first `open`.
pub data Request : Type 0 where
  create_multipart_upload : String → Request
  upload_part : Option String → ℕ → Bytes → Request
  complete_multipart_upload : Option String → List (ℕ × String) → Request
  put_empty_object : String → Request
  abort_multipart_upload : String → Request

pub record Archiver : Type 0 where
  pub object_key : String
  pub upload_id : Option String
  pub parts : List (ℕ × String)
  pub buffer : Option Bytes
  pub part_number : ℕ
  pub finalized : Bool

-- The causes of an `S3ArchiverError`; `create_failed` is what leaves `open` as it was raised.
pub data ArchiverError : Type 0 where
  written_before_open written_after_finalize finalized_before_open finalized_again : ArchiverError
  create_failed upload_failed put_failed complete_failed : String → ArchiverError

pub data Reply : Type 0 where
  done : Reply
  archived : String → Reply
  rejected : ArchiverError → Reply

-- The archiver after a call, the requests that were made, and how the call ended.
pub record Step : Type 0 where
  pub archiver : Archiver
  pub requests : List Request
  pub reply : Reply

abbrev pub step : Archiver → List Request → Reply → Step
step archiver requests reply = record { archiver = archiver; requests = requests; reply = reply }

-- `__init__`
unfoldable pub new : Archiver
new = record {
  object_key = "";
  upload_id = none;
  parts = [];
  buffer = none;
  part_number = 0;
  finalized = false;
}

-- `_abort_upload`, whose errors are suppressed: its request, if there is one.
unfoldable pub abort_upload : Option String → List Request
abort_upload none = []
abort_upload (some id) = abort_multipart_upload id ∷ []

-- What `open` aborts.
unfoldable pub abort_previous : Archiver → List Request
unfolding abort_upload
abort_previous s = if s.finalized then [] else abort_upload s.upload_id

abbrev pub followed : Step → Step → Reply → Step
followed first second (rejected e) = first
followed first second _ = step second.archiver (first.requests ++ second.requests) second.reply

module _ (min_part_size : ℕ) (answer : Request → Attempt String String) where
  -- `open`, with the key that it makes of the time.
  unfoldable pub open_archive : String → Archiver → Step
  unfolding abort_previous
  open_archive key s =
      let fresh = record s {
        object_key = key;
        finalized = false;
        parts = [];
        part_number = 0;
        buffer = some [];
      } in
      let requests = abort_previous s ++ create_multipart_upload key ∷ [] in
      elim (answer (create_multipart_upload key)) [
        | returned id ↦ step (record fresh { upload_id = some id }) requests done
        | raised e ↦ step fresh requests (rejected (create_failed e))
      ]

  -- `_upload_part`, and the handler of its callers, which aborts the upload.
  unfoldable pub upload : Bytes → Archiver → Step
  unfolding abort_upload
  upload body s =
      let n = s.part_number + 1 in
      let request = upload_part s.upload_id n body in
      elim (answer request) [
        | returned tag ↦
            step (record s { part_number = n; parts = s.parts ++ (n, tag) ∷ [] }) (request ∷ [])
              done
        | raised e ↦
            step (record s { part_number = n }) (request ∷ abort_upload s.upload_id)
              (rejected (upload_failed e))
      ]

  -- The buffer after a chunk: it is uploaded if it is large enough.
  unfoldable pub append_chunk : Bytes → Archiver → Step
  unfolding upload
  append_chunk body s =
      if leb min_part_size (length body)
      then upload body (record s { buffer = some [] })
      else step (record s { buffer = some body }) [] done

  -- `write_chunk`
  unfoldable pub write_chunk : Bytes → Archiver → Step
  unfolding append_chunk
  write_chunk chunk s = elim s.buffer [
    | none ↦ step s [] (rejected written_before_open)
    | some current ↦
        if s.finalized
        then step s [] (rejected written_after_finalize)
        else append_chunk (current ++ chunk) s
  ]

  -- `finalize`, from the test of the parts on; the bucket is part of the location.
  unfoldable pub complete : String → Archiver → Step
  unfolding abort_upload
  complete bucket s =
      let finished = record s { finalized = true } in
      let location = "s3://" ⧺ bucket ⧺ "/" ⧺ s.object_key in
      elim s.parts [
        | [] ↦
            let requests = abort_upload s.upload_id ++ put_empty_object s.object_key ∷ [] in
            elim (answer (put_empty_object s.object_key)) [
              | returned _ ↦ step finished requests (archived location)
              | raised e ↦ step s requests (rejected (put_failed e))
            ]
        | part ∷ parts ↦
            let request = complete_multipart_upload s.upload_id (part ∷ parts) in
            elim (answer request) [
              | returned _ ↦ step finished (request ∷ []) (archived location)
              | raised e ↦
                  step s (request ∷ abort_upload s.upload_id) (rejected (complete_failed e))
            ]
      ]

  -- A call after another, unless that one raised.
  unfoldable pub then_call : Step → (Archiver → Step) → Step
  then_call first next = followed first (next first.archiver) first.reply

  -- The upload of what remains in the buffer.
  unfoldable pub flush : Bytes → Archiver → Step
  unfolding upload
  flush [] s = step (record s { buffer = some [] }) [] done
  flush (b ∷ bs) s = upload (b ∷ bs) (record s { buffer = some [] })

  -- `finalize`
  unfoldable pub finalize : String → Archiver → Step
  unfolding flush complete then_call
  finalize bucket s = elim s.buffer [
    | none ↦ step s [] (rejected finalized_before_open)
    | some remaining ↦
        if s.finalized
        then step s [] (rejected finalized_again)
        else then_call (flush remaining s) (complete bucket)
  ]

  -- The calls for the chunks, until one raises.
  unfoldable pub write_all : List Bytes → Archiver → Step
  unfolding write_chunk then_call
  write_all [] s = step s [] done
  write_all (chunk ∷ chunks) s = then_call (write_chunk chunk s) (write_all chunks)

  -- A whole archive, as `publish` writes one.
  unfoldable pub archive : String → String → List Bytes → Archiver → Step
  unfolding open_archive write_all finalize then_call
  archive key bucket chunks s =
      then_call (open_archive key s) (λ t. then_call (write_all chunks t) (finalize bucket))
