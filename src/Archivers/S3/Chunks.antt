-- ===== src/Archivers/S3/Chunks.antt =====
-- The calls for the chunks: the bodies that they upload, and what stays in the buffer.
use mathlib.Core.Path.{subst}
use mathlib.Core.List.{append-nil, append_assoc}
use product_feed_protocol.Prelude.{
  ℕ, ◌+◌, ◌≤◌, String, ◌≡◌, ◌⊎◌, inl, inr, refl, sym, ap, ◌∙◌, arith, true, false, some, List, [],
  ◌∷◌, ◌++◌, length, leb, leb→le, All, Bool-cases,
}
use product_feed_protocol.ChunkBuffer.{Bytes}
use product_feed_protocol.ChunkBuffer.Contents.{joined}
use product_feed_protocol.Transport.{Attempt, returned}
use product_feed_protocol.Archivers.S3.{
  Request, upload_part, Archiver, done, Step, step, upload, append_chunk, write_chunk, then_call,
  followed, write_all,
}
use product_feed_protocol.Archivers.S3.Uploads.{
  IsAborted-append, IsRejected, uploads, AreTagged, going, Failed, upload-going,
}

module _ (min_part_size : ℕ) (answer : Request → Attempt String String) (key id : String) where
  -- What is left of the chunks after the bodies that were uploaded.
  abbrev pub Written : ℕ → List (ℕ × String) → Bytes → List Bytes → Step → Type 0
  Written n parts current chunks r =
      (bodies : List Bytes) × (tags : List (ℕ × String)) × (rest : Bytes) × AreTagged answer id n
        bodies tags
      × All (λ body. min_part_size ≤ length body) bodies
      × (joined bodies ++ rest ≡ current ++ joined chunks)
      × (r
          ≡ step (going key id (n + length bodies) (parts ++ tags) rest) (uploads id n bodies) done)

  module _ (next : Archiver → Step) where
    pub then_call-rejected :
        (first : Step) → IsRejected first.reply → then_call min_part_size answer first next ≡ first
    unfolding then_call
    then_call-rejected first (e, h) = ap (followed first (next first.archiver)) h

    pub then_call-done :
        (s : Archiver) (requests : List Request)
        → then_call min_part_size answer (step s requests done) next
          ≡ step (next s).archiver (requests ++ (next s).requests) (next s).reply
    unfolding then_call
    then_call-done s requests = refl

    pub then_call-Failed :
        (first : Step) → Failed id first → Failed id (then_call min_part_size answer first next)
    then_call-Failed first h = subst (Failed id) (sym (then_call-rejected first h.0)) h

    pub Failed-longer :
        (s : Archiver) (requests : List Request)
        → Failed id (next s)
        → Failed id (then_call min_part_size answer (step s requests done) next)
    unfolding then_call
    Failed-longer s requests h = (h.0, IsAborted-append id requests (next s).requests h.1)

    -- A chunk that leaves the buffer small, and one after which it is uploaded.
    write_chunk-small :
        (chunk : Bytes) (n : ℕ) (parts : List (ℕ × String)) (current : Bytes)
        → leb min_part_size (length (current ++ chunk)) ≡ false
        → then_call min_part_size answer
            (write_chunk min_part_size answer chunk (going key id n parts current))
            next
          ≡ next (going key id n parts (current ++ chunk))
    unfolding then_call write_chunk append_chunk
    write_chunk-small chunk n parts current small = rw (append_chunk, small) refl

    write_chunk-large :
        (chunk : Bytes) (n : ℕ) (parts : List (ℕ × String)) (current : Bytes)
        → leb min_part_size (length (current ++ chunk)) ≡ true
        → write_chunk min_part_size answer chunk (going key id n parts current)
          ≡ upload min_part_size answer (current ++ chunk) (going key id n parts [])
    unfolding write_chunk append_chunk
    write_chunk-large chunk n parts current large = rw (append_chunk, large) refl

  -- The first body, and what is written after it.
  Written-cons :
      (chunk : Bytes) (chunks : List Bytes) (n : ℕ) (parts : List (ℕ × String)) (current : Bytes)
      (tag : String)
      → min_part_size ≤ length (current ++ chunk)
      → answer (upload_part (some id) (n + 1) (current ++ chunk)) ≡ returned tag
      → (r : Step) → Written (n + 1) (parts ++ (n + 1, tag) ∷ []) [] chunks r
      → Written n parts current
          (chunk ∷ chunks)
          (step r.archiver (upload_part (some id) (n + 1) (current ++ chunk) ∷ r.requests) r.reply)
  Written-cons chunk chunks n parts current tag large answered r
        (bodies, tags, rest, tagged, full, whole, same) =
      let count : n + 1 + length bodies ≡ n + length ((current ++ chunk) ∷ bodies) = omega arith in
      (
        (current ++ chunk) ∷ bodies,
        (n + 1, tag) ∷ tags,
        rest,
        (refl, answered, tagged),
        (large, full),
        append_assoc (current ++ chunk) (joined bodies) rest
            ∙ ap (λ t. (current ++ chunk) ++ t) whole
            ∙ append_assoc current chunk (joined chunks),
        ap
              (λ (t : Step).
                step t.archiver (upload_part (some id) (n + 1) (current ++ chunk) ∷ t.requests)
                  t.reply)
              same
            ∙ ap
                (λ m.
                  step (going key id m ((parts ++ (n + 1, tag) ∷ []) ++ tags) rest)
                    (uploads id n ((current ++ chunk) ∷ bodies)) done)
                count
            ∙ ap
                (λ ts.
                  step (going key id (n + length ((current ++ chunk) ∷ bodies)) ts rest)
                    (uploads id n ((current ++ chunk) ∷ bodies)) done)
                (append_assoc parts ((n + 1, tag) ∷ []) tags),
      )

  Failed-cons :
      (r : Step) (request : Request)
      → Failed id r
      → Failed id (step r.archiver (request ∷ r.requests) r.reply)
  Failed-cons r request (reply, aborted) = (reply, inr aborted)

  Ends-longer :
      (chunk : Bytes) (chunks : List Bytes) (n : ℕ) (parts : List (ℕ × String)) (current : Bytes)
      (r : Step)
      → Failed id r ⊎ Written n parts (current ++ chunk) chunks r
      → Failed id r ⊎ Written n parts current (chunk ∷ chunks) r
  Ends-longer chunk chunks n parts current r (inl failed) = inl failed
  Ends-longer chunk chunks n parts current r (inr (bodies, tags, rest, tagged, full, whole, same)) =
      inr
        (bodies, tags, rest, tagged, full, whole ∙ append_assoc current chunk (joined chunks), same)

  Ends-after :
      (chunk : Bytes) (chunks : List Bytes) (n : ℕ) (parts : List (ℕ × String)) (current : Bytes)
      (tag : String)
      → min_part_size ≤ length (current ++ chunk)
      → answer (upload_part (some id) (n + 1) (current ++ chunk)) ≡ returned tag
      → (r : Step) → Failed id r ⊎ Written (n + 1) (parts ++ (n + 1, tag) ∷ []) [] chunks r
      → (let r' =
            step r.archiver
              (upload_part (some id) (n + 1) (current ++ chunk) ∷ r.requests)
              r.reply in
          Failed id r' ⊎ Written n parts current (chunk ∷ chunks) r')
  Ends-after chunk chunks n parts current tag large answered r (inl failed) =
      inl (Failed-cons r _ failed)
  Ends-after chunk chunks n parts current tag large answered r (inr written) =
      inr (Written-cons chunk chunks n parts current tag large answered r written)

  pub write_all-going :
      (chunks : List Bytes) (n : ℕ) (parts : List (ℕ × String)) (current : Bytes)
      → Failed id (write_all min_part_size answer chunks (going key id n parts current))
        ⊎ Written n parts current chunks
            (write_all min_part_size answer chunks (going key id n parts current))
  unfolding write_all
  write_all-going [] n parts current =
      let same : n ≡ n + 0 = omega arith in
      inr (
        [],
        [],
        current,
        tt,
        tt,
        sym (append-nil current),
        ap (λ m. step (going key id m parts current) [] done) same
            ∙ ap (λ ts. step (going key id (n + 0) ts current) [] done) (sym (append-nil parts)),
      )
  write_all-going (chunk ∷ chunks) n parts current =
      let next = write_all min_part_size answer chunks in
      let Ends : Step → Type 0 = λ r. Failed id r ⊎ Written n parts current (chunk ∷ chunks) r in
      elim (Bool-cases (leb min_part_size (length (current ++ chunk)))) [
        | inr small ↦ subst Ends (sym (write_chunk-small next chunk n parts current small)) (
            Ends-longer chunk chunks n parts current _
              (write_all-going chunks n parts (current ++ chunk)))
        | inl large ↦
            let opened =
              ap (λ first. then_call min_part_size answer first next)
                (write_chunk-large next chunk n parts current large) in
            elim (upload-going min_part_size answer key id n parts (current ++ chunk) current) [
              | inl failed ↦
                  subst Ends
                    (sym (
                      opened
                      ∙ then_call-rejected next
                          (upload min_part_size answer (current ++ chunk) (going key id n parts []))
                          failed.0))
                    (inl failed)
              | inr (tag, answered, same) ↦
                  subst Ends
                    (sym (
                      opened
                      ∙ ap (λ first. then_call min_part_size answer first next) same
                      ∙ then_call-done next (going key id (n + 1) (parts ++ (n + 1, tag) ∷ []) [])
                          (upload_part (some id) (n + 1) (current ++ chunk) ∷ [])))
                    (Ends-after chunk chunks n parts current tag (leb→le _ _ large) answered _
                      (write_all-going chunks (n + 1) (parts ++ (n + 1, tag) ∷ []) []))
            ]
      ]
