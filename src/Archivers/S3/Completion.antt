-- ===== src/Archivers/S3/Completion.antt =====
-- The end of an archive: the complete upload, or one that was aborted.
use mathlib.Core.Path.{subst}
use mathlib.Core.List.{append-nil, append_assoc}
use product_feed_protocol.Prelude.{
  ℕ, ◌+◌, ◌≤◌, String, ◌≡◌, ◌⊎◌, inl, inr, refl, sym, ap, ◌∙◌, arith, true, some, List, [], ◌∷◌,
  ◌++◌, length, All,
}
use product_feed_protocol.Text.{◌⧺◌}
use product_feed_protocol.ChunkBuffer.{Bytes}
use product_feed_protocol.ChunkBuffer.Contents.{joined}
use product_feed_protocol.Transport.{Attempt}
use product_feed_protocol.Transport.Retries.{Attempt-cases}
use product_feed_protocol.Archivers.S3.{
  Request, complete_multipart_upload, put_empty_object, abort_multipart_upload, done, archived,
  put_failed, complete_failed, Step, step, abort_upload, complete, then_call, flush, finalize,
}
use product_feed_protocol.Archivers.S3.Uploads.{uploads, AreTagged, going, Failed, upload-going}
use product_feed_protocol.Archivers.S3.Chunks.{then_call-Failed, Failed-longer}

-- The requests after those for the bodies.
abbrev pub ending : String → String → List (ℕ × String) → List Request
ending key id [] = abort_multipart_upload id ∷ put_empty_object key ∷ []
ending key id (tag ∷ tags) = complete_multipart_upload (some id) (tag ∷ tags) ∷ []

pub joined-append :
    (bodies more : List Bytes) → joined (bodies ++ more) ≡ joined bodies ++ joined more
joined-append [] more = refl
joined-append (b ∷ bodies) more =
    ap (λ t. b ++ t) (joined-append bodies more)
    ∙ sym (append_assoc b (joined bodies) (joined more))

module _ (min_part_size : ℕ) (answer : Request → Attempt String String)
    (key id bucket : String) where
  abbrev pub location : String
  location = "s3://" ⧺ bucket ⧺ "/" ⧺ key

  abbrev Completed : List (ℕ × String) → Step → Type 0
  Completed tags r =
      (r.reply ≡ archived location)
      × (r.archiver.finalized ≡ true)
      × (r.requests ≡ ending key id tags)

  complete-going :
      (n : ℕ) (tags : List (ℕ × String))
      → Failed id (complete min_part_size answer bucket (going key id n tags []))
        ⊎ Completed tags (complete min_part_size answer bucket (going key id n tags []))
  unfolding complete abort_upload
  complete-going n [] = elim (Attempt-cases (answer (put_empty_object key))) [
    | inl (t, h) ↦ inr (rw (complete, h) (refl, refl, refl))
    | inr (e, h) ↦ inl (rw (complete, h) ((put_failed e, refl), inl refl))
  ]
  complete-going n (tag ∷ tags) =
      elim (Attempt-cases (answer (complete_multipart_upload (some id) (tag ∷ tags)))) [
        | inl (t, h) ↦ inr (rw (complete, h) (refl, refl, refl))
        | inr (e, h) ↦ inl (rw (complete, h) ((complete_failed e, refl), inr (inl refl)))
      ]

  -- The last body, which is not empty; there is none if nothing is left.
  abbrev Flushed : ℕ → List (ℕ × String) → Bytes → Step → Type 0
  Flushed n parts rest r =
      (last : List Bytes) × (tags : List (ℕ × String)) × AreTagged answer id n last tags
      × (length last ≤ 1)
      × All (λ body. 1 ≤ length body) last
      × (joined last ≡ rest)
      × (r ≡ step (going key id (n + length last) (parts ++ tags) []) (uploads id n last) done)

  flush-going :
      (rest : Bytes) (n : ℕ) (parts : List (ℕ × String))
      → Failed id (flush min_part_size answer rest (going key id n parts rest))
        ⊎ Flushed n parts rest (flush min_part_size answer rest (going key id n parts rest))
  unfolding flush
  flush-going [] n parts =
      let same : n ≡ n + 0 = omega arith in
      inr (
        [],
        [],
        tt,
        omega arith,
        tt,
        refl,
        ap (λ m. step (going key id m parts []) [] done) same
            ∙ ap (λ ts. step (going key id (n + 0) ts []) [] done) (sym (append-nil parts)),
      )
  flush-going (b ∷ bs) n parts =
      elim (upload-going min_part_size answer key id n parts (b ∷ bs) []) [
        | inl failed ↦ inl failed
        | inr (tag, answered, same) ↦ inr (
          (b ∷ bs) ∷ [],
          (n + 1, tag) ∷ [],
          (refl, answered, tt),
          omega arith,
          (omega arith, tt),
          append-nil (b ∷ bs),
          same,
        )
      ]

  -- The end of an archive after bodies that were uploaded.
  abbrev pub Ended : ℕ → List (ℕ × String) → Bytes → Step → Type 0
  Ended n parts rest r =
      (last : List Bytes) × (tags : List (ℕ × String)) × AreTagged answer id n last tags
      × (length last ≤ 1)
      × All (λ body. 1 ≤ length body) last
      × (joined last ≡ rest)
      × (r.reply ≡ archived location)
      × (r.archiver.finalized ≡ true)
      × (r.requests ≡ uploads id n last ++ ending key id (parts ++ tags))

  pub finalize-going :
      (rest : Bytes) (n : ℕ) (parts : List (ℕ × String))
      → (let r = finalize min_part_size answer bucket (going key id n parts rest) in
          Failed id r ⊎ Ended n parts rest r)
  unfolding finalize then_call
  finalize-going rest n parts =
      let next = complete min_part_size answer bucket in
      let Ends : Step → Type 0 = λ r. Failed id r ⊎ Ended n parts rest r in
      elim (flush-going rest n parts) [
        | inl failed ↦ inl (then_call-Failed min_part_size answer key id next _ failed)
        | inr (last, tags, tagged, one, full, whole, same) ↦
            let s = going key id (n + length last) (parts ++ tags) [] in
            subst Ends (sym (ap (λ first. then_call min_part_size answer first next) same))
              (elim (complete-going (n + length last) (parts ++ tags)) [
                | inl failed ↦
                    inl
                      (Failed-longer min_part_size answer key id next s (uploads id n last) failed)
                | inr (reply, final, requests) ↦ inr (
                  last,
                  tags,
                  tagged,
                  one,
                  full,
                  whole,
                  reply,
                  final,
                  ap (λ rs. uploads id n last ++ rs) requests,
                )
              ])
      ]
