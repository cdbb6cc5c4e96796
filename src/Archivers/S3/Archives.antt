-- ===== src/Archivers/S3/Archives.antt =====
-- A whole archive: its requests and how it ends.
use mathlib.Core.Path.{subst}
use mathlib.Core.List.{append_assoc}
use product_feed_protocol.Prelude.{
  ℕ, ◌+◌, ◌≤◌, String, ◌≡◌, ◌⊎◌, inl, inr, refl, sym, ap, ◌∙◌, true, List, [], ◌∷◌, ◌++◌, length,
  All,
}
use product_feed_protocol.ChunkBuffer.{Bytes}
use product_feed_protocol.ChunkBuffer.Contents.{joined}
use product_feed_protocol.Transport.{Attempt, returned}
use product_feed_protocol.Archivers.S3.{
  Request, create_multipart_upload, Archiver, done, archived, Step, step, abort_previous,
  open_archive, then_call, finalize, write_all, archive,
}
use product_feed_protocol.Archivers.S3.Uploads.{
  uploads, uploads-append, AreTagged, AreTagged-append, going, Failed,
}
use product_feed_protocol.Archivers.S3.Chunks.{then_call-Failed, Failed-longer, write_all-going}
use product_feed_protocol.Archivers.S3.Completion.{ending, joined-append, location, finalize-going}

module _ (min_part_size : ℕ) (answer : Request → Attempt String String)
    (key id bucket : String) where
  -- What a completed archive is: the parts are the chunks joined, and only the last may be small.
  abbrev pub ArchivedAfter : List Request → List Bytes → Step → Type 0
  ArchivedAfter before chunks r =
      (full : List Bytes) × (last : List Bytes) × (tags : List (ℕ × String)) × AreTagged answer id 0
        (full ++ last) tags
      × All (λ body. min_part_size ≤ length body) full
      × (length last ≤ 1)
      × All (λ body. 1 ≤ length body) last
      × (joined (full ++ last) ≡ joined chunks)
      × (r.reply ≡ archived (location min_part_size answer key id bucket))
      × (r.archiver.finalized ≡ true)
      × (r.requests ≡ before ++ (uploads id 0 (full ++ last) ++ ending key id tags))

  archive-going :
      (chunks : List Bytes)
      → (let r =
            then_call min_part_size answer
              (write_all min_part_size answer chunks (going key id 0 [] []))
              (finalize min_part_size answer bucket) in
          Failed id r ⊎ ArchivedAfter [] chunks r)
  unfolding then_call
  archive-going chunks =
      let next = finalize min_part_size answer bucket in
      let Ends : Step → Type 0 = λ r. Failed id r ⊎ ArchivedAfter [] chunks r in
      elim (write_all-going min_part_size answer key id chunks 0 [] []) [
        | inl failed ↦ inl (then_call-Failed min_part_size answer key id next _ failed)
        | inr (full, tags, rest, tagged, large, whole, same) ↦
            let s = going key id (0 + length full) tags rest in
            subst Ends (sym (ap (λ first. then_call min_part_size answer first next) same))
              (elim (finalize-going min_part_size answer key id bucket rest (0 + length full)
                tags) [
                  | inl failed ↦
                      inl (
                        Failed-longer min_part_size answer key id next s (uploads id 0 full) failed)
                  | inr (last, others, tagged', one, filled, whole', reply, final, requests) ↦ inr (
                    full,
                    last,
                    tags ++ others,
                    AreTagged-append answer id 0 full last tags others tagged tagged',
                    large,
                    one,
                    filled,
                    joined-append full last ∙ ap (λ t. joined full ++ t) whole' ∙ whole,
                    reply,
                    final,
                    ap (λ rs. uploads id 0 full ++ rs) requests
                        ∙ sym
                            (append_assoc (uploads id 0 full) (uploads id (0 + length full) last) _)
                        ∙ ap (λ rs. rs ++ ending key id (tags ++ others))
                            (sym (uploads-append id 0 full last)),
                  )
                ])
      ]

  open_archive-going :
      (s : Archiver)
      → answer (create_multipart_upload key) ≡ returned id
      → open_archive min_part_size answer key s
        ≡ step (going key id 0 [] []) (abort_previous s ++ create_multipart_upload key ∷ []) done
  unfolding open_archive
  open_archive-going s opened = rw (open_archive, opened) refl

  Ends-longer :
      (before : List Request) (chunks : List Bytes) (next : Archiver → Step)
      → (let s = going key id 0 [] [] in
          Failed id (next s) ⊎ ArchivedAfter [] chunks (next s)
          → (let r = then_call min_part_size answer (step s before done) next in
              Failed id r ⊎ ArchivedAfter before chunks r))
  unfolding then_call
  Ends-longer before chunks next (inl failed) =
      inl (Failed-longer min_part_size answer key id next (going key id 0 [] []) before failed)
  Ends-longer before chunks next
        (inr (full, last, tags, tagged, large, one, filled, whole, reply, final, requests)) =
      inr (
        full,
        last,
        tags,
        tagged,
        large,
        one,
        filled,
        whole,
        reply,
        final,
        ap (λ rs. before ++ rs) requests,
      )

  -- If the upload was begun, the archive either is rejected and the upload was aborted, or it is
  -- archived: the requests are an abortion of an upload that was left open, the new upload, its parts
  -- in order, and its completion with the store's tags for them (or an empty object in its place, if
  -- there is no part). The parts are the chunks joined, and only the last may be smaller than the
  -- store allows, but not empty.
  pub archive-ends :
      (s : Archiver) (chunks : List Bytes)
      → answer (create_multipart_upload key) ≡ returned id
      → (let r = archive min_part_size answer key bucket chunks s in
          Failed id r
          ⊎ ArchivedAfter (abort_previous s ++ create_multipart_upload key ∷ []) chunks r)
  unfolding archive
  archive-ends s chunks opened =
      let before = abort_previous s ++ create_multipart_upload key ∷ [] in
      let next : Archiver → Step = λ t.
        then_call min_part_size answer (write_all min_part_size answer chunks t)
          (finalize min_part_size answer bucket) in
      let Ends : Step → Type 0 = λ r. Failed id r ⊎ ArchivedAfter before chunks r in
      subst Ends
        (sym
          (ap (λ first. then_call min_part_size answer first next) (open_archive-going s opened)))
        (Ends-longer before chunks next (archive-going chunks))
