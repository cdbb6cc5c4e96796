-- ===== src/Archivers/S3/Uploads.antt =====
-- What the store was asked for when an archive ends: the parts of a complete upload, or an upload that was aborted.
use mathlib.Core.Path.{subst}
use product_feed_protocol.Prelude.{
  ℕ, ◌+◌, String, ◌≡◌, ◌⊎◌, inl, inr, refl, ap, ◌∙◌, arith, false, some, List, [], ◌∷◌, ◌++◌,
  length,
}
use product_feed_protocol.ChunkBuffer.{Bytes}
use product_feed_protocol.Transport.{Attempt, returned}
use product_feed_protocol.Transport.Retries.{Attempt-cases}
use product_feed_protocol.Archivers.S3.{
  Request, upload_part, abort_multipart_upload, Archiver, Reply, done, rejected, ArchiverError,
  upload_failed, Step, step, abort_upload, upload,
}

-- Whether the upload was aborted.
abbrev pub IsAborted : String → List Request → Type 0
IsAborted id [] = ⊥
IsAborted id (r ∷ rs) = (r ≡ abort_multipart_upload id) ⊎ IsAborted id rs

pub IsAborted-append :
    (id : String) (rs ss : List Request) → IsAborted id ss → IsAborted id (rs ++ ss)
IsAborted-append id [] ss h = h
IsAborted-append id (r ∷ rs) ss h = inr (IsAborted-append id rs ss h)

abbrev pub IsRejected : Reply → Type 0
IsRejected reply = (e : ArchiverError) × (reply ≡ rejected e)

-- The requests for bodies as the parts after a number.
abbrev pub uploads : String → ℕ → List Bytes → List Request
uploads id n [] = []
uploads id n (body ∷ bodies) = upload_part (some id) (n + 1) body ∷ uploads id (n + 1) bodies

pub uploads-append :
    (id : String) (n : ℕ) (bodies more : List Bytes)
    → uploads id n (bodies ++ more) ≡ uploads id n bodies ++ uploads id (n + length bodies) more
uploads-append id n [] more = let same : n ≡ n + 0 = omega arith in ap (λ m. uploads id m more) same
uploads-append id n (b ∷ bodies) more =
    let same : n + 1 + length bodies ≡ n + length (b ∷ bodies) = omega arith in
    ap (λ rs. upload_part (some id) (n + 1) b ∷ rs)
      (uploads-append id (n + 1) bodies more
        ∙ ap (λ m. uploads id (n + 1) bodies ++ uploads id m more) same)

abbrev pub Failed : String → Step → Type 0
Failed id r = IsRejected r.reply × IsAborted id r.requests

module _ (key id : String) where
  -- An archiver with an open upload.
  abbrev pub going : ℕ → List (ℕ × String) → Bytes → Archiver
  going n parts current = record {
    object_key = key;
    upload_id = some id;
    parts = parts;
    buffer = some current;
    part_number = n;
    finalized = false;
  }

module _ (answer : Request → Attempt String String) (id : String) where
  -- The tags with which the store answered for the bodies, with their numbers.
  abbrev pub AreTagged : ℕ → List Bytes → List (ℕ × String) → Type 0
  AreTagged n [] [] = Unit
  AreTagged n (body ∷ bodies) ((m, tag) ∷ tags) =
      (m ≡ n + 1)
      × (answer (upload_part (some id) (n + 1) body) ≡ returned tag)
      × AreTagged (n + 1) bodies tags
  AreTagged n _ _ = ⊥

  pub AreTagged-append :
      (n : ℕ) (bodies more : List Bytes) (tags others : List (ℕ × String))
      → AreTagged n bodies tags
      → AreTagged (n + length bodies) more others
      → AreTagged n (bodies ++ more) (tags ++ others)
  AreTagged-append n [] more [] others h k =
      let same : n + 0 ≡ n = omega arith in subst (λ m. AreTagged m more others) same k
  AreTagged-append n [] more (_ ∷ _) others h k = absurd h
  AreTagged-append n (b ∷ bodies) more [] others h k = absurd h
  AreTagged-append n (b ∷ bodies) more ((m, tag) ∷ tags) others (number, answered, h) k =
      let same : n + length (b ∷ bodies) ≡ n + 1 + length bodies = omega arith in
      (
        number,
        answered,
        AreTagged-append (n + 1) bodies more tags others h
            (subst (λ m. AreTagged m more others) same k),
      )

module _ (min_part_size : ℕ) (answer : Request → Attempt String String) (key id : String) where
  -- A body was uploaded.
  abbrev pub Uploaded : ℕ → List (ℕ × String) → Bytes → Step → Type 0
  Uploaded n parts body r =
      (tag : String) × (answer (upload_part (some id) (n + 1) body) ≡ returned tag)
      × (r
          ≡ step (going key id (n + 1) (parts ++ (n + 1, tag) ∷ []) [])
              (upload_part (some id) (n + 1) body ∷ []) done)

  pub upload-going :
      (n : ℕ) (parts : List (ℕ × String)) (body current : Bytes)
      → Failed id (upload min_part_size answer body (going key id n parts []))
        ⊎ Uploaded n parts body (upload min_part_size answer body (going key id n parts []))
  unfolding upload abort_upload
  upload-going n parts body current =
      elim (Attempt-cases (answer (upload_part (some id) (n + 1) body))) [
        | inl (tag, h) ↦ inr (tag, h, rw (upload, h) refl)
        | inr (e, h) ↦ inl (rw (upload, h) ((upload_failed e, refl), inr (inl refl)))
      ]
