-- ===== src/Update/Interleaved.antt =====
-- Several runs of updateIndex of cmd/s3reg/publish.go on one bucket, as steps that interleave: the read of
-- an attempt, and its write. A write whose answer is an error has had its full effect or none.
pub mod History
pub mod Attempts
use s3_registry.Prelude.{ℕ, ◌≡◌, eqb, Option, none, some, List, [], ◌∷◌, if◌then◌else◌}
use s3_registry.Text.{Str}
use s3_registry.Result.{Result, ok, err}
use s3_registry.Index.{Index}
use s3_registry.Store.{Service, ApiError, Codec, done, failed, index_key, get_index, condition_of}
use s3_registry.Store.Laws.{Stored, S3, Holds}
use s3_registry.Update.{found_or_new}

-- A write that took effect: whose it was, in which of its attempts, and its text.
pub record Commit : Type 0 where
  pub writer : ℕ
  pub round : ℕ
  pub text : Str

-- The bucket, what each writer has read in its attempt, and the writes that took effect, the last first.
pub record System (Bucket : Type 0) : Type 0 where
  pub bucket : Bucket
  pub held : ℕ → Option (Index × Str)
  pub log : List Commit

abbrev pub holding :
    (ℕ → Option (Index × Str)) → ℕ → Option (Index × Str) → ℕ → Option (Index × Str)
holding held i r j = if eqb i j then r else held j

module _ (S : Service) (s3 : S3 S) (C : Codec) (tool : Str)
    (mutate : ℕ → ℕ → Index → Result Index) where
  -- What a writer sends in an attempt, from what it has read.
  pub record Sends (s : System S.Bucket) (i n : ℕ) (text etag : Str) : Type 0 where
    pub idx : Index
    pub changed : Index
    pub read : s.held i ≡ some (idx, etag)
    pub change : mutate i n idx ≡ ok changed
    pub encoded : C.marshal changed ≡ some text

  pub data Step (s : System S.Bucket) : System S.Bucket → Type 0 where
    reads :
        (i : ℕ) (idx : Index) (etag : Str)
        → found_or_new tool (get_index S C tool s.bucket) ≡ ok (idx, etag)
        → Step s (record s { held = holding s.held i (some (idx, etag)) })
    commits :
        (i n : ℕ) (text etag : Str) (b : S.Bucket)
        → Sends s i n text etag
        → S.put_object s.bucket (index_key tool) text (condition_of etag) ≡ (b, done tt)
        → Step s (record {
          bucket = b;
          held = holding s.held i none;
          log = record { writer = i; round = n; text = text } ∷ s.log;
        })
    refused :
        (i n : ℕ) (text etag : Str) (b : S.Bucket) (e : ApiError)
        → Sends s i n text etag
        → S.put_object s.bucket (index_key tool) text (condition_of etag) ≡ (b, failed e)
        → s3.content b (index_key tool) ≡ s3.content s.bucket (index_key tool)
        → Step s (record s { bucket = b; held = holding s.held i none })
    -- the write took effect, and its answer was lost
    unanswered :
        (i n : ℕ) (text etag : Str) (b : S.Bucket) (e : ApiError) (o : Stored)
        → Sends s i n text etag
        → S.put_object s.bucket (index_key tool) text (condition_of etag) ≡ (b, failed e)
        → Holds (condition_of etag) (s3.content s.bucket (index_key tool))
        → s3.content b (index_key tool) ≡ some o
        → o.body ≡ text
        → Step s (record {
          bucket = b;
          held = holding s.held i none;
          log = record { writer = i; round = n; text = text } ∷ s.log;
        })
    -- a write to another object
    elsewhere :
        (b : S.Bucket)
        → s3.content b (index_key tool) ≡ s3.content s.bucket (index_key tool)
        → Step s (record s { bucket = b })

  pub data Reach (b : S.Bucket) : System S.Bucket → Type 0 where
    start : Reach b (record { bucket = b; held = λ i. none; log = [] })
    next : {s t : System S.Bucket} → Reach b s → Step s t → Reach b t
