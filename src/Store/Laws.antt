-- ===== src/Store/Laws.antt =====
-- What the registry relies on of S3, as its documentation states it: strong consistency, conditional
-- writes, and ETags that change with the content.
use s3_registry.Prelude.{◌≡◌, true, false, Option, none, some, ◌⊎◌, []}
use s3_registry.Prelude.Int.{ℤ}
use s3_registry.Text.{Str, ◌==◌}
use s3_registry.Result.{Result, ok}
use s3_registry.Index.{Index, new}
use s3_registry.Store.{
  Service, ApiError, GetOutput, done, failed, Condition, if_match, if_none_match, unconditional,
  Codec, load, is_no_such_key, is_precondition_failed,
}

-- An object as the service holds it.
pub record Stored : Type 0 where
  pub body : Str
  pub etag : Str

-- The condition of a write, at what the key holds.
abbrev pub Holds : Condition → Option Stored → Type 0
Holds (if_match e) none = ⊥
Holds (if_match e) (some o) = o.etag ≡ e
Holds if_none_match o = o ≡ none
Holds unconditional o = Unit

pub record S3 (S : Service) : Type 0 where
  pub content : S.Bucket → Str → Option Stored
  -- a read returns what the key holds, and names its ETag
  pub get_done :
      (b : S.Bucket) (k : Str) (out : GetOutput)
      → S.get_object b k ≡ done out
      → (o : Stored) × (content b k ≡ some o)
        × (out.etag ≡ some o.etag)
        × ((s : Str) → out.body ≡ some s → o.body ≡ s)
  pub get_missing :
      (b : S.Bucket) (k : Str) (e : ApiError)
      → S.get_object b k ≡ failed e
      → is_no_such_key e ≡ true
      → content b k ≡ none
  -- a write goes through only if its condition holds at that moment
  pub put_done :
      (b : S.Bucket) (k s : Str) (c : Condition) (b' : S.Bucket)
      → S.put_object b k s c ≡ (b', done tt)
      → Holds c (content b k)
        × ((o : Stored) × (content b' k ≡ some o) × (o.body ≡ s))
        × ((j : Str) → k == j ≡ false → content b' j ≡ content b j)
  -- an ETag stands for one content, and is never empty
  pub etag_body :
      (b c : S.Bucket) (k : Str) (o p : Stored)
      → content b k ≡ some o
      → content c k ≡ some p
      → o.etag ≡ p.etag
      → o.body ≡ p.body
  pub etag_nonempty :
      (b : S.Bucket) (k : Str) (o : Stored) → content b k ≡ some o → o.etag == [] ≡ false

-- A service that answers every call: a read finds what is there, and a write goes through unless its
-- condition does not hold, which it then says.
pub record IsUp (S : Service) (s3 : S3 S) : Type 0 where
  pub reads :
      (b : S.Bucket) (k : Str) (o : Stored)
      → s3.content b k ≡ some o
      → (n : Option ℤ) × (S.get_object b k
          ≡ done (record { body = some o.body; etag = some o.etag; content_length = n }))
  pub misses :
      (b : S.Bucket) (k : Str)
      → s3.content b k ≡ none
      → (e : ApiError) × (S.get_object b k ≡ failed e) × (is_no_such_key e ≡ true)
  pub answers :
      (b : S.Bucket) (k s : Str) (c : Condition)
      → ((b' : S.Bucket) × (S.put_object b k s c ≡ (b', done tt)))
        ⊎ ((b' : S.Bucket) × (e : ApiError) × (S.put_object b k s c ≡ (b', failed e))
            × (is_precondition_failed e ≡ true)
            × (¬ Holds c (s3.content b k)))

-- The index that the bucket holds for a tool; without an object, the new one.
abbrev pub index_in : Codec → Str → Option Stored → Result Index
index_in C tool none = ok (new tool)
index_in C tool (some o) = load C o.body
