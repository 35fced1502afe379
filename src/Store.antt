-- ===== src/Store.antt =====
-- internal/store/store.go: the operations of the registry on its bucket. The S3 service and
-- encoding/json's codec for an index are parameters; `Service.Bucket` is the state of the service,
-- its contents and whatever decides that a call fails.
pub mod Laws
pub mod Listing
pub mod Paging
pub mod Client
use s3_registry.Prelude.{
  Bool, true, false, ◌||◌, Option, none, some, List, [], ◌∷◌, ◌++◌, if◌then◌else◌, map, ℕ, zero,
  suc,
}
use s3_registry.Prelude.Int.{ℤ, pos}
use s3_registry.Text.{Str, codes, ◌==◌, has_substring, has_suffix}
use s3_registry.Instant.{Instant, zero_time}
use s3_registry.Result.{
  Error, Result, ok, err, parse_index, not_found, precondition_failed, service, ◌>>=◌,
}
use s3_registry.Index.{Index, Version}

-- An error of the S3 client: whether it is a *types.NoSuchKey, the code of a smithy.APIError, and
-- its text.
pub record ApiError : Type 0 where
  pub no_such_key : Bool
  pub code : Option Str
  pub message : Str

pub data Api {ℓ} (A : Type ℓ) : Type ℓ where
  done : A → Api A
  failed : ApiError → Api A

-- `body` is `none` where reading it to the end fails.
pub record GetOutput : Type 0 where
  pub body : Option Str
  pub etag : Option Str
  pub content_length : Option ℤ

-- The headers If-Match and If-None-Match: *.
pub data Condition : Type 0 where
  if_match : Str → Condition
  if_none_match : Condition
  unconditional : Condition

pub record Listed : Type 0 where
  pub key : Option Str
  pub last_modified : Option Instant

pub record ListOutput : Type 0 where
  pub common_prefixes : List (Option Str)
  pub contents : List Listed
  pub is_truncated : Option Bool
  pub next : Option Str

pub record Service : Type 1 where
  pub Bucket : Type 0
  pub get_object : Bucket → Str → Api GetOutput
  pub put_object : Bucket → Str → Str → Condition → Bucket × Api (Unit {0})
  pub delete_object : Bucket → Str → Bucket × Api (Unit {0})
  -- the prefix, the delimiter and the continuation token
  pub list_objects : Bucket → Option Str → Option Str → Option Str → Api ListOutput
  pub head_bucket : Bucket → Api (Unit {0})

-- index.json as json.Unmarshal leaves it; `none` is the nil slice.
pub record Decoded : Type 0 where
  pub name : Str
  pub updated : Instant
  pub versions : Option (List Version)

pub record Codec : Type 0 where
  pub unmarshal : Str → Option Decoded
  pub marshal : Index → Option Str

abbrev pub slice_of {ℓ} : {A : Type ℓ} → Option (List A) → List A
slice_of none = []
slice_of (some xs) = xs

-- index.Load
unfoldable pub load : Codec → Str → Result Index
load c data' = elim (c.unmarshal data') [
  | none ↦ err parse_index
  | some d ↦ ok (record { name = d.name; updated = d.updated; versions = slice_of d.versions })
]

-- Marshal
abbrev pub marshal : Codec → Index → Option Str
marshal c i = c.marshal i

-- indexKey
unfoldable pub index_key : Str → Str
index_key tool = tool ++ codes "/index.json"

abbrev code_is : Option Str → Str → Bool
code_is none s = false
code_is (some c) s = c == s

-- isNoSuchKey
unfoldable pub is_no_such_key : ApiError → Bool
is_no_such_key e =
    e.no_such_key
    || (code_is e.code (codes "NoSuchKey")
        || (code_is e.code (codes "NotFound") || code_is e.code (codes "404")))

-- isPreconditionFailed
unfoldable pub is_precondition_failed : ApiError → Bool
is_precondition_failed e =
    (code_is e.code (codes "PreconditionFailed") || code_is e.code (codes "412"))
    || has_substring e.message (codes "PreconditionFailed")

-- `*out.ETag`, or the empty text where it is nil
abbrev pub text_of : Option Str → Str
text_of none = []
text_of (some s) = s

-- The condition of PutIndex: an empty ETag asks for no object.
unfoldable pub condition_of : Str → Condition
condition_of etag = if etag == [] then if_none_match else if_match etag

abbrev pub put_answer : Api (Unit {0}) → Result (Unit {0})
put_answer (done _) = ok tt
put_answer (failed e) =
    if is_precondition_failed e then err precondition_failed else err (service e.message)

module _ (S : Service) (C : Codec) where
  open S use {Bucket}

  -- GetIndex on what GetObject returned
  unfoldable pub read_index : Api GetOutput → Result (Index × Str)
  unfolding is_no_such_key load
  read_index (failed e) = if is_no_such_key e then err not_found else err (service e.message)
  read_index (done out) = elim out.body [
    | none ↦ err (service (codes "read index"))
    | some data' ↦ do idx ← load C data'; ok (idx, text_of out.etag)
  ]

  -- GetIndex
  unfoldable pub get_index : Str → Bucket → Result (Index × Str)
  unfolding read_index index_key
  get_index tool b = read_index (S.get_object b (index_key tool))

  -- PutIndex
  unfoldable pub put_index : Str → Index → Str → Bucket → Bucket × Result (Unit {0})
  unfolding index_key condition_of is_precondition_failed
  put_index tool idx etag b = elim (marshal C idx) [
    | none ↦ (b, err (service (codes "marshal")))
    | some data' ↦
        let (b', r) = S.put_object b (index_key tool) data' (condition_of etag) in
        (b', put_answer r)
  ]

abbrev pub plain_answer : Api (Unit {0}) → Result (Unit {0})
plain_answer (done _) = ok tt
plain_answer (failed e) = err (service e.message)

abbrev pub size_of : Option ℤ → ℤ
size_of none = pos 0
size_of (some n) = n

module _ (S : Service) where
  open S use {Bucket}

  -- PutArtifact
  unfoldable pub put_artifact : Str → Str → Bucket → Bucket × Result (Unit {0})
  put_artifact key body b =
      let (b', r) = S.put_object b key body unconditional in (b', plain_answer r)

  -- DeleteObject
  unfoldable pub delete_object : Str → Bucket → Bucket × Result (Unit {0})
  delete_object key b = let (b', r) = S.delete_object b key in (b', plain_answer r)

  -- HeadBucket
  unfoldable pub head_bucket : Bucket → Result (Unit {0})
  head_bucket b = plain_answer (S.head_bucket b)

  -- GetObject: the body, which may fail to be read, and its size
  unfoldable pub get_object : Str → Bucket → Result (Option Str × ℤ)
  unfolding is_no_such_key
  get_object key b = elim (S.get_object b key) [
    | failed e ↦ if is_no_such_key e then err not_found else err (service e.message)
    | done out ↦ ok (out.body, size_of out.content_length)
  ]
