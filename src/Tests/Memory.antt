-- ===== src/Tests/Memory.antt =====
-- A bucket in memory that meets what is assumed of S3: an ETag is the quoted content. The codec
-- stands in for encoding/json and keeps the name of an index.
use s3_registry.Prelude.{
  ◌∙◌, ◌≡◌, refl, sym, ap, Bool, true, false, Option, none, some, [], ◌∷◌, arith, inl, inr,
  Bool-cases,
}
use s3_registry.Text.{Str, codes, ◌==◌, eq_iff, eq_refl}
use s3_registry.Dict.{Dict, lookup, insert, erase, lookup-insert, lookup-erase}
use s3_registry.Instant.{zero_time}
use s3_registry.Store.{
  Service, ApiError, Api, done, failed, GetOutput, Condition, if_match, if_none_match,
  unconditional, Codec, is_no_such_key, is_precondition_failed,
}
use s3_registry.Store.Laws.{Stored, S3, IsUp, Holds}
use s3_registry.Registry.Sound.{IsExact}

abbrev error_of : Str → ApiError
error_of c = record { no_such_key = false; code = some c; message = [] }

abbrev tag_of : Str → Str
tag_of body = 34 ∷ body

abbrev found : Option Str → Api GetOutput
found none = failed (error_of (codes "NoSuchKey"))
found (some s) = done (record { body = some s; etag = some (tag_of s); content_length = none })

abbrev meets : Condition → Option Str → Bool
meets (if_match e) none = false
meets (if_match e) (some s) = tag_of s == e
meets if_none_match none = true
meets if_none_match (some s) = false
meets unconditional o = true

abbrev write : Bool → Dict Str → Str → Str → Dict Str × Api (Unit {0})
write true b k s = (insert k s b, done tt)
write false b k s = (b, failed (error_of (codes "PreconditionFailed")))

abbrev pub memory : Service
memory = record {
  Bucket = Dict Str;
  get_object = λ b k. found (lookup k b);
  put_object = λ b k s c. write (meets c (lookup k b)) b k s;
  delete_object = λ b k. (erase k b, done tt);
  list_objects = λ b p d t.
      done (record { common_prefixes = []; contents = []; is_truncated = none; next = none });
  head_bucket = λ b. done tt;
}

abbrev pub toy_codec : Codec
toy_codec = record {
  unmarshal = λ s. some (record { name = s; updated = zero_time; versions = none });
  marshal = λ i. some i.name;
}

abbrev stored_of : Option Str → Option Stored
stored_of none = none
stored_of (some s) = some (record { body = s; etag = tag_of s })

meets-Holds : (c : Condition) (o : Option Str) → meets c o ≡ true → Holds c (stored_of o)
meets-Holds (if_match e) none h = absurd (cc)
meets-Holds (if_match e) (some s) h = (eq_iff (tag_of s) e).0 h
meets-Holds if_none_match none h = refl
meets-Holds if_none_match (some s) h = absurd (cc)
meets-Holds unconditional o h = tt

Holds-meets : (c : Condition) (o : Option Str) → Holds c (stored_of o) → meets c o ≡ true
Holds-meets (if_match e) none h = absurd h
Holds-meets (if_match e) (some s) h = (eq_iff (tag_of s) e).1 h
Holds-meets if_none_match none h = refl
Holds-meets if_none_match (some s) h = cc
Holds-meets unconditional o h = refl

abbrev content : Dict Str → Str → Option Stored
content b k = stored_of (lookup k b)

found_done :
    (o : Option Str) (out : GetOutput)
    → found o ≡ done out
    → (x : Stored) × (stored_of o ≡ some x)
      × (out.etag ≡ some x.etag)
      × ((s : Str) → out.body ≡ some s → x.body ≡ s)
found_done none out h = absurd (cc)
found_done (some s) out h =
    (record { body = s; etag = tag_of s }, refl, ground arith, λ t e. ground arith)

found_failed : (o : Option Str) (e : ApiError) → found o ≡ failed e → stored_of o ≡ none
found_failed none e h = refl
found_failed (some s) e h = cc

write_done :
    (m : Bool) (b : Dict Str) (k s : Str) (b' : Dict Str)
    → write m b k s ≡ (b', done tt)
    → (m ≡ true) × (b' ≡ insert k s b)
write_done true b k s b' h = (refl, ground arith)
write_done false b k s b' h = absurd (ground arith)

written_self :
    (b : Dict Str) (k s : Str) (b' : Dict Str)
    → b' ≡ insert k s b
    → (x : Stored) × (content b' k ≡ some x) × (x.body ≡ s)
written_self b k s b' e =
    (record { body = s; etag = tag_of s }, rw (e, lookup-insert k k s b, eq_refl) refl, refl)

written_ne :
    (b : Dict Str) (k s : Str) (b' : Dict Str) (j : Str)
    → b' ≡ insert k s b
    → k == j ≡ false
    → content b' j ≡ content b j
written_ne b k s b' j e d = rw (e, lookup-insert k j s b, d) refl

tag_body :
    (u v : Option Str) (o p : Stored)
    → stored_of u ≡ some o
    → stored_of v ≡ some p
    → o.etag ≡ p.etag
    → o.body ≡ p.body
tag_body u v o p h k e = ground arith

tag_nonempty : (u : Option Str) (o : Stored) → stored_of u ≡ some o → o.etag == [] ≡ false
unfolding ◌==◌
tag_nonempty u o h = ground arith

pub memory-S3 : S3 memory
memory-S3 = record {
  content = content;
  get_done = λ b k out h. found_done (lookup k b) out h;
  get_missing = λ b k e h _. found_failed (lookup k b) e h;
  put_done = λ b k s c b' h.
      let (m, e) = write_done (meets c (lookup k b)) b k s b' h in
      (meets-Holds c (lookup k b) m, written_self b k s b' e, λ j d. written_ne b k s b' j e d);
  etag_body = λ b c k o p h k' e. tag_body (lookup k b) (lookup k c) o p h k' e;
  etag_nonempty = λ b k o h. tag_nonempty (lookup k b) o h;
}

pub memory-S3_absent : (b : Dict Str) (k : Str) → lookup k b ≡ none → memory-S3.content b k ≡ none
unfolding memory-S3
memory-S3_absent b k h = rw h refl

pub memory-S3_held :
    (b : Dict Str) (k s : Str)
    → lookup k b ≡ some s
    → memory-S3.content b k ≡ some (record { body = s; etag = 34 ∷ s })
unfolding memory-S3
memory-S3_held b k s h = rw h refl

-- The bucket in memory answers every call.
refused : (c : Condition) (o : Option Str) → meets c o ≡ false → ¬ Holds c (stored_of o)
refused c o n h = cc (Holds-meets c o h)

no_such_key : is_no_such_key (error_of (codes "NoSuchKey")) ≡ true
unfolding is_no_such_key ◌==◌
no_such_key = refl

failed_precondition : is_precondition_failed (error_of (codes "PreconditionFailed")) ≡ true
unfolding is_precondition_failed ◌==◌
failed_precondition = refl

found_some :
    (u : Option Str) (o : Stored)
    → stored_of u ≡ some o
    → found u ≡ done (record { body = some o.body; etag = some o.etag; content_length = none })
found_some u o h = ground arith

found_none : (u : Option Str) → stored_of u ≡ none → found u ≡ failed (error_of (codes "NoSuchKey"))
found_none none h = refl
found_none (some s) h = cc

pub memory-IsUp : IsUp memory memory-S3
unfolding memory-S3
memory-IsUp = record {
  reads = λ b k o h. (none, found_some (lookup k b) o h);
  misses = λ b k h. (error_of (codes "NoSuchKey"), found_none (lookup k b) h, no_such_key);
  answers = λ b k s c. elim (Bool-cases (meets c (lookup k b))) [
    | inl y ↦ inl (insert k s b, rw y refl)
    | inr n ↦ inr (
      b,
      error_of (codes "PreconditionFailed"),
      rw n refl,
      failed_precondition,
      refused c (lookup k b) n,
    )
  ];
}

-- A refused write and a deletion change nothing else.
write_failed :
    (m : Bool) (b : Dict Str) (k s : Str) (b' : Dict Str) (e : ApiError)
    → write m b k s ≡ (b', failed e)
    → b' ≡ b
write_failed true b k s b' e h = absurd (ground arith)
write_failed false b k s b' e h = ground arith

erased :
    (k : Str) (b b' : Dict Str) → memory.delete_object b k ≡ (b', done tt) → content b' k ≡ none
erased k b b' h =
    ap (λ (x : Dict Str × Api (Unit {0})). content x.0 k) (sym h)
    ∙ rw (lookup-erase k k b, eq_refl k) refl

pub memory-IsExact : IsExact memory memory-S3
unfolding memory-S3
memory-IsExact = record {
  refused = λ b k s c b' e h _ j.
      ap (λ d. content d j) (write_failed (meets c (lookup k b)) b k s b' e h);
  deleted = λ b k j n. rw (lookup-erase k j b, n) refl;
  gone = λ b k b' h. erased k b b' h;
}
