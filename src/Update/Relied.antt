-- ===== src/Update/Relied.antt =====
-- updateIndex of cmd/s3reg/publish.go where others keep a property of the bucket: it holds right before
-- the write that the update ends with.
use s3_registry.Prelude.{
  ℕ, zero, suc, ◌≡◌, refl, sym, ap, subst, ◌∙◌, true, Bool-cases, Option-cases, inl, inr, arith,
}
use s3_registry.Text.{Str}
use s3_registry.Result.{Result, ok, err}
use s3_registry.Index.{Index}
use s3_registry.Store.{
  Service, Codec, Api, done, failed, ApiError, Condition, index_key, put_index, put_answer,
  condition_of, is_precondition_failed,
}
use s3_registry.Store.Laws.{S3}
use s3_registry.Update.{
  Others, Attempt, returned, conflict, settle, write_back, attempt, attempts, next_round,
  update_index, max_attempts,
}
use s3_registry.Update.Atomic.{Committed, attempt-Committed_at}

-- What others do keeps a property.
pub record Keep {Bucket : Type 0} (P : Bucket → Type 0) (others : Others Bucket) : Type 0 where
  pub on_read : (n : ℕ) (b : Bucket) → P b → P (others.before_read n b)
  pub on_write : (n : ℕ) (b : Bucket) → P b → P (others.before_write n b)

-- Before each upload and each deletion others leave the objects at some keys as they are.
abbrev pub Spares : (S : Service) → S3 S → Others S.Bucket → (Str → Type 0) → Type 0
Spares S s3 others K =
    (n : ℕ) (b : S.Bucket) (k : Str)
    → K k
    → s3.content (others.before_object n b) k ≡ s3.content b k

module _ (S : Service) (s3 : S3 S) (C : Codec) (tool : Str) (others : Others S.Bucket)
    (mutate : ℕ → Index → Result Index) (P : S.Bucket → Type 0) (keep : Keep P others)
    (refused : (b : S.Bucket) (s : Str) (c : Condition) (b' : S.Bucket) (e : ApiError)
      → S.put_object b (index_key tool) s c ≡ (b', failed e)
      → is_precondition_failed e ≡ true
      → P b
      → P b') where
  settled :
      (b' : S.Bucket) (x : S.Bucket × Api (Unit {0}))
      → x.0 ≡ b'
      → settle (put_answer x.1) ≡ conflict
      → (e : ApiError) × (x ≡ (b', failed e)) × (is_precondition_failed e ≡ true)
  unfolding settle
  settled b' (b, done u) same h = absurd (ground arith)
  settled b' (b, failed e) same h = elim (Bool-cases (is_precondition_failed e)) [
    | inl y ↦ (e, ground arith, y)
    | inr n ↦ absurd (ground arith)
  ]

  -- An attempt that ends in a conflict keeps the property.
  conflict_keeps :
      (n : ℕ) (b b' : S.Bucket) (r : Result (Index × Str))
      → P b
      → write_back S C others tool mutate n b r ≡ (b', conflict)
      → P b'
  unfolding write_back
  conflict_keeps n b b' (err e) p h = absurd (ground arith)
  conflict_keeps n b b' (ok (idx, etag)) p h = changed (mutate n idx) refl
    where
      changed : (m : Result Index) → mutate n idx ≡ m → P b'
      changed (err e) q = absurd (ground (arith, q))
      changed (ok idx') q = elim (Option-cases (C.marshal idx')) [
        | inl z ↦ absurd (unfold put_index settle in ground (arith, q, z))
        | inr (text, z) ↦
            let w = others.before_write n b in
            let (e, put, y) =
              settled b' (S.put_object w (index_key tool) text (condition_of etag))
                (unfold put_index in ground (arith, q, z))
                (unfold put_index in ground (arith, q, z)) in
            refused w text (condition_of etag) b' e put y (keep.on_write n b p)
      ]

  -- What an update ended with, at a bucket that has the property.
  abbrev pub IsKept : S.Bucket → Type 0
  IsKept b' = (c : Committed S s3 C tool mutate b') × P c.at_write

  next_round-IsKept :
      (n : ℕ) (b b' : S.Bucket) (f : S.Bucket → S.Bucket × Result (Unit {0}))
      (x : S.Bucket × Attempt)
      → attempt S C others tool mutate n b ≡ x
      → P b
      → ((c : S.Bucket) → P c → f c ≡ (b', ok tt) → IsKept b')
      → next_round f x ≡ (b', ok tt)
      → IsKept b'
  unfolding next_round attempt
  next_round-IsKept n b b' f (c, returned r) q p ih h =
      let (d, e) =
        attempt-Committed_at S s3 C tool others mutate n b b'
          (q ∙ ap (λ (y : S.Bucket × Result (Unit {0})). (y.0, returned y.1)) h) in
      (d, subst P (sym e) (keep.on_write n _ (keep.on_read n b p)))
  next_round-IsKept n b b' f (c, conflict) q p ih h =
      ih c (conflict_keeps n (others.before_read n b) c _ (keep.on_read n b p) q) h

  attempts-IsKept :
      (left n : ℕ) (b b' : S.Bucket)
      → P b
      → attempts S C others tool mutate left n b ≡ (b', ok tt)
      → IsKept b'
  unfolding attempts
  attempts-IsKept zero n b b' p h = absurd (ground arith)
  attempts-IsKept (suc left) n b b' p h =
      next_round-IsKept n b b' (attempts S C others tool mutate left (suc n)) _ refl p
        (λ c k. attempts-IsKept left (suc n) c b' k) h

  -- A successful update of a bucket with the property wrote to one that had it too.
  pub update_index-IsKept :
      (b b' : S.Bucket) → P b → update_index S C others tool mutate b ≡ (b', ok tt) → IsKept b'
  unfolding update_index
  update_index-IsKept b b' p h = attempts-IsKept max_attempts 0 b b' p h
