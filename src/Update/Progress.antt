-- ===== src/Update/Progress.antt =====
-- updateIndex of cmd/s3reg/publish.go at a service that answers: attempts that nobody disturbs.
use s3_registry.Prelude.{
  ℕ, zero, suc, ◌+◌, ◌≤◌, ◌<◌, ◌≡◌, refl, sym, subst, ◌∙◌, Option, some, [], ◌⊎◌, inl, inr,
  Option-cases, arith,
}
use s3_registry.Text.{Str}
use s3_registry.Result.{Result, ok}
use s3_registry.Index.{Index}
use s3_registry.Store.{
  Service, Codec, ApiError, failed, Condition, index_key, read_index, get_index, put_index,
  condition_of,
}
use s3_registry.Store.Laws.{Stored, S3, IsUp, Holds, index_in}
use s3_registry.Update.{
  Others, returned, conflict, found_or_new, settle, write_back, attempt, attempts, next_round,
  update_index, max_attempts,
}
use s3_registry.Update.Reading.{ReadFrom, none_read, some_read}

passed : (n m : ℕ) → n ≤ m → ¬ (n ≡ m) → suc n ≤ m
passed n m h d = omega arith

module _ (S : Service) (s3 : S3 S) (up : IsUp S s3) (C : Codec) (tool : Str) where
  abbrev held : S.Bucket → Option Stored
  held b = s3.content b (index_key tool)

  -- An unchanged object meets the condition of the write.
  Holds-unchanged :
      (b w : S.Bucket) (idx : Index) (etag : Str)
      → ReadFrom S s3 C tool b idx etag
      → held w ≡ held b
      → Holds (condition_of etag) (held w)
  Holds-unchanged b w idx etag (inl (gone, e, i)) h = rw (none_read etag e) (h ∙ gone)
  Holds-unchanged b w idx etag (inr (o, is, e, l)) h =
      rw (some_read etag o.etag e (s3.etag_nonempty b (index_key tool) o is), h, is) refl

  -- A readable index is read.
  read_lem :
      (b : S.Bucket) (idx : Index)
      → index_in C tool (held b) ≡ ok idx
      → (etag : Str) × (found_or_new tool (get_index S C tool b) ≡ ok (idx, etag))
        × ReadFrom S s3 C tool b idx etag
  unfolding get_index read_index found_or_new
  read_lem b idx h = elim (Option-cases (held b)) [
    | inl e ↦
        let (x, g, y) = up.misses b (index_key tool) e in
        ([], ground (arith, g, y, e), inl (e, refl, ground (arith, e)))
    | inr (o, e) ↦ (
      o.etag,
      ground (arith, (up.reads b (index_key tool) o e).1, e),
      inr (o, e, refl, ground (arith, e)),
    )
  ]

  -- Some predicate on the buckets that are met, which others keep, as does a refused write, makes the
  -- index one that can be read, changed at each attempt and encoded then.
  pub record CanUpdate (others : Others S.Bucket) (mutate : ℕ → Index → Result Index)
      (P : S.Bucket → Type 0) : Type 0 where
    pub on_read : (n : ℕ) (b : S.Bucket) → P b → P (others.before_read n b)
    pub on_write : (n : ℕ) (b : S.Bucket) → P b → P (others.before_write n b)
    pub refused :
        (b b' : S.Bucket) (text : Str) (c : Condition) (e : ApiError)
        → P b
        → S.put_object b (index_key tool) text c ≡ (b', failed e)
        → P b'
    pub changes :
        (n : ℕ) (b : S.Bucket)
        → P b
        → (i : Index) × (j : Index) × (text : Str) × (index_in C tool (held b) ≡ ok i)
          × (mutate n i ≡ ok j)
          × (C.marshal j ≡ some text)

  module _ (others : Others S.Bucket) (mutate : ℕ → Index → Result Index) (P : S.Bucket → Type 0)
      (can : CanUpdate others mutate P) where
    -- Nobody changes the index between the read and the write of an attempt.
    abbrev pub IsQuiet : ℕ → Type 0
    IsQuiet n = (b : S.Bucket) → P b → held (others.before_write n b) ≡ held b

    attempt_lem :
        (n : ℕ) (b : S.Bucket)
        → P b
        → ((b' : S.Bucket) × (attempt S C others tool mutate n b ≡ (b', returned (ok tt))))
          ⊎ ((b' : S.Bucket) × (attempt S C others tool mutate n b ≡ (b', conflict))
              × P b'
              × (¬ IsQuiet n))
    unfolding attempt write_back put_index settle
    attempt_lem n b p0 =
        let b0 = others.before_read n b in
        let w = others.before_write n b0 in
        let (idx, idx', text, i, m, t) = can.changes n b0 (can.on_read n b p0) in
        let (etag, r, from) = read_lem b0 idx i in
        elim (up.answers w (index_key tool) text (condition_of etag)) [
          | inl (b', p) ↦ inl (b', ground (arith, r, m, t, p))
          | inr (b', e, p, f, no_match) ↦ inr (
            b',
            ground (arith, r, m, t, p, f),
            can.refused w b' text (condition_of etag) e (can.on_write n b0 (can.on_read n b p0)) p,
            λ q. no_match (Holds-unchanged b0 w idx etag from (q b0 (can.on_read n b p0))),
          )
        ]

    attempts_lem :
        (left n m : ℕ) (b : S.Bucket)
        → P b
        → n ≤ m
        → m < n + left
        → IsQuiet m
        → (b' : S.Bucket) × (attempts S C others tool mutate left n b ≡ (b', ok tt))
    unfolding attempts next_round
    attempts_lem zero n m b p0 low high quiet = absurd (omega arith)
    attempts_lem (suc left) n m b p0 low high quiet = elim (attempt_lem n b p0) [
      | inl (b', p) ↦ (b', rw p refl)
      | inr (b', p, p1, disturbed) ↦
          let later =
            attempts_lem left (suc n) m b' p1
              (passed n m low (λ e. disturbed (subst IsQuiet (sym e) quiet))) (omega arith) quiet in
          (later.0, rw p later.1)
    ]

    -- At a service that answers, where the index of each bucket that is met can be read, changed and
    -- encoded, updateIndex succeeds if in one of its five attempts nobody changes the index between the read and the
    -- write.
    pub update_index-progress :
        (m : ℕ) (b : S.Bucket)
        → P b
        → m < max_attempts
        → IsQuiet m
        → (b' : S.Bucket) × (update_index S C others tool mutate b ≡ (b', ok tt))
    unfolding update_index
    update_index-progress m b p0 h quiet =
        attempts_lem max_attempts 0 m b p0 (omega arith) (omega arith) quiet
