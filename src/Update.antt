-- ===== src/Update.antt =====
-- updateIndex of cmd/s3reg/publish.go: the read-modify-write loop on a tool's index. What others do
-- to the bucket meanwhile is a pair of functions for each attempt, before its read and before its
-- write, and one for each object that the command uploads or deletes around the update; `mutate` at an attempt is the change at the time that its clock then shows.
pub mod Reading
pub mod Atomic
pub mod Relied
pub mod Progress
pub mod Interleaved
use s3_registry.Prelude.{ℕ, zero, suc, ◌+◌, List, []}
use s3_registry.Text.{Str}
use s3_registry.Result.{Error, Result, ok, err, panic, not_found, precondition_failed, contention}
use s3_registry.Index.{Index, new}
use s3_registry.Store.{Service, Codec, get_index, put_index}

pub record Others (Bucket : Type 0) : Type 0 where
  pub before_read : ℕ → Bucket → Bucket
  pub before_write : ℕ → Bucket → Bucket
  pub before_object : ℕ → Bucket → Bucket

-- An attempt returns from updateIndex or continues its loop.
pub data Attempt : Type 0 where
  returned : Result (Unit {0}) → Attempt
  conflict : Attempt

-- errors.Is(err, store.ErrNotFound)
unfoldable pub found_or_new : Str → Result (Index × Str) → Result (Index × Str)
found_or_new tool (ok r) = ok r
found_or_new tool (err not_found) = ok (new tool, [])
found_or_new tool (err e) = err e

-- errors.Is(err, store.ErrPreconditionFailed)
unfoldable pub settle : Result (Unit {0}) → Attempt
settle (ok u) = returned (ok u)
settle (err precondition_failed) = conflict
settle (err e) = returned (err e)

-- `continue` or `return err` at the end of a round
unfoldable pub next_round :
    {B : Type 0} → (B → B × Result (Unit {0})) → B × Attempt → B × Result (Unit {0})
next_round continue' (b, returned x) = (b, x)
next_round continue' (b, conflict) = continue' b

abbrev pub max_attempts : ℕ
max_attempts = 5

module _ (S : Service) (C : Codec) (others : Others S.Bucket) (tool : Str) where
  module _ (mutate : ℕ → Index → Result Index) where
    -- from `mutate(idx)` on
    unfoldable pub write_back : ℕ → S.Bucket → Result (Index × Str) → S.Bucket × Attempt
    unfolding settle
    write_back n b (err e) = (b, returned (err e))
    write_back n b (ok (idx, etag)) = elim (mutate n idx) [
      | err e ↦ (b, returned (err e))
      | ok idx' ↦
          let (b', r) = put_index S C tool idx' etag (others.before_write n b) in (b', settle r)
    ]

    -- one round of the loop
    unfoldable pub attempt : ℕ → S.Bucket → S.Bucket × Attempt
    unfolding write_back found_or_new
    attempt n b =
        let b0 = others.before_read n b in
        write_back n b0 (found_or_new tool (get_index S C tool b0))

    -- the loop, with the rounds left and the number of this one
    unfoldable pub attempts : ℕ → ℕ → S.Bucket → S.Bucket × Result (Unit {0})
    unfolding attempt next_round
    attempts zero n b = (b, err (contention tool))
    attempts (suc left) n b = next_round (attempts left (suc n)) (attempt n b)

    -- updateIndex
    unfoldable pub update_index : S.Bucket → S.Bucket × Result (Unit {0})
    unfolding attempts
    update_index b = attempts max_attempts 0 b
