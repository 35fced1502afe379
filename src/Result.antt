-- ===== src/Result.antt =====
-- The errors of the program, and results that may be one. `panic` is a nil dereference or an index
-- out of range, which ends a goroutine.
use s3_registry.Prelude.{◌≡◌, ap, Option, none, some}
use s3_registry.Text.{Str}

pub data Error : Type 0 where
  panic : Error
  -- internal/semver
  no_versions no_parseable : Error
  invalid_constraint unsatisfied : Str → Error
  -- internal/index
  parse_index : Error
  version_not_found : Str → Error
  no_artifact : Str → Str → Error
  -- internal/store: ErrNotFound, ErrPreconditionFailed, and a wrapped error of the service
  not_found precondition_failed : Error
  service : Str → Error
  -- cmd/s3reg
  contention : Str → Error
  usage : Str → Error
  file_error : Str → Error
  checksum_missing checksum_mismatch : Str → Error
  malformed_checksum : Str → Error
  nothing_to_remove : Str → Str → Str → Error
  failed_verification : Error

pub data Result {ℓ} (A : Type ℓ) : Type ℓ where
  ok : A → Result A
  err : Error → Result A

-- The first error ends the chain.
infixl 5 ◌>>=◌
abbrev pub ◌>>=◌ {ℓ} : {A B : Type ℓ} → Result A → (A → Result B) → Result B
err failure >>= next = err failure
ok value >>= next = next value

-- An `Option` that must be there: nil panics.
abbrev pub must {ℓ} : {A : Type ℓ} → Option A → Result A
must none = err panic
must (some a) = ok a

pub ok_inj {ℓ} : {A : Type ℓ} {x y : A} → ok x ≡ ok y → x ≡ y
ok_inj {x = x} h = ap (λ (r : Result _). elim r [ ok z ↦ z | err e ↦ x ]) h
