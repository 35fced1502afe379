-- ===== src/Tests/DistCases.antt =====
-- internal/store/dist.go at concrete file names.
use mathlib.Core.List.{Permᴰ}
use s3_registry.Prelude.{ℕ, ◌+◌, Option, List, [], ◌∷◌, ◌≡◌, true, false, refl, some, length, arith}
use s3_registry.Text.{Str, codes, ◌==◌, has_prefix}
use s3_registry.Text.Unicode.{Unicode, is_space}
use s3_registry.Result.{ok}
use s3_registry.Dist.{
  bounded_from, bounded_index, infer_os_arch, infer_in, os_tokens, parse_checksums,
}
use s3_registry.Dist.Span.{IsSpan, bounded_from-spans}
use s3_registry.Dist.Order.{infer_in-Permᴰ}
use s3_registry.Dist.Checksums.{Line, AllLines, render, checksums_of, parse_checksums-render}

abbrev ascii : Unicode
ascii = record { trim = λ s. s; fields = λ s. s ∷ []; to_lower = λ s. s }

archive :
    infer_os_arch ascii (codes "tool_1.2.3_Darwin_x86_64.tar.gz")
    ≡ some (codes "darwin", codes "amd64")
unfolding infer_os_arch ◌==◌
archive = refl

found : bounded_index (codes "window-win.zip") (codes "win") ≡ some 7
unfolding bounded_index ◌==◌
found = refl

bounded_from-spans_example :
    (r : Option ℕ) × (bounded_from
        (length (codes "window-win.zip") + 2)
        (codes "window-win.zip")
        (codes "win")
        0
      ≡ some r)
    × IsSpan (codes "window-win.zip") (codes "win") r
bounded_from-spans_example = bounded_from-spans (codes "window-win.zip") (codes "win") (λ e. cc)

-- the arch table with "x86_64" and "amd64" in the other order
abbrev turned : List (Str × Str)
turned =
    (codes "x86_64", codes "amd64")
    ∷ (codes "amd64", codes "amd64")
    ∷ (codes "x8664", codes "amd64")
    ∷ (codes "arm64", codes "arm64")
    ∷ (codes "aarch64", codes "arm64")
    ∷ []

same : (xs : List (Str × Str)) → Permᴰ xs xs
same [] = Permᴰ.nil
same (x ∷ xs) = Permᴰ.cons refl (same xs)

infer_in-Permᴰ_example :
    infer_in ascii os_tokens turned (codes "tool_Linux_x86_64.zip")
    ≡ infer_os_arch ascii (codes "tool_Linux_x86_64.zip")
infer_in-Permᴰ_example =
    infer_in-Permᴰ ascii os_tokens turned (codes "tool_Linux_x86_64.zip") (same os_tokens)
      (Permᴰ.swap refl refl)

abbrev lines : List Line
lines =
    record { hash = codes "AB12"; marked = true; dir = codes "dist/"; file = codes "tool.zip" }
    ∷ record { hash = codes "00ff"; marked = false; dir = []; file = codes "tool.tgz" }
    ∷ []

lines-AllLines : AllLines lines
unfolding is_space has_prefix
lines-AllLines = (
  record {
    hash_given = λ e. cc;
    path_given = λ e. cc;
    hash_word = refl;
    path_word = refl;
    no_comment = refl;
    fits = omega arith;
  },
  refl,
  refl,
  refl,
  (
    record {
      hash_given = λ e. cc;
      path_given = λ e. cc;
      hash_word = refl;
      path_word = refl;
      no_comment = refl;
      fits = omega arith;
    },
    refl,
    refl,
    refl,
    tt,
  ),
)

parse_checksums-render_example : parse_checksums ascii (render lines) ≡ ok (checksums_of lines [])
parse_checksums-render_example = parse_checksums-render ascii lines lines-AllLines
