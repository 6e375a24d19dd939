-- ===== src/Shell/Tests.antt =====
-- The theorems of the shell at concrete lines.
use eltex_school.Base.{
  ℕ, ◌≡◌, refl, true, false, some, List, [], ◌∷◌, arith, map, length, get_elem?, Bool,
}
use eltex_school.Text.{Text, codes, strtok}
use eltex_school.Shell.{
  terminal, Request, parse_pipeline, parse_command, max_args, execute_pipeline, main, parse_args,
}
use eltex_school.Shell.Parse.{show_pipeline}
use eltex_school.Shell.RoundTrip.{pipeline_read}
use eltex_school.Shell.Wiring.{wired, pipeline_wired}
use eltex_school.Shell.Loop.{main_ends}

abbrev listing : List Text
listing = codes "ls" ∷ codes "-l" ∷ []

abbrev counting : List Text
counting = codes "wc" ∷ []

pipeline_read_example :
    map parse_command (parse_pipeline max_args (show_pipeline (listing ∷ counting ∷ [])))
    ≡ listing ∷ counting ∷ []
pipeline_read_example =
    pipeline_read listing (counting ∷ [])
      (
        (
          omega arith,
          omega arith,
          ((omega arith, (refl, (refl, tt))), ((omega arith, (refl, (refl, tt))), tt)),
        ),
        ((omega arith, omega arith, ((omega arith, (refl, (refl, tt))), tt)), tt),
      )
      (omega arith)

-- Bars with nothing but spaces between them are a command with no words.
spaces_read :
    map parse_command (parse_pipeline max_args (codes " a |  | b\tc"))
    ≡ (codes "a" ∷ []) ∷ [] ∷ (codes "b" ∷ codes "c" ∷ []) ∷ []
unfolding parse_pipeline parse_args strtok
spaces_read = refl

abbrev always : ℕ → Bool
always i = true

pipeline_wired_example :
    let r = execute_pipeline always always (codes "ls -l" ∷ codes "sort" ∷ codes "wc" ∷ []) in
    (r.failed ≡ false)
    × (r.kept ≡ [])
    × (r.waits ≡ length r.children)
    × (length r.children ≡ 3)
    × ((k : ℕ) (cmd : Text)
        → get_elem? (codes "ls -l" ∷ codes "sort" ∷ codes "wc" ∷ []) k ≡ some cmd
        → get_elem? r.children k ≡ some (wired 0 terminal k 3 cmd))
pipeline_wired_example =
    pipeline_wired always always (codes "ls -l") (codes "sort" ∷ codes "wc" ∷ []) (λ i. refl)
      (λ i. refl)

main_ends_example : (out : List Request) × (main 9 (codes "ls\n\nexit") ≡ some out)
main_ends_example = main_ends 9 (codes "ls\n\nexit") (omega arith)
