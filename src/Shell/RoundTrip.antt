-- ===== src/Shell/RoundTrip.antt =====
-- Reading a pipeline that is written out.
use eltex_school.Base.{
  ℕ, zero, suc, ◌≡◌, ◌<◌, refl, ap, ap₂, ◌∙◌, List, [], ◌∷◌, ◌++◌, map, length, length-append,
  arith,
}
use eltex_school.Text.{Text, strtok}
use eltex_school.Text.Tokens.{Lacks, Lacks-append, Lacks-weaken, strtok-append, strtok-whole}
use eltex_school.Shell.{is_bar, trim, parse_pipeline, parse_command, max_args}
use eltex_school.Shell.Parse.{
  is_special, AllWords, AllCommands, show_command, show_pipeline, parse_args-show,
  length-show_command, trim-space, trim-command, trim-command_space, no_bar,
}

pub parse_pipeline-last :
    (n : ℕ) (x : Text) → Lacks is_bar x → 0 < length x → parse_pipeline (suc n) x ≡ trim x ∷ []
unfolding parse_pipeline strtok
parse_pipeline-last zero x a h = rw (strtok-whole is_bar x a h, parse_pipeline) refl
parse_pipeline-last (suc n) x a h = rw (strtok-whole is_bar x a h, parse_pipeline) refl

parse_pipeline-next :
    (n : ℕ) (x r : Text)
    → Lacks is_bar x
    → 0 < length x
    → parse_pipeline (suc n) (x ++ b'|' ∷ r) ≡ trim x ∷ parse_pipeline n r
unfolding parse_pipeline
parse_pipeline-next n x r a h = rw (strtok-append is_bar x b'|' r a h refl, parse_pipeline) refl

show_command-Lacks : (ws : List Text) → AllWords ws → Lacks is_bar (show_command ws)
unfolding show_command
show_command-Lacks [] a = tt
show_command-Lacks (w ∷ []) a = Lacks-weaken is_special is_bar w no_bar a.0.1
show_command-Lacks (w ∷ v ∷ ws) a =
    Lacks-append is_bar w (b' ' ∷ show_command (v ∷ ws))
      (Lacks-weaken is_special is_bar w no_bar a.0.1) (refl, show_command-Lacks (v ∷ ws) a.1)

-- Behind a bar stands a space.
parse_pipeline-show_behind :
    (n : ℕ) (c : List Text) (cs : List (List Text))
    → AllCommands (c ∷ cs)
    → length cs < n
    → parse_pipeline n (b' ' ∷ show_pipeline (c ∷ cs)) ≡ map show_command (c ∷ cs)
unfolding show_pipeline
parse_pipeline-show_behind zero c cs a h = elim h [ ]
parse_pipeline-show_behind (suc n) c [] a h =
    parse_pipeline-last n (b' ' ∷ show_command c) (refl, show_command-Lacks c a.0.2) (omega arith)
    ∙ ap (λ t. t ∷ []) (trim-space (show_command c) ∙ trim-command c a.0)
parse_pipeline-show_behind (suc n) c (d ∷ cs) a h =
    parse_pipeline-next n (b' ' ∷ (show_command c ++ b' ' ∷ [])) (b' ' ∷ show_pipeline (d ∷ cs))
      (
        refl,
        Lacks-append is_bar (show_command c) (b' ' ∷ []) (show_command-Lacks c a.0.2) (refl, tt),
      )
      (omega arith)
    ∙ ap₂ (λ (t : Text) (ts : List Text). t ∷ ts)
        (trim-space (show_command c ++ b' ' ∷ []) ∙ trim-command_space c a.0)
        (parse_pipeline-show_behind n d cs a.1 (omega (arith, h)))

parse_pipeline-show :
    (n : ℕ) (c : List Text) (cs : List (List Text))
    → AllCommands (c ∷ cs)
    → length cs < n
    → parse_pipeline n (show_pipeline (c ∷ cs)) ≡ map show_command (c ∷ cs)
unfolding show_pipeline
parse_pipeline-show zero c cs a h = elim h [ ]
parse_pipeline-show (suc n) c [] a h =
    parse_pipeline-last n (show_command c) (show_command-Lacks c a.0.2)
      (length-show_command c a.0.2 a.0.0)
    ∙ ap (λ t. t ∷ []) (trim-command c a.0)
parse_pipeline-show (suc n) c (d ∷ cs) a h =
    parse_pipeline-next n (show_command c ++ b' ' ∷ []) (b' ' ∷ show_pipeline (d ∷ cs))
      (Lacks-append is_bar (show_command c) (b' ' ∷ []) (show_command-Lacks c a.0.2) (refl, tt))
      (omega (arith, length-append (show_command c) (b' ' ∷ [])))
    ∙ ap₂ (λ (t : Text) (ts : List Text). t ∷ ts) (trim-command_space c a.0)
        (parse_pipeline-show_behind n d cs a.1 (omega (arith, h)))

commands_read :
    (cs : List (List Text)) → AllCommands cs → map parse_command (map show_command cs) ≡ cs
commands_read [] a = refl
commands_read (c ∷ cs) a =
    ap₂ (λ (x : List Text) (xs : List (List Text)). x ∷ xs) (parse_args-show 63 c a.0.2 a.0.1)
      (commands_read cs a.1)

-- One to 64 commands of one to 63 words each, whose words are not empty and hold no space, tab or
-- bar: written with a space between words and a bar between spaces between commands, they are read
-- back as they are.
pub pipeline_read :
    (c : List Text) (cs : List (List Text))
    → AllCommands (c ∷ cs)
    → length cs < max_args
    → map parse_command (parse_pipeline max_args (show_pipeline (c ∷ cs))) ≡ c ∷ cs
pipeline_read c cs a h =
    ap (map parse_command) (parse_pipeline-show 64 c cs a h) ∙ commands_read (c ∷ cs) a
