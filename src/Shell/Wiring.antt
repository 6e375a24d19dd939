-- ===== src/Shell/Wiring.antt =====
-- What the children of a pipeline are connected to.
use eltex_school.Base.{
  ℕ, zero, suc, ◌+◌, ◌-◌, ◌≡◌, ◌<◌, refl, ap, ap₂, sym, ◌∙◌, Bool, true, false, Option, none, some,
  List, [], ◌∷◌, ◌==◌, if◌then◌else◌, length, get_elem?, arith,
}
use eltex_school.Text.{Text}
use eltex_school.Shell.{
  End, terminal, read_end, write_end, close, close_prev, Child, child, from, Launched, launch,
  execute_pipeline, parse_command,
}

-- What the shell holds between two rounds: the reading end of the last pipe.
abbrev held : (prev_pipe : Option ℕ) → List End
held none = []
held (some p) = read_end p ∷ []

abbrev Before : (prev_pipe : Option ℕ) → ℕ → Type 0
Before none i = Unit {0}
Before (some p) i = p < i

close_prev-held : (prev : Option ℕ) → close_prev prev (held prev) ≡ []
unfolding close_prev close
close_prev-held none = refl
close_prev-held (some p) = ground arith

close_prev-opened :
    (prev : Option ℕ) (i : ℕ)
    → Before prev i
    → close_prev prev (read_end i ∷ write_end i ∷ held prev) ≡ read_end i ∷ write_end i ∷ []
unfolding close_prev close
close_prev-opened none i h = refl
close_prev-opened (some p) i h = ground (arith, h)

close_write : (i : ℕ) → close (write_end i) (read_end i ∷ write_end i ∷ []) ≡ read_end i ∷ []
unfolding close
close_write i = ground arith

close_both : (i : ℕ) → close (write_end i) (close (read_end i) (read_end i ∷ write_end i ∷ [])) ≡ []
unfolding close
close_both i = ground arith

-- The children that are meant, from round `i` on.
children_of : (i : ℕ) → (prev_pipe : Option ℕ) → (commands : List Text) → List Child
children_of i prev [] = []
children_of i prev (c ∷ []) =
    record { args = parse_command c; input = from prev; output = terminal; kept = [] } ∷ []
children_of i prev (c ∷ d ∷ cs) =
    record { args = parse_command c; input = from prev; output = write_end i; kept = [] }
    ∷ children_of (i + 1) (some i) (d ∷ cs)

module _ (pipe_ok fork_ok : ℕ → Bool) (pipes : (i : ℕ) → pipe_ok i ≡ true)
    (forks : (i : ℕ) → fork_ok i ≡ true) where
  launch-children_of :
      (i : ℕ) (prev : Option ℕ) (c : Text) (cs : List Text)
      → Before prev i
      → launch pipe_ok fork_ok i prev (held prev) (c ∷ cs) ≡ record {
        children = children_of i prev (c ∷ cs);
        kept = [];
        failed = false;
        waits = length (c ∷ cs);
      }
  unfolding launch child children_of
  launch-children_of i prev c [] h = rw (forks i, close_prev-held prev, launch) refl
  launch-children_of i prev c (d ∷ cs) h =
      rw
        (
          pipes i,
          forks i,
          close_prev-opened prev i h,
          close_write i,
          close_both i,
          launch-children_of (i + 1) (some i) d cs (omega arith),
          launch,
        )
        (ap
          (λ (n : ℕ). record {
            children = children_of i prev (c ∷ d ∷ cs);
            kept = [];
            failed = false;
            waits = n;
          })
          (omega arith))

length-children_of :
    (i : ℕ) (prev : Option ℕ) (cs : List Text) → length (children_of i prev cs) ≡ length cs
unfolding children_of
length-children_of i prev [] = refl
length-children_of i prev (c ∷ []) = refl
length-children_of i prev (c ∷ d ∷ cs) = ap suc (length-children_of (i + 1) (some i) (d ∷ cs))

-- The child `k` of `n` from round `i` on.
abbrev pub wired : (i : ℕ) → (first : End) → (k n : ℕ) → (cmd : Text) → Child
wired i first k n cmd = record {
  args = parse_command cmd;
  input = if k == 0 then first else read_end (i + k - 1);
  output = if k + 1 == n then terminal else write_end (i + k);
  kept = [];
}

abbrev with_ends : List Text → End → End → Child
with_ends a i o = record { args = a; input = i; output = o; kept = [] }

some_child :
    (a : List Text) (i o i' o' : End)
    → i ≡ i'
    → o ≡ o'
    → some (with_ends a i o) ≡ some (with_ends a i' o')
some_child a i o i' o' p q = ap₂ (λ (x y : End). some (with_ends a x y)) p q

children_of-get :
    (i : ℕ) (prev : Option ℕ) (cs : List Text) (k : ℕ) (cmd : Text)
    → get_elem? cs k ≡ some cmd
    → get_elem? (children_of i prev cs) k ≡ some (wired i (from prev) k (length cs) cmd)
unfolding children_of
children_of-get i prev [] k cmd e = absurd (ground (arith, e))
children_of-get i prev (c ∷ []) zero cmd e =
    ap (λ o. some (wired i (from prev) 0 1 o)) (ground (arith, e))
children_of-get i prev (c ∷ []) (suc k) cmd e = absurd (ground (arith, e))
children_of-get i prev (c ∷ d ∷ cs) zero cmd e =
    let same : c ≡ cmd = ground (arith, e) in
    rw same (some_child (parse_command cmd) (from prev) (write_end i) _ _ refl (ground arith))
children_of-get i prev (c ∷ d ∷ cs) (suc k) cmd e =
    children_of-get (i + 1) (some i) (d ∷ cs) k cmd e
    ∙ some_child (parse_command cmd) _ _ _ _ (ground arith) (ground arith)

-- If no `pipe` and no `fork` fails, a pipeline of any length is wired in its order: each command
-- has a child with its arguments, which reads from the pipe that the child before it writes to, the
-- first and the last one using the terminal; no child keeps another end of a pipe open, the shell
-- keeps none, and it waits for as many children as it started.
pub pipeline_wired :
    (pipe_ok fork_ok : ℕ → Bool) (c : Text) (cs : List Text)
    → ((i : ℕ) → pipe_ok i ≡ true)
    → ((i : ℕ) → fork_ok i ≡ true)
    → let r = execute_pipeline pipe_ok fork_ok (c ∷ cs) in
      (r.failed ≡ false)
      × (r.kept ≡ [])
      × (r.waits ≡ length r.children)
      × (length r.children ≡ length (c ∷ cs))
      × ((k : ℕ) (cmd : Text)
          → get_elem? (c ∷ cs) k ≡ some cmd
          → get_elem? r.children k ≡ some (wired 0 terminal k (length (c ∷ cs)) cmd))
unfolding execute_pipeline
pipeline_wired pipe_ok fork_ok c cs pipes forks =
    let e = launch-children_of pipe_ok fork_ok pipes forks 0 none c cs tt in
    let len = length-children_of 0 none (c ∷ cs) in
    (
      ap (λ (r : Launched). r.failed) e,
      ap (λ (r : Launched). r.kept) e,
      ap (λ (r : Launched). r.waits) e ∙ sym len ∙ sym (ap (λ (r : Launched). length r.children) e),
      ap (λ (r : Launched). length r.children) e ∙ len,
      λ k cmd h.
          ap (λ (r : Launched). get_elem? r.children k) e ∙ children_of-get 0 none (c ∷ cs) k cmd h,
    )
