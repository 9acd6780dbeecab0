-- ===== src/Capture/Classify.antt =====
-- capture_bridge/classify.py: a text is given one of the allowed types. A process that is run either
-- raises, or ends with its exit code and its output. Of an exit code only whether it is 0 is read.
use islands_kernel.Base.{
  ℕ, String, ◌<>◌, Bool, true, false, ◌&&◌, ◌||◌, Option, none, some, List, [], ◌∷◌, leb,
  if◌then◌else◌,
}
use islands_kernel.Base.Dict.{find}
use islands_kernel.Bus.TypeMatch.{codes, same_code}

pub record Finished : Type 0 where
  pub returncode : ℕ
  pub stdout : String

-- `subprocess.run`, on arguments and an input; `none` where it raises.
abbrev pub Run : Type 0 → Type 0
Run World = List String → String → World → Option Finished × World

-- A runner of the classifier: the binary and the prompt to its output; `none` where it raises.
abbrev pub Runner : Type 0 → Type 0
Runner World = String → String → World → Option String × World

abbrev pub unclassifiable : String
unclassifiable = "unclassifiable"

-- The output of a process that ended with 0; with another exit code, the runner raises.
unfoldable pub output_of : Option Finished → Option String
output_of none = none
output_of (some proc) = if same_code proc.returncode 0 then some proc.stdout else none

unfoldable pub default_runner : {World : Type 0} → Run World → Runner World
unfolding output_of
default_runner run bin prompt world =
    let (proc, after) = run (bin ∷ "--print" ∷ []) prompt world in (output_of proc, after)

-- `" | ".join(allowed_types)`
unfoldable pub join_types : List String → String
join_types [] = ""
join_types (t ∷ []) = t
join_types (t ∷ u ∷ ts) = t <> (" | " <> join_types (u ∷ ts))

unfoldable pub build_prompt : String → List String → String
unfolding join_types
build_prompt text allowed_types =
    "You classify a captured note into exactly one routing type.\nOutput ONLY the single type string, nothing else — no prose, no quotes.\nAllowed types: "
    <> (join_types allowed_types <> ("\n\nNote:\n" <> (text <> "\n\nRespond with one type now.")))

abbrev between : ℕ → ℕ → ℕ → Bool
between a b c = leb a c && leb c b

-- `c.isspace()`, which `strip` removes.
unfoldable pub is_space : ℕ → Bool
is_space c =
    between 9 13 c
    || (between 28 32 c
        || (same_code c 133
            || (same_code c 160
                || (same_code c 5760
                    || (between 8192 8202 c
                        || (between 8232 8233 c
                            || (same_code c 8239 || (same_code c 8287 || same_code c 12288))))))))

-- Where `splitlines` ends a line.
unfoldable pub is_line_end : ℕ → Bool
is_line_end c = between 10 13 c || (between 28 30 c || (same_code c 133 || between 8232 8233 c))

unfoldable pub strip_left : List ℕ → List ℕ
strip_left [] = []
strip_left (c ∷ cs) = let rest = strip_left cs in if is_space c then rest else c ∷ cs

unfoldable pub strip_right : List ℕ → List ℕ
strip_right [] = []
strip_right (c ∷ cs) = elim (strip_right cs) [
  | [] ↦ if is_space c then [] else c ∷ []
  | d ∷ ds ↦ c ∷ d ∷ ds
]

-- `s.strip()`
unfoldable pub strip : List ℕ → List ℕ
unfolding strip_left strip_right
strip cs = strip_right (strip_left cs)

-- `s.splitlines()[0]` of a text that has a line, and the empty text for the empty text.
unfoldable pub first_line : List ℕ → List ℕ
first_line [] = []
first_line (c ∷ cs) = let rest = first_line cs in if is_line_end c then [] else c ∷ rest

abbrev pub same_codes : List ℕ → List ℕ → Bool
same_codes [] [] = true
same_codes [] (d ∷ ds) = false
same_codes (c ∷ cs) [] = false
same_codes (c ∷ cs) (d ∷ ds) = same_code c d && same_codes cs ds

-- `answer`, as code points
unfoldable pub answer_of : String → List ℕ
unfolding strip first_line
answer_of raw = strip (first_line (strip (codes raw)))

-- `answer if answer in allowed_types else UNCLASSIFIABLE`
unfoldable pub choose_type : List String → String → String
unfolding answer_of
choose_type allowed_types raw =
    elim (find (λ t. same_codes (answer_of raw) (codes t)) allowed_types) [
      | none ↦ unclassifiable
      | some t ↦ t
    ]

-- `runner` is the one given, or `default_runner`.
unfoldable pub classify :
    {World : Type 0} → Runner World → String → List String → String → World → String × World
unfolding choose_type build_prompt
classify runner text allowed_types claude_bin world =
    let (raw, after) = runner claude_bin (build_prompt text allowed_types) world in
    (elim raw [ none ↦ unclassifiable | some out ↦ choose_type allowed_types out ], after)
