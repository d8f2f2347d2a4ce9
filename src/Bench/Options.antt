-- ===== src/Bench/Options.antt =====
-- The command line of dee.cpp/tools/dee_bench.cpp.
use dee.Prelude.{
  ℕ, ◌-◌, ◌^◌, ◌<◌, ◌≡◌, refl, ◌∙◌, Bool, ◌||◌, Option, none, some, List, [], ◌∷◌, All, leb, ◌==◌,
  if◌then◌else◌,
}
use dee.Json.{Text, codes, text_eq}
use dee.Json.Print.{digits}
use dee.Checkpoint.{Result, gives, ◌>>=◌}
use dee.Checkpoint.Pickle.{atoi}
use dee.Checkpoint.Saved.{atoi-digits}

-- The options that take a number.
pub data Flag : Type 0 where
  layers : Flag
  experts : Flag
  hidden : Flag
  inter : Flag
  topk : Flag
  slots : Flag
  prompt : Flag
  max_new : Flag
  eos : Flag
  vocab : Flag

unfoldable pub name_of : Flag → Text
name_of layers = codes "--layers"
name_of experts = codes "--experts"
name_of hidden = codes "--hidden"
name_of inter = codes "--inter"
name_of topk = codes "--topk"
name_of slots = codes "--slots"
name_of prompt = codes "--prompt"
name_of max_new = codes "--max-new"
name_of eos = codes "--eos"
name_of vocab = codes "--vocab"

abbrev pub flags : List Flag
flags = layers ∷ experts ∷ hidden ∷ inter ∷ topk ∷ slots ∷ prompt ∷ max_new ∷ eos ∷ vocab ∷ []

-- The first of the options that has that name.
unfoldable pub flag_among : Text → List Flag → Option Flag
flag_among a [] = none
flag_among a (f ∷ fs) =
    let rest : Option Flag = flag_among a fs in if text_eq a (name_of f) then some f else rest

-- The variables of `main`, each an `int` by its pattern.
pub record Options : Type 0 where
  pub number : Flag → ℕ
  pub weights_dir : Text

abbrev pub default : Flag → ℕ
default layers = 4
default experts = 16
default hidden = 64
default inter = 128
default topk = 2
default slots = 32
default prompt = 1
default max_new = 64
default eos = 2 ^ 32 - 1
default vocab = 1000

abbrev pub same_flag : Flag → Flag → Bool
same_flag f g = text_eq (name_of f) (name_of g)

unfoldable pub set_number : Flag → ℕ → Options → Options
set_number f n o = record o { number = λ g. if same_flag g f then n else o.number g }

-- The loop over the arguments; `none` for a call of `usage` that ends the program. An option at the
-- end keeps its value, but for the directory.
unfoldable pub parse : List Text → Options → Result (Option Options)
parse [] o = gives (some o)
parse (a ∷ []) o = elim (flag_among a flags) [
  | some f ↦ gives (some o)
  | none ↦
      if text_eq a (codes "--weights-dir")
      then gives (some (record o { weights_dir = [] }))
      else gives none
]
parse (a ∷ v ∷ rest) o = elim (flag_among a flags) [
  | some f ↦ atoi v >>= λ n. parse rest (set_number f n o)
  | none ↦
      let directed : Result (Option Options) = parse rest (record o { weights_dir = v }) in
      if text_eq a (codes "--weights-dir") then directed else gives none
]

-- The beginning of `main`: also a `max_new` that is not positive ends the program.
unfoldable pub options : List Text → Result (Option Options)
options arguments = parse arguments (record { number = default; weights_dir = [] }) >>= λ parsed.
    gives (elim parsed [
      | none ↦ none
      | some o ↦ if (o.number max_new == 0) || leb (2 ^ 31) (o.number max_new) then none else some o
    ])

-- The arguments that give options their values.
unfoldable pub command_line : List (Flag × ℕ) → List Text
command_line [] = []
command_line ((f, n) ∷ fs) = name_of f ∷ digits 10 n ∷ command_line fs

unfoldable pub set_all : List (Flag × ℕ) → Options → Options
set_all [] o = o
set_all ((f, n) ∷ fs) o = set_all fs (set_number f n o)

flag_among-name_of : (f : Flag) → flag_among (name_of f) flags ≡ some f
unfolding flag_among name_of text_eq
flag_among-name_of layers = refl
flag_among-name_of experts = refl
flag_among-name_of hidden = refl
flag_among-name_of inter = refl
flag_among-name_of topk = refl
flag_among-name_of slots = refl
flag_among-name_of prompt = refl
flag_among-name_of max_new = refl
flag_among-name_of eos = refl
flag_among-name_of vocab = refl

parse_cons :
    (f : Flag) (n : ℕ) (rest : List Text) (o : Options)
    → n < 2 ^ 31
    → parse (name_of f ∷ digits 10 n ∷ rest) o ≡ parse rest (set_number f n o)
unfolding parse
parse_cons f n rest o h = rw (flag_among-name_of f, atoi-digits n h, parse) refl

-- Arguments that give options numbers below 2 ^ 31, in any order and also repeatedly, are all
-- accepted, and each option has its last value.
pub parse-command_line :
    (fs : List (Flag × ℕ)) (o : Options)
    → All (λ s. s.1 < 2 ^ 31) fs
    → parse (command_line fs) o ≡ gives (some (set_all fs o))
unfolding command_line set_all
parse-command_line [] o h = unfold parse in refl
parse-command_line ((f, n) ∷ fs) o h =
    parse_cons f n (command_line fs) o h.0 ∙ parse-command_line fs (set_number f n o) h.1
