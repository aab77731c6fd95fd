-- ===== src/Main/Args.antt =====
-- `Args` of src/main.rs.
use rust_supervisor_relay.Base.{
  ◌≡◌, refl, Bool, true, false, Option, none, some, String, ◌<>◌, List, [], ◌∷◌, In, ◌⊎◌, inl, inr,
  ◌==◌, if◌then◌else◌, arith, Bool-cases, Option-cases, eq_iff, subst,
}
use rust_supervisor_relay.Error.{
  RelayError, RelayResult, ok, err, new, ok_or, RelayResult-cases, ◌>>=◌,
}

pub record Args : Type 0 where
  pub config_path : String
  pub check_only : Bool

abbrev path_missing : RelayError
path_missing = new "missing_config_arg" "args" none "--config requires a path" false

abbrev config_missing : RelayError
config_missing = new "missing_config_arg" "args" none "--config is required" false

abbrev unknown_arg : String → RelayError
unknown_arg other = new "unknown_arg" "args" none ("unknown argument: " <> other) false

-- The loop over the arguments from an index on, with the options found so far.
unfoldable pub parse_loop : Option String → Bool → List String → RelayResult (Option String × Bool)
parse_loop config_path check_only [] = ok (config_path, check_only)
parse_loop config_path check_only (arg ∷ []) =
    if arg == "--config"
    then err path_missing
    else if arg == "--check"
    then ok (config_path, true)
    else err (unknown_arg arg)
parse_loop config_path check_only (arg ∷ value ∷ args) =
    let after_config = parse_loop (some value) check_only args in
    let after_check = parse_loop config_path true (value ∷ args) in
    if arg == "--config"
    then after_config
    else if arg == "--check"
    then after_check
    else err (unknown_arg arg)

-- `Args::parse`
unfoldable pub parse : List String → RelayResult Args
unfolding parse_loop
parse args = do
  (found, check_only) ← parse_loop none false args
  config_path ← ok_or found config_missing
  ok (record { config_path = config_path; check_only = check_only })

-- The command line that stands for the arguments.
abbrev pub command_line : String → Bool → List String
command_line config_path check_only =
    "--config" ∷ config_path ∷ (if check_only then "--check" ∷ [] else [])

-- A command line made for some arguments is parsed back to them.
pub parse-command_line :
    (config_path : String) (check_only : Bool)
    → parse (command_line config_path check_only)
      ≡ ok (record { config_path = config_path; check_only = check_only })
unfolding parse
parse-command_line config_path true = refl
parse-command_line config_path false = refl

parse_loop-In :
    (found : Option String) (check_only : Bool) (args : List String)
    → (path : String) (checked : Bool) → parse_loop found check_only args ≡ ok (some path, checked)
    → ((found ≡ some path) ⊎ In path args)
      × ((checked ≡ true) → (check_only ≡ true) ⊎ In "--check" args)
unfolding parse_loop
parse_loop-In found check_only [] path checked h = (inl (ground arith), λ c. inl (ground arith))
parse_loop-In found check_only (arg ∷ []) path checked h = elim (Bool-cases (arg == "--config")) [
  | inl c ↦ absurd (ground arith)
  | inr c ↦ elim (Bool-cases (arg == "--check")) [
    | inl k ↦ (inl (ground arith), λ _. inr (inl ((eq_iff arg "--check").0 k)))
    | inr k ↦ absurd (ground arith)
  ]
]
parse_loop-In found check_only (arg ∷ value ∷ args) path checked h =
    elim (Bool-cases (arg == "--config")) [
      | inl c ↦
          let (p, k) = parse_loop-In (some value) check_only args path checked (ground arith) in
          (
            elim p [ inl e ↦ inr (inr (inl (ground arith))) | inr m ↦ inr (inr (inr m)) ],
            λ c. elim (k c) [ inl e ↦ inl e | inr m ↦ inr (inr (inr m)) ],
          )
      | inr c ↦ elim (Bool-cases (arg == "--check")) [
        | inl k ↦
            let (p, q) = parse_loop-In found true (value ∷ args) path checked (ground arith) in
            (
              elim p [ inl e ↦ inl e | inr m ↦ inr (inr m) ],
              λ c. inr (inl ((eq_iff arg "--check").0 k)),
            )
        | inr k ↦ absurd (ground arith)
      ]
    ]

-- The path and the check flag that are found were given: the path is one of the arguments, and the
-- flag is set only where `--check` is one.
pub parse-In :
    (args : List String) (a : Args)
    → parse args ≡ ok a
    → In a.config_path args × ((a.check_only ≡ false) ⊎ In "--check" args)
unfolding parse
parse-In args a h = elim (RelayResult-cases (parse_loop none false args)) [
  | inr (inl (e, q)) ↦ absurd (ground arith)
  | inr (inr q) ↦ absurd (ground arith)
  | inl ((found, checked), q) ↦ elim (Option-cases found) [
    | inl n ↦ absurd (ground arith)
    | inr (path, n) ↦
        let (p, k) = parse_loop-In none false args path checked (ground arith) in
        (
          elim p [
            | inl e ↦ absurd (ground arith)
            | inr m ↦ subst (λ x. In x args) (ground arith) m
          ],
          elim (Bool-cases checked) [
            | inr c ↦ inl (ground arith)
            | inl c ↦ elim (k c) [ inl e ↦ absurd (ground arith) | inr m ↦ inr m ]
          ],
        )
  ]
]
