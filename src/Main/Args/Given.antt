-- ===== src/Main/Args/Given.antt =====
-- The options with which the program touches no container, as they stand among the arguments.
use chaos_forger.Prelude.{
  ◌≡◌, refl, true, Bool-cases, List, [], ◌∷◌, ◌⊎◌, inl, inr, Bytes, text, same, same_iff, arith,
}
use chaos_forger.Main.Args.{
  Options, Flag, config, once, dry_run, discover, help, version, unknown, flag_of, Parsed, proceed,
  leave, parse_args, usage, printed_version, unknown_argument,
}

-- `-n`, `--dry-run`, `-d` or `--discover`.
abbrev pub IsHarmlessOption : Bytes → Type 0
IsHarmlessOption arg =
    ((arg ≡ text "-n") ⊎ (arg ≡ text "--dry-run")) ⊎ ((arg ≡ text "-d") ⊎ (arg ≡ text "--discover"))

abbrev pub TakesValue : Bytes → Type 0
TakesValue arg = (arg ≡ text "-c") ⊎ (arg ≡ text "--config")

-- Such an option stands among the arguments, other than as the value of `--config`.
abbrev pub HasHarmlessOption : List Bytes → Type 0
HasHarmlessOption [] = ⊥
HasHarmlessOption (arg ∷ []) = IsHarmlessOption arg
HasHarmlessOption (arg ∷ next ∷ more) =
    IsHarmlessOption arg
    ⊎ (((¬ TakesValue arg) × HasHarmlessOption (next ∷ more))
        ⊎ (TakesValue arg × HasHarmlessOption more))

-- What the two options set.
abbrev pub IsHarmless : Options → Type 0
IsHarmless o = (o.dry_run_flag ≡ true) ⊎ (o.discover_flag ≡ true)

-- The same of the arguments as they are parsed, if they are accepted.
abbrev pub ParsedHarmless : Parsed → Type 0
ParsedHarmless (leave why) = Unit
ParsedHarmless (proceed o) = IsHarmless o

flag_of-IsHarmlessOption :
    (arg : Bytes) → IsHarmlessOption arg → (flag_of arg ≡ dry_run) ⊎ (flag_of arg ≡ discover)
unfolding flag_of same text
flag_of-IsHarmlessOption arg (inl (inl e)) = rw e (inl refl)
flag_of-IsHarmlessOption arg (inl (inr e)) = rw e (inl refl)
flag_of-IsHarmlessOption arg (inr (inl e)) = rw e (inr refl)
flag_of-IsHarmlessOption arg (inr (inr e)) = rw e (inr refl)

flag_of-TakesValue : (arg : Bytes) → TakesValue arg → flag_of arg ≡ config
unfolding flag_of same text
flag_of-TakesValue arg (inl e) = rw e refl
flag_of-TakesValue arg (inr e) = rw e refl

TakesValue-flag_of : (arg : Bytes) → flag_of arg ≡ config → TakesValue arg
unfolding flag_of
TakesValue-flag_of arg h = elim (Bool-cases (same arg (text "-c"))) [
  | inl short ↦ inl ((same_iff arg (text "-c")).0 short)
  | inr other ↦ inr ((same_iff arg (text "--config")).0 (ground arith))
]

parse_args-kept :
    (args : List Bytes) (o : Options) → IsHarmless o → ParsedHarmless (parse_args args o)
unfolding parse_args
parse_args-kept [] o h = h
parse_args-kept (arg ∷ []) o h = ground arith
parse_args-kept (arg ∷ next ∷ more) o h =
    let by_config = parse_args-kept more (record o { config_path = next }) h in
    let by_once = parse_args-kept (next ∷ more) (record o { once = true }) h in
    let by_dry_run = parse_args-kept (next ∷ more) (record o { dry_run_flag = true }) (inl refl) in
    let by_discover =
      parse_args-kept (next ∷ more) (record o { discover_flag = true }) (inr refl) in
    ground (arith, by_config, by_once, by_dry_run, by_discover)

-- Behind an argument that takes no value the loop goes on with the next one, if it does.
pass_flag :
    (f : Flag) (skipped : Parsed) (next : Options → Parsed) (o : Options) (arg : Bytes)
    → ¬ (f ≡ config)
    → ((o' : Options) → ParsedHarmless (next o'))
    → ParsedHarmless (elim f [
      | config ↦ skipped
      | once ↦ next (record o { once = true })
      | dry_run ↦ next (record o { dry_run_flag = true })
      | discover ↦ next (record o { discover_flag = true })
      | help ↦ leave usage
      | version ↦ leave printed_version
      | unknown ↦ leave (unknown_argument arg)
    ])
pass_flag config skipped next o arg other h = absurd (other refl)
pass_flag once skipped next o arg other h = h _
pass_flag dry_run skipped next o arg other h = h _
pass_flag discover skipped next o arg other h = h _
pass_flag help skipped next o arg other h = tt
pass_flag version skipped next o arg other h = tt
pass_flag unknown skipped next o arg other h = tt

pub parse_args-HasHarmlessOption :
    (args : List Bytes) (o : Options) → HasHarmlessOption args → ParsedHarmless (parse_args args o)
unfolding parse_args
parse_args-HasHarmlessOption [] o h = absurd h
parse_args-HasHarmlessOption (arg ∷ []) o h = ground (arith, flag_of-IsHarmlessOption arg h)
parse_args-HasHarmlessOption (arg ∷ next ∷ more) o (inl h) =
    let by_dry_run = parse_args-kept (next ∷ more) (record o { dry_run_flag = true }) (inl refl) in
    let by_discover =
      parse_args-kept (next ∷ more) (record o { discover_flag = true }) (inr refl) in
    elim (flag_of-IsHarmlessOption arg h) [
      | inl e ↦ rw (e, ParsedHarmless) by_dry_run
      | inr e ↦ rw (e, ParsedHarmless) by_discover
    ]
parse_args-HasHarmlessOption (arg ∷ next ∷ more) o (inr (inl (other, h))) =
    pass_flag (flag_of arg) _ (parse_args (next ∷ more)) o arg
      (λ e. other (TakesValue-flag_of arg e))
      (λ o'. parse_args-HasHarmlessOption (next ∷ more) o' h)
parse_args-HasHarmlessOption (arg ∷ next ∷ more) o (inr (inr (value, h))) =
    rw (flag_of-TakesValue arg value, ParsedHarmless)
      (parse_args-HasHarmlessOption more (record o { config_path = next }) h)
