-- ===== src/Router/SetUp/Faults/Arguments.antt =====
-- The options of the build with faults.
use study_c.Prelude.{Bool, true, false, List, [], ◌∷◌, ◌||◌, ◌≡◌, refl, arith, Bytes, ap, ◌∙◌}
use study_c.Router.MainLoop.{Arrival}
use study_c.Router.SetUp.{Answers}
use study_c.Router.SetUp.Faults.{
  Options, no_options, go, Argument, leak, use_after_free, race, help, unknown, argument,
  parse_options, program, faulty_main, FaultAnswers, started,
}

abbrev pub is_leak : Argument → Bool
is_leak leak = true
is_leak _ = false

abbrev pub is_use_after_free : Argument → Bool
is_use_after_free use_after_free = true
is_use_after_free _ = false

abbrev pub is_race : Argument → Bool
is_race race = true
is_race _ = false

abbrev pub stops : Argument → Bool
stops help = true
stops unknown = true
stops _ = false

-- No argument asks for the usage or is unknown.
abbrev pub AllOptions : List Bytes → Type 0
AllOptions [] = Unit {0}
AllOptions (arg ∷ args) = stops (argument arg) ≡ false × AllOptions args

abbrev pub some_is : (Argument → Bool) → List Bytes → Bool
some_is p [] = false
some_is p (arg ∷ args) = p (argument arg) || some_is p args

-- The options that are set before the arguments or by one of them.
abbrev pub joined : Options → List Bytes → Options
joined o args = record {
  fail_leak = o.fail_leak || some_is is_leak args;
  fail_use_after_free = o.fail_use_after_free || some_is is_use_after_free args;
  fail_race = o.fail_race || some_is is_race args;
}

parse_options_next :
    (arg : Bytes) (args : List Bytes) (o : Options) (x : Argument)
    → argument arg ≡ x
    → stops x ≡ false
    → ((p : Options) → parse_options args p ≡ go (joined p args))
    → parse_options (arg ∷ args) o ≡ go (joined o (arg ∷ args))
unfolding parse_options
parse_options_next arg args o leak e h ih = ground (arith, ih (record o { fail_leak = true }))
parse_options_next arg args o use_after_free e h ih =
    ground (arith, ih (record o { fail_use_after_free = true }))
parse_options_next arg args o race e h ih = ground (arith, ih (record o { fail_race = true }))
parse_options_next arg args o help e h ih = cc
parse_options_next arg args o unknown e h ih = cc

pub parse_options-go :
    (args : List Bytes)
    → AllOptions args
    → (o : Options) → parse_options args o ≡ go (joined o args)
unfolding parse_options
parse_options-go [] h o = ground arith
parse_options-go (arg ∷ args) h o =
    parse_options_next arg args o (argument arg) refl h.0 (parse_options-go args h.1)

-- The program with such arguments, of which the options are known.
pub program_go :
    (args : List Bytes) (o : Options) (f : FaultAnswers) (a : Answers) (arrivals : List Arrival)
    → AllOptions args
    → joined no_options args ≡ o
    → program args f a arrivals ≡ faulty_main o f a arrivals
unfolding program
program_go args o f a arrivals h e =
    ap (started f a arrivals) (parse_options-go args h no_options ∙ ap go e)
