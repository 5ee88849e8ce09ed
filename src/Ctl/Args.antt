-- ===== src/Ctl/Args.antt =====
-- The arguments of garwarpctl/src/main.rs that stand for each command.
use garwarp.Base.{
  Option, none, some, List, [], ◌∷◌, ◌≡◌, ◌≢◌, refl, ok, Text, codes, text_eq, text_eq-ne, is_empty,
  false,
}
use garwarp.Ipc.Target.{RequestTransitionTarget, awaiting_user, fulfilled, cancelled, failed}
use garwarp.Ipc.Target
use garwarp.Ipc.Response.{or_dash}
use garwarp.Ctl.{
  Command, status, stop, list, portal_smoke, version, help, inspect, begin, transition,
  parse_command, parse_transition_target, optional_value,
}

-- The arguments as `print_help` writes them, with a dash for what is not given.
abbrev pub args_of : Command → List Text
args_of status = codes "status" ∷ []
args_of stop = codes "stop" ∷ []
args_of list = codes "list" ∷ []
args_of portal_smoke = codes "portal-smoke" ∷ []
args_of version = codes "version" ∷ []
args_of help = codes "help" ∷ []
args_of (inspect id) = codes "inspect" ∷ id ∷ []
args_of (begin id sender app_id parent_window) =
    codes "begin" ∷ id ∷ sender ∷ or_dash app_id ∷ or_dash parent_window ∷ []
args_of (transition id sender app_id target) =
    codes "transition" ∷ id ∷ sender ∷ Target.as_str target ∷ or_dash app_id ∷ []

-- A value that is not the sign for none.
abbrev pub IsGiven : Option Text → Type 0
IsGiven none = Unit {0}
IsGiven (some value) = (value ≢ codes "-") × (is_empty value ≡ false)

abbrev pub AreGiven : Command → Type 0
AreGiven (begin id sender app_id parent_window) = IsGiven app_id × IsGiven parent_window
AreGiven (transition id sender app_id target) = IsGiven app_id
AreGiven _ = Unit {0}

optional_value-or_dash : (o : Option Text) → IsGiven o → optional_value (or_dash o) ≡ o
unfolding optional_value text_eq
optional_value-or_dash none h = refl
optional_value-or_dash (some value) h = rw (text_eq-ne h.0, h.1) refl

parse_transition_target-as_str :
    (t : RequestTransitionTarget) → parse_transition_target (Target.as_str t) ≡ ok t
unfolding parse_transition_target text_eq Target.as_str
parse_transition_target-as_str awaiting_user = refl
parse_transition_target-as_str fulfilled = refl
parse_transition_target-as_str cancelled = refl
parse_transition_target-as_str failed = refl

-- Every command can be given on the command line: its arguments, with a dash for each value that is
-- none, are parsed to it, unless a value is itself a dash or empty.
pub parse_command-args_of : (c : Command) → AreGiven c → parse_command (args_of c) ≡ ok c
unfolding parse_command text_eq
parse_command-args_of status h = refl
parse_command-args_of stop h = refl
parse_command-args_of list h = refl
parse_command-args_of portal_smoke h = refl
parse_command-args_of version h = refl
parse_command-args_of help h = refl
parse_command-args_of (inspect id) h = refl
parse_command-args_of (begin id sender app_id parent_window) h =
    rw (optional_value-or_dash app_id h.0, optional_value-or_dash parent_window h.1) refl
parse_command-args_of (transition id sender app_id target) h =
    rw (parse_transition_target-as_str target, optional_value-or_dash app_id h) refl
