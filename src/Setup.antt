-- ===== src/Setup.antt =====
-- The set-up of a function's triggers (custom_components/pyscript/eval.py, `EvalFunc.trigger_init`):
-- the checks of the decorators' arguments, and how the decorators are handed out to triggers.
mod HandedOut
mod Tests
use pyscript.Base.{
  ℕ, zero, suc, String, ◌==◌, nat_key, string_key, Bool, true, false, not, ◌&&◌, ◌||◌, Option, none,
  some, List, [], ◌∷◌, ◌++◌, if◌then◌else◌, is_some,
}
use pyscript.Base.Dict.{Dict, get, put, has}
use pyscript.Base.Lists.{length, is_empty, all, contains}
use pyscript.Base.Result.{Result, ok, err, syntax_error, type_error, index_error, then_try}

-- `type(value).__name__`, of the values that the checks tell apart
pub data Kind : Type 0 where
  none_kind dict_kind str_kind bool_kind int_kind float_kind list_kind set_kind other_kind : Kind

abbrev pub same_kind : Kind → Kind → Bool
same_kind none_kind none_kind = true
same_kind dict_kind dict_kind = true
same_kind str_kind str_kind = true
same_kind bool_kind bool_kind = true
same_kind int_kind int_kind = true
same_kind float_kind float_kind = true
same_kind list_kind list_kind = true
same_kind set_kind set_kind = true
same_kind other_kind other_kind = true
same_kind a b = false

abbrev pub in_kinds : Kind → List Kind → Bool
in_kinds k [] = false
in_kinds k (l ∷ kinds) = same_kind k l || in_kinds k kinds

-- an argument: its type, and for a list or a set whether all of it is text
pub record Arg : Type 0 where
  pub kind : Kind
  pub all_text : Bool

-- a decorator: its name, its arguments, none where it is not called, and its keywords
pub record Decorator : Type 0 where
  pub name : String
  pub args : Option (List Arg)
  pub kwargs : Option (Dict String Kind)

-- `arg_check`: the numbers of arguments, where `any_number` stands for "*"
pub record ArgInfo : Type 0 where
  pub any_number : Bool
  pub arg_cnt : List ℕ
  pub lists_ok : Bool
  pub rep_ok : Bool

abbrev pub info : Bool → List ℕ → Bool → Bool → ArgInfo
info any_number arg_cnt lists_ok rep_ok = record {
  any_number = any_number;
  arg_cnt = arg_cnt;
  lists_ok = lists_ok;
  rep_ok = rep_ok;
}

abbrev pub arg_check : Dict String ArgInfo
arg_check =
    ("event_trigger", info false (1 ∷ 2 ∷ 3 ∷ []) false true)
    ∷ ("mqtt_trigger", info false (1 ∷ 2 ∷ 3 ∷ []) false true)
    ∷ ("state_active", info false (1 ∷ []) false false)
    ∷ ("state_trigger", info true [] true true)
    ∷ ("service", info true (0 ∷ []) false false)
    ∷ ("task_unique", info false (1 ∷ []) false false)
    ∷ ("time_active", info true [] false false)
    ∷ ("time_trigger", info true (0 ∷ []) false true)
    ∷ ("webhook_trigger", info false (1 ∷ 2 ∷ []) false true)
    ∷ []

abbrev pub kwarg_check : Dict String (Dict String (List Kind))
kwarg_check =
    ("event_trigger", ("kwargs", dict_kind ∷ []) ∷ [])
    ∷ ("mqtt_trigger", ("kwargs", dict_kind ∷ []) ∷ ("encoding", str_kind ∷ []) ∷ [])
    ∷ ("time_trigger", ("kwargs", dict_kind ∷ []) ∷ [])
    ∷ ("task_unique", ("kill_me", bool_kind ∷ int_kind ∷ []) ∷ [])
    ∷ ("time_active", ("hold_off", int_kind ∷ float_kind ∷ []) ∷ [])
    ∷ ("service", ("supports_response", str_kind ∷ []) ∷ [])
    ∷ (
      "state_trigger",
      ("kwargs", dict_kind ∷ [])
          ∷ ("state_hold", int_kind ∷ float_kind ∷ [])
          ∷ ("state_check_now", bool_kind ∷ int_kind ∷ [])
          ∷ ("state_hold_false", int_kind ∷ float_kind ∷ [])
          ∷ ("watch", set_kind ∷ list_kind ∷ [])
          ∷ [],
    )
    ∷ (
      "webhook_trigger",
      ("kwargs", dict_kind ∷ [])
          ∷ ("local_only", bool_kind ∷ [])
          ∷ ("methods", list_kind ∷ set_kind ∷ [])
          ∷ [],
    )
    ∷ []

abbrev pub trig_decorators_reqd : List String
trig_decorators_reqd =
    "event_trigger" ∷ "mqtt_trigger" ∷ "state_trigger" ∷ "time_trigger" ∷ "webhook_trigger" ∷ []

abbrev pub arg_ok : ArgInfo → Arg → Bool
arg_ok i a =
    same_kind a.kind str_kind
    || (i.lists_ok && (same_kind a.kind list_kind || same_kind a.kind set_kind) && a.all_text)

abbrev pub count_ok : ArgInfo → ℕ → Bool
count_ok i n = i.any_number || contains i.arg_cnt n

-- whether `arg_cnt == {1}`, where the argument is taken out of its list
abbrev pub takes_one : ArgInfo → Bool
takes_one i = not i.any_number && length i.arg_cnt == 1

abbrev pub check_args : ArgInfo → Option (List Arg) → Result Bool
check_args i none = if contains i.arg_cnt 0 then ok true else err type_error
check_args i (some []) = if takes_one i then err index_error else ok true
check_args i (some (a ∷ args)) =
    if count_ok i (length (a ∷ args)) && all (arg_ok i) (a ∷ args) then ok true else err type_error

abbrev pub value_ok : Option (List Kind) → Kind → Bool
value_ok none k = false
value_ok (some kinds) k = same_kind k none_kind || in_kinds k kinds

abbrev pub check_keywords :
    Option (Dict String (List Kind)) → Option (Dict String Kind) → Result Bool
check_keywords none none = ok true
check_keywords none (some kwargs) = err type_error
check_keywords (some allowed) none = ok true
check_keywords (some allowed) (some kwargs) =
    if all (λ kv. value_ok (get allowed kv.0) kv.1) kwargs then ok true else err type_error

-- the decorators by their names, as far as the loop over them has come
abbrev pub Decs : Type 0
Decs = Dict String (List Decorator)

abbrev pub listed : Option (List Decorator) → List Decorator
listed none = []
listed (some l) = l

-- a service is registered, and all others are kept for the triggers
abbrev pub add_decorator : ArgInfo → Decorator → Decs → Result Decs
add_decorator i d trig_decs =
    if d.name == "service"
    then ok trig_decs
    else if not (is_empty (listed (get trig_decs d.name))) && not i.rep_ok
    then err syntax_error
    else ok (put trig_decs d.name (listed (get trig_decs d.name) ++ d ∷ []))

abbrev pub checked : Option ArgInfo → Decorator → Decs → Result Decs
checked none d trig_decs = err syntax_error
checked (some i) d trig_decs = then_try (check_args i d.args) (λ a.
    then_try (check_keywords (get kwarg_check d.name) d.kwargs) (λ k. add_decorator i d trig_decs))

-- the loop over the decorators
unfoldable pub check_decorators : List Decorator → Decs → Result Decs
check_decorators [] trig_decs = ok trig_decs
check_decorators (d ∷ decorators) trig_decs =
    then_try (checked (get arg_check d.name) d trig_decs) (check_decorators decorators)

-- the decorators of one trigger, by their names
abbrev pub TrigArgs : Type 0
TrigArgs = List (String × Decorator)

-- `trig_decs[trig].pop(0)` where there is one
abbrev pub pop_one :
    String → Option (List Decorator) → (Decs → TrigArgs × Decs) → Decs → TrigArgs × Decs
pop_one trig (some (d ∷ ds)) rest trig_decs =
    let (args, left) = rest (put trig_decs trig ds) in ((trig, d) ∷ args, left)
pop_one trig _ rest trig_decs = rest trig_decs

-- the loop over the required decorators: at most one of each for a trigger
unfoldable pub pop_each : List String → Decs → TrigArgs × Decs
pop_each [] trig_decs = ([], trig_decs)
pop_each (trig ∷ reqd) trig_decs = pop_one trig (get trig_decs trig) (pop_each reqd) trig_decs

-- "start one or more triggers until they are all consumed"
unfoldable pub hand_out : ℕ → List String → Decs → List TrigArgs
hand_out zero reqd trig_decs = []
hand_out (suc fuel) reqd trig_decs =
    let (args, left) = pop_each reqd trig_decs in
    let rest = hand_out fuel reqd left in if is_empty args then [] else args ∷ rest
