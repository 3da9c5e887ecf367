-- ===== src/State/Tests.antt =====
-- The operations of state.py on a small state machine.
use pyscript.Base.{
  ℕ, String, ◌==◌, string_key, nat_key, false, ◌≡◌, refl, Option, none, some, [], ◌∷◌, arith,
  if◌then◌else◌,
}
use pyscript.Base.Dict.{Dict, get, put, remove, has, get-put, get-remove}
use pyscript.Base.Text.{split}
use pyscript.Base.Result.{ok, is_ok}
use pyscript.State.Machine.{CoreState, Machine, Values, shown}
use pyscript.State.Watch.{root, watching, notify_del, watching-notify_del}
use pyscript.State.Access.{State, exist}
use pyscript.State.Read.{get as read}
use pyscript.State.Written.{exist-get}

-- states whose values and times are strings, with contexts numbered, by ids in lower case
abbrev toy_find : Dict String (String × Dict String String) → String → Option (CoreState String)
toy_find s name = of_entry (get s name)
  where
    of_entry : Option (String × Dict String String) → Option (CoreState String)
    of_entry none = none
    of_entry (some (v, a)) = some (record {
      state = v;
      attributes = a;
      entity_id = name;
      last_updated = "now";
      last_changed = "now";
      last_reported = "now";
    })

shown-toy_find :
    (s : Dict String (String × Dict String String)) (j : String) → shown (toy_find s j) ≡ get s j
shown-toy_find s j = ground arith

toy_set :
    (name v : String) (a : Dict String String) (s : Dict String (String × Dict String String))
    (j : String)
    → shown (toy_find (put s name (v, a)) j)
      ≡ (if name == j then some (v, a) else shown (toy_find s j))
toy_set name v a s j =
    rw (shown-toy_find (put s name (v, a)) j, shown-toy_find s j) (get-put s name j (v, a))

toy_remove :
    (name : String) (s : Dict String (String × Dict String String)) (j : String)
    → shown (toy_find (remove s name) j) ≡ (if name == j then none else shown (toy_find s j))
toy_remove name s j =
    rw (shown-toy_find (remove s name) j, shown-toy_find s j) (get-remove s name j)

abbrev toy : Machine String ℕ
toy = record {
  Store = Dict String (String × Dict String String);
  lower = λ name. name;
  to_str = λ v. v;
  find = toy_find;
  async_set = λ name v a c s. put s name (v, a);
  async_remove = λ name c s. (has s name, remove s name);
  shown-async_set = λ name v a c s j. toy_set name v a s j;
  shown-async_remove = λ name c s j. toy_remove name s j;
}

abbrev strings : Values String ℕ
strings = record {
  python_none = "None";
  is_none = λ v. v == "None";
  str = λ v. v;
  as_state_val = λ v. none;
  as_context = λ v. none;
  as_attributes = λ v. ok none;
  is_none-python_none = refl;
}

abbrev home : State toy
home = record {
  states =
      ("light.a", ("on", ("level", "3") ∷ ("value", "7") ∷ [])) ∷ ("light.b", ("off", [])) ∷ [];
  notify = ("light.a", (1, "light.a" ∷ "light.a.level" ∷ "light.c" ∷ []) ∷ []) ∷ [];
  notify_var_last = [];
  persisted_vars = [];
  service2args = ("light", ("dim", "by" ∷ []) ∷ []) ∷ [];
}

exist-get_example :
    exist toy "light.a.level" home ≡ is_ok (read toy (λ n. false) "light.a.level" home)
exist-get_example = exist-get toy strings "light.a.level" home

watching-notify_del_example :
    watching (notify_del ("light.a.level" ∷ []) 1 home.notify) "light.a" 1 ≡ none
unfolding get root split
watching-notify_del_example =
    watching-notify_del ("light.a.level" ∷ []) 1 home.notify "light.a" 1 refl refl
