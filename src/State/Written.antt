-- ===== src/State/Written.antt =====
-- What `set`, `setattr` and `delete` of state.py leave in Home Assistant's states, and which
-- names `exist` and `get` know.
use pyscript.Base.{
  String, ◌==◌, string_key, nat_key, same_refl, Bool, true, false, ◌||◌, ◌≡◌, refl, Option, none,
  some, List, [], ◌∷◌, arith, if◌then◌else◌, is_some, Option-cases, inl, inr,
}
use pyscript.Base.Dict.{Dict, get, put, remove, has, get-put}
use pyscript.Base.Lists.{contains}
use pyscript.Base.Text.{split, dots, dotted}
use pyscript.Base.Result.{is_ok}
use pyscript.State.Machine.{
  CoreState, Machine, Values, StateVal, shown, state_val, state_virtual_attrs, state_callable_attrs,
}
use pyscript.State.Access.{
  State, set, set_named, store_state, set_keyword, setattr, exist, exist_parts, attributes_of,
  update_all, monitored, option_state_val, delete, delete_attr, first_of, or_no_services,
  is_service,
}
use pyscript.State.Read.{get as read, get_parts, getattr_of, get_member}

module _ {V C : Type 0} (M : Machine V C) (P : Values V C) where
  -- a value that is neither `None` nor a `StateVal`
  abbrev pub IsPlain : V → Type 0
  IsPlain v = (P.is_none v ≡ false) × (P.as_state_val v ≡ none)

  -- After `set` of a plain value and attributes under a name with one dot, that entity has the
  -- value as a string and these attributes; the states of all other entities are as before.
  shown-set :
      (name : String) (v : V) (a : Dict String V) (c : Option C) (s : State M) (j : String)
      → dots name ≡ 1
      → IsPlain v
      → shown (M.find (set M P name v (some a) [] c s).1.states j)
        ≡ (if M.lower name == M.lower j then some (M.to_str v, a) else shown (M.find s.states j))
  unfolding set set_named store_state update_all get
  shown-set name v a c s j d p = ground (arith, M.shown-async_set name v a c s.states j)

  -- Without attributes `set` keeps those of the entity.
  pub shown-set_value :
      (name : String) (v : V) (c : Option C) (s : State M)
      → dots name ≡ 1
      → IsPlain v
      → shown (M.find (set M P name v none [] c s).1.states name)
        ≡ some (M.to_str v, attributes_of (M.find s.states name))
  unfolding set set_named store_state update_all get
  shown-set_value name v c s d p = ground (
    arith,
    same_refl (M.lower name),
    M.shown-async_set name v (attributes_of (M.find s.states name)) c s.states name,
  )

  last-store_state :
      (name : String) (v : V) (a : Dict String V) (c : Option C) (s : State M)
      → monitored M P name s ≡ true
      → get (store_state M P name v a c s).notify_var_last name
        ≡ some (option_state_val M P (M.find (store_state M P name v a c s).states name))
  unfolding store_state
  last-store_state name v a c s m = ground (
    arith,
    same_refl name,
    get-put s.notify_var_last name name
        (option_state_val M P (M.find (M.async_set name v a c s.states) name)),
  )

  last-set_named :
      (name : String) (v : V) (a : Option (Dict String V)) (kwargs : Dict String V) (c : Option C)
      (s : State M)
      → monitored M P name s ≡ true
      → get (set_named M P name v a kwargs c s).notify_var_last name
        ≡ some (option_state_val M P (M.find (set_named M P name v a kwargs c s).states name))
  unfolding set_named
  last-set_named name v a kwargs c s m = last-store_state name _ _ _ s m

  -- The last value of a monitored variable is that of its new state as soon as `set` returns.
  last-set :
      (name : String) (v : V) (a : Option (Dict String V)) (kwargs : Dict String V) (c : Option C)
      (s : State M)
      → dots name ≡ 1
      → monitored M P name s ≡ true
      → let s' = (set M P name v a kwargs c s).1 in
        get s'.notify_var_last name ≡ some (option_state_val M P (M.find s'.states name))
  unfolding set
  last-set name v a kwargs c s d m = ground (arith, last-set_named name v a kwargs c s m)

  -- `delete` of an attribute that the entity has leaves the state as a string, without this
  -- attribute and with all others.
  delete-attr_gone :
      (var_name domain entity attr : String) (x : CoreState V) (context task_context : Option C)
      (s : State M)
      → split var_name ≡ domain ∷ entity ∷ attr ∷ []
      → M.find s.states (dotted domain entity) ≡ some x
      → has x.attributes attr ≡ true
      → IsPlain x.state
      → dots (dotted domain entity) ≡ 1
      → shown (M.find (delete M P var_name context task_context s).1.states (dotted domain entity))
        ≡ some (M.to_str x.state, remove x.attributes attr)
  unfolding delete delete_attr
  delete-attr_gone var_name domain entity attr x context task_context s e f h p d =
      rw (e, f) ground
        (
          arith,
          shown-set (dotted domain entity) x.state (remove x.attributes attr)
              (first_of M P context task_context) s (dotted domain entity) d p,
          same_refl (M.lower (dotted domain entity)),
        )

  has-state_val :
      (x : CoreState V) (attr : String)
      → has (state_val x).dict attr ≡ (has x.attributes attr || contains state_virtual_attrs attr)
  unfolding state_val
  has-state_val x attr = ground (
    arith,
    get-put x.attributes "entity_id" attr x.entity_id,
    get-put (put x.attributes "entity_id" x.entity_id) "last_updated" attr x.last_updated,
    get-put (put (put x.attributes "entity_id" x.entity_id) "last_updated" x.last_updated)
        "last_changed" attr x.last_changed,
    get-put
        (put (put (put x.attributes "entity_id" x.entity_id) "last_updated" x.last_updated)
          "last_changed" x.last_changed)
        "last_reported" attr x.last_reported,
  )

  is_ok-getattr_of :
      (x : StateVal V) (attr : String) (o : Option V)
      → is_ok (getattr_of M (λ n. false) x attr o)
        ≡ (is_some o || contains state_callable_attrs attr)
  is_ok-getattr_of x attr (some v) = refl
  is_ok-getattr_of x attr none = ground arith

  is_ok-get_member :
      (s : State M) (d e attr : String) (x : StateVal V) (o : Option (List String))
      → is_ok (get_member M (λ n. false) s d e x attr o)
        ≡ (is_some o || has x.dict attr || contains state_callable_attrs attr)
  is_ok-get_member s d e attr x (some params) = refl
  is_ok-get_member s d e attr x none = is_ok-getattr_of x attr (get x.dict attr)

  or_regroup : (a b c d : Bool) → (a || b || c || d) ≡ (a || (b || c) || d)
  or_regroup a b c d = ground arith

  is_ok-get_parts :
      (s : State M) (parts : List String)
      → exist_parts M s parts ≡ is_ok (get_parts M (λ n. false) s parts)
  is_ok-get_parts s [] = refl
  is_ok-get_parts s (d ∷ []) = refl
  is_ok-get_parts s (d ∷ e ∷ []) = elim (Option-cases (M.find s.states (dotted d e))) [
    | inl h ↦ ground (arith, h)
    | inr (x, h) ↦ ground (arith, h)
  ]
  is_ok-get_parts s (d ∷ e ∷ attr ∷ []) = elim (Option-cases (M.find s.states (dotted d e))) [
    | inl h ↦ ground (arith, h)
    | inr (x, h) ↦
        rw
          (
            h,
            is_ok-get_member s d e attr (state_val x)
                (get (or_no_services (get s.service2args d)) attr),
            has-state_val x attr,
          )
          (or_regroup (is_service s.service2args d attr) (has x.attributes attr)
            (contains state_virtual_attrs attr) (contains state_callable_attrs attr))
  ]
  is_ok-get_parts s (d ∷ e ∷ attr ∷ b ∷ rest) = refl

  -- A name exists when `get` returns something for it, unless that is another method of `str`.
  pub exist-get :
      (name : String) (s : State M) → exist M name s ≡ is_ok (read M (λ n. false) name s)
  unfolding exist read
  exist-get name s = is_ok-get_parts s (split name)

  -- `setattr` of the attribute `value` sets the state of an entity that exists, and leaves its
  -- attributes as they are: the name of the attribute is bound to a parameter of `set`.
  setattr-value_name :
      (name domain entity : String) (v : V) (c : Option C) (s : State M)
      → split name ≡ domain ∷ entity ∷ "value" ∷ []
      → exist M (dotted domain entity) s ≡ true
      → dots (dotted domain entity) ≡ 1
      → IsPlain v
      → shown (M.find (setattr M P name v c s).1.states (dotted domain entity))
        ≡ some (M.to_str v, attributes_of (M.find s.states (dotted domain entity)))
  unfolding setattr set_keyword
  setattr-value_name name domain entity v c s e x d p =
      rw e ground (arith, x, shown-set_value (dotted domain entity) v c s d p)
