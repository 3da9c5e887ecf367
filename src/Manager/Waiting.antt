-- ===== src/Manager/Waiting.antt =====
-- `task.wait_until` by decorators (decorator.py): which keywords it knows.
use text.Mathlib.TextEquality.{eq_iff}
use pyscript.Base.{
  String, ◌==◌, nat_key, string_key, Bool, ◌&&◌, ◌||◌, ◌≡◌, refl, Option, none, some, List, [], ◌∷◌,
  arith,
}
use pyscript.Base.Dict.{Dict, get, has}
use pyscript.Base.Lists.{all, any, contains}
use pyscript.Base.Bag.{add as add_to, contains-add}
use pyscript.Base.Result.{is_ok}
use pyscript.Manager.Dispatch.{
  DecoratorClass, Made, find_keywords, add_found, make_one, make_each, all_found,
  wait_until_decorators,
}

module _ {V : Type 0} (as_list : V → List V) where
  contains-find_keywords :
      (keys : List String) (kwargs : Dict String V) (found : List String) (k : String)
      → contains (find_keywords as_list keys kwargs found) k
        ≡ (contains found k || (contains keys k && has kwargs k))
  unfolding find_keywords
  contains-find_keywords [] kwargs found k = ground arith
  contains-find_keywords (key ∷ keys) kwargs found k = ground (
    arith,
    contains-find_keywords keys kwargs (add_found as_list (has kwargs key) key found) k,
    contains-add found key k,
    eq_iff key k,
  )

  -- a keyword that belongs to a trigger decorator that is asked for
  abbrev pub is_keyword_of : Dict String V → String → String × DecoratorClass → Bool
  is_keyword_of kwargs k (name, c) =
      has kwargs name
      && (c.is_trigger && (name == k || (contains c.kwargs_schema_keys k && has kwargs k)))

  contains-make_one :
      (name : String) (c : DecoratorClass) (kwargs : Dict String V) (o : Option V)
      (x : List String × List (Made as_list)) (k : String)
      → get kwargs name ≡ o
      → contains (make_one as_list name c kwargs o x).0 k
        ≡ (contains x.0 k || is_keyword_of kwargs k (name, c))
  contains-make_one name c kwargs none (found, made) k h = ground arith
  contains-make_one name c kwargs (some a) (found, made) k h = ground (
    arith,
    contains-find_keywords c.kwargs_schema_keys kwargs (add_to found name) k,
    contains-add found name k,
  )

  contains-make_each :
      (classes : Dict String DecoratorClass) (kwargs : Dict String V)
      (x : List String × List (Made as_list)) (k : String)
      → contains (make_each as_list classes kwargs x).0 k
        ≡ (contains x.0 k || any (is_keyword_of kwargs k) classes)
  unfolding make_each
  contains-make_each [] kwargs x k = ground arith
  contains-make_each ((name, c) ∷ classes) kwargs x k = ground (
    arith,
    contains-make_each classes kwargs (make_one as_list name c kwargs (get kwargs name) x) k,
    contains-make_one name c kwargs (get kwargs name) x k refl,
  )

  all_found-known :
      (found : List String) (known : String → Bool) (kwargs : Dict String V)
      → ((k : String) → contains found k ≡ known k)
      → all_found as_list found kwargs ≡ all (λ kv. known kv.0) kwargs
  all_found-known found known [] h = refl
  all_found-known found known ((k, v) ∷ kwargs) h =
      ground (arith, h k, all_found-known found known kwargs h)

  -- a keyword that `wait_until` knows
  abbrev pub is_known : Dict String DecoratorClass → Dict String V → String → Bool
  is_known classes kwargs k =
      contains ("timeout" ∷ "__test_handshake__" ∷ []) k || any (is_keyword_of kwargs k) classes

  -- `wait_until` accepts its keywords exactly where each is `timeout`, the test handshake, the
  -- name of a trigger decorator, or a keyword of a trigger decorator that is named.
  pub is_ok-wait_until_decorators :
      (classes : Dict String DecoratorClass) (kwargs : Dict String V)
      → is_ok (wait_until_decorators as_list classes kwargs)
        ≡ all (λ kv. is_known classes kwargs kv.0) kwargs
  unfolding wait_until_decorators
  is_ok-wait_until_decorators classes kwargs = ground (
    arith,
    all_found-known (make_each as_list classes kwargs ("timeout" ∷ "__test_handshake__" ∷ [], [])).0
        (is_known classes kwargs) kwargs
        (λ k. contains-make_each classes kwargs ("timeout" ∷ "__test_handshake__" ∷ [], []) k),
  )
