-- ===== src/State/Watch.antt =====
-- Which queues are told of the changes of which state variables: `notify_add` and `notify_del`.
use text.Mathlib.TextEquality.{eq_iff}
use pyscript.Base.{
  String, ◌==◌, string_key, nat_key, same_refl, Bool, true, false, ◌&&◌, ◌||◌, ◌≡◌, refl, Option,
  none, some, List, [], ◌∷◌, arith, if◌then◌else◌, is_some, Option-cases, inl, inr,
}
use pyscript.Base.Dict.{Dict, get, put, remove, get-put, get-remove}
use pyscript.Base.Lists.{any, all, contains, distinct}
use pyscript.Base.Text.{split, dotted}
use pyscript.Notify.{Queue}

-- `State.notify`: for each variable, the queues with the names that each asked for
abbrev pub Watchers : Type 0
Watchers = Dict String (Dict Queue (List String))

-- the variable `domain.entity` of the parts of a name, if there are two or three of them
abbrev pub root_of : List String → Option String
root_of (domain ∷ entity ∷ []) = some (dotted domain entity)
root_of (domain ∷ entity ∷ attr ∷ []) = some (dotted domain entity)
root_of _ = none

-- `f"{parts[0]}.{parts[1]}"` for `var_name.split(".")`
unfoldable pub root : String → Option String
root var_name = root_of (split var_name)

abbrev pub or_no_queues : Option (Dict Queue (List String)) → Dict Queue (List String)
or_no_queues none = []
or_no_queues (some d) = d

-- the names that a queue asked for, if it watches the variable
abbrev pub watching : Watchers → String → Queue → Option (List String)
watching w var queue = get (or_no_queues (get w var)) queue

-- one round of `notify_add`
unfoldable pub watch : List String → Queue → Option String → Watchers → Watchers
watch var_names queue none w = w
watch var_names queue (some var) w = put w var (put (or_no_queues (get w var)) queue var_names)

unfoldable pub add_each : List String → List String → Queue → Watchers → Bool × Watchers
add_each [] var_names queue w = (false, w)
add_each (name ∷ rest) var_names queue w =
    let (added, w') = add_each rest var_names queue (watch var_names queue (root name) w) in
    (is_some (root name) || added, w')

-- `notify_add`: whether something was added, and the watchers
unfoldable pub notify_add : List String → Queue → Watchers → Bool × Watchers
unfolding add_each watch
notify_add var_names queue w = add_each var_names var_names queue w

-- One round of `notify_del`: the watchers without the queue, or nothing where the loop returns.
unfoldable pub unwatch : Queue → String → Watchers → Option Watchers
unwatch queue var w =
    if is_some (watching w var queue)
    then some (put w var (remove (or_no_queues (get w var)) queue))
    else none

abbrev pub go_on : Option Watchers → Watchers → (Watchers → Watchers) → Watchers
go_on none w next = w
go_on (some w') w next = next w'

abbrev pub del_round : Option String → Queue → Watchers → (Watchers → Watchers) → Watchers
del_round none queue w next = next w
del_round (some var) queue w next = go_on (unwatch queue var w) w next

-- `notify_del`: it returns at the first variable that the queue does not watch
unfoldable pub notify_del : List String → Queue → Watchers → Watchers
unfolding unwatch
notify_del [] queue w = w
notify_del (name ∷ rest) queue w = del_round (root name) queue w (notify_del rest queue)

-- whether a name asks for a variable
abbrev pub asks : String → Option String → Bool
asks var none = false
asks var (some v) = v == var

abbrev pub asked : List String → String → Bool
asked names var = any (λ name. asks var (root name)) names

-- What each round changes.
watching-watch :
    (names : List String) (queue : Queue) (o : Option String) (w : Watchers) (var : String)
    (q : Queue)
    → watching (watch names queue o w) var q
      ≡ (if asks var o && (queue == q) then some names else watching w var q)
unfolding watch
watching-watch names queue none w var q = ground arith
watching-watch names queue (some v) w var q = ground (
  arith,
  get-put w v var (put (or_no_queues (get w v)) queue names),
  get-put (or_no_queues (get w v)) queue q names,
  eq_iff v var,
)

watching-add_each :
    (each names : List String) (queue : Queue) (w : Watchers) (var : String) (q : Queue)
    → watching (add_each each names queue w).1 var q
      ≡ (if asked each var && (queue == q) then some names else watching w var q)
unfolding add_each
watching-add_each [] names queue w var q = ground arith
watching-add_each (n ∷ each) names queue w var q = ground (
  arith,
  watching-add_each each names queue (watch names queue (root n) w) var q,
  watching-watch names queue (root n) w var q,
)

module _ (names : List String) (queue : Queue) (w : Watchers) where
  -- After `notify_add` the queue watches, under the names that it asked for, each variable that
  -- one of these names or its attribute belongs to; nothing else changes.
  watching-notify_add :
      (var : String) (q : Queue)
      → watching (notify_add names queue w).1 var q
        ≡ (if asked names var && (queue == q) then some names else watching w var q)
  unfolding notify_add
  watching-notify_add var q = watching-add_each names names queue w var q

-- the queue is gone from one variable
watching-unwatch :
    (queue : Queue) (v : String) (w w' : Watchers) (var : String) (q : Queue)
    → unwatch queue v w ≡ some w'
    → watching w' var q ≡ (if (v == var) && (queue == q) then none else watching w var q)
unfolding unwatch
watching-unwatch queue v w w' var q h = ground (
  arith,
  get-put w v var (remove (or_no_queues (get w v)) queue),
  get-remove (or_no_queues (get w v)) queue q,
  eq_iff v var,
)

-- the variables that names ask for
abbrev pub add_root : Option String → List String → List String
add_root none vs = vs
add_root (some v) vs = v ∷ vs

abbrev pub roots : List String → List String
roots [] = []
roots (n ∷ ns) = add_root (root n) (roots ns)

abbrev pub watched : Watchers → Queue → String → Bool
watched w queue var = is_some (watching w var queue)

distinct-rest :
    (o : Option String) (vs : List String) → distinct (add_root o vs) ≡ true → distinct vs ≡ true
distinct-rest none vs d = d
distinct-rest (some v) vs d = ground arith

-- A round for one variable leaves the others watched.
watched-unwatch :
    (queue : Queue) (v : String) (w w' : Watchers) (vs : List String)
    → unwatch queue v w ≡ some w'
    → contains vs v ≡ false
    → all (watched w queue) vs ≡ true
    → all (watched w' queue) vs ≡ true
watched-unwatch queue v w w' [] h c a = refl
watched-unwatch queue v w w' (u ∷ vs) h c a = ground (
  arith,
  watching-unwatch queue v w w' u queue h,
  watched-unwatch queue v w w' vs h,
  eq_iff v u,
  eq_iff u v,
)

unwatch-watched :
    (queue : Queue) (v : String) (w : Watchers) (others : Bool)
    → (watched w queue v && others) ≡ true
    → unwatch queue v w ≡ some (put w v (remove (or_no_queues (get w v)) queue))
unfolding unwatch
unwatch-watched queue v w others h = ground arith

watching-del_round :
    (rest : List String) (queue : Queue) (o : Option String) (w : Watchers) (var : String)
    (q : Queue)
    → distinct (add_root o (roots rest)) ≡ true
    → all (watched w queue) (add_root o (roots rest)) ≡ true
    → ((w' : Watchers)
        → all (watched w' queue) (roots rest) ≡ true
        → watching (notify_del rest queue w') var q
          ≡ (if contains (roots rest) var && (queue == q) then none else watching w' var q))
    → watching (del_round o queue w (notify_del rest queue)) var q
      ≡ (if contains (add_root o (roots rest)) var && (queue == q) then none else watching w var q)
watching-del_round rest queue none w var q d a ih = ih w a
watching-del_round rest queue (some v) w var q d a ih =
    let w' = put w v (remove (or_no_queues (get w v)) queue) in
    let e = unwatch-watched queue v w (all (watched w queue) (roots rest)) a in
    ground (
      arith,
      e,
      ih w',
      watched-unwatch queue v w w' (roots rest) e,
      watching-unwatch queue v w w' var q e,
    )

-- Where each name asks for another variable and the queue watches them all, `notify_del` takes
-- the queue from exactly these variables.
pub watching-notify_del :
    (names : List String) (queue : Queue) (w : Watchers) (var : String) (q : Queue)
    → distinct (roots names) ≡ true
    → all (watched w queue) (roots names) ≡ true
    → watching (notify_del names queue w) var q
      ≡ (if contains (roots names) var && (queue == q) then none else watching w var q)
unfolding notify_del
watching-notify_del [] queue w var q d a = refl
watching-notify_del (n ∷ names) queue w var q d a =
    watching-del_round names queue (root n) w var q d a
      (λ w'. watching-notify_del names queue w' var q (distinct-rest (root n) (roots names) d))

-- A variable is not unwatched twice.
unwatch_again :
    (queue : Queue) (v : String) (w w' : Watchers)
    → unwatch queue v w ≡ some w'
    → unwatch queue v w' ≡ none
unfolding unwatch
unwatch_again queue v w w' h = ground (
  arith,
  get-put w v v (remove (or_no_queues (get w v)) queue),
  get-remove (or_no_queues (get w v)) queue queue,
  same_refl v,
  same_refl queue,
)

second_round-stops :
    (v : String) (queue : Queue) (w : Watchers) (next : Watchers → Watchers)
    → del_round (some v) queue w (λ x. del_round (some v) queue x next)
      ≡ del_round (some v) queue w (λ x. x)
second_round-stops v queue w next = elim (Option-cases (unwatch queue v w)) [
  | inl e ↦ ground (arith, e)
  | inr (w', e) ↦ ground (arith, e, unwatch_again queue v w w' e)
]

-- Of two names for one variable the second one ends the loop: what follows stays watched.
notify_del-same_root :
    (n m : String) (v : String) (rest : List String) (queue : Queue) (w : Watchers)
    → root n ≡ some v
    → root m ≡ some v
    → notify_del (n ∷ m ∷ rest) queue w ≡ notify_del (n ∷ []) queue w
unfolding notify_del
notify_del-same_root n m v rest queue w h k =
    rw (h, k) (second_round-stops v queue w (notify_del rest queue))
