-- ===== src/Setup/HandedOut.antt =====
-- Each trigger decorator goes to one trigger.
use pyscript.Base.{
  ℕ, zero, suc, ◌≤◌, String, ◌==◌, string_key, Bool, true, false, ◌||◌, ◌≡◌, refl, Option, none,
  some, List, [], ◌∷◌, ◌++◌, if◌then◌else◌, arith, ap, sym, ◌∙◌, leb,
}
use mathlib.Core.Path.{subst}
use text.Mathlib.TextEquality.{eq_iff}
use pyscript.Base.Dict.{get, put, get-put}
use pyscript.Base.Lists.{length, is_empty, contains, distinct, all}
use pyscript.Setup.{Decorator, Decs, TrigArgs, listed, pop_one, pop_each, hand_out}

-- the decorators of one name among a trigger's, and among all triggers'
abbrev pub named : String → TrigArgs → List Decorator
named k [] = []
named k ((n, d) ∷ args) = let rest = named k args in if n == k then d ∷ rest else rest

abbrev pub all_named : String → List TrigArgs → List Decorator
all_named k [] = []
all_named k (args ∷ triggers) = named k args ++ all_named k triggers

abbrev head_of : List Decorator → List Decorator
head_of [] = []
head_of (d ∷ ds) = d ∷ []

abbrev tail_of : List Decorator → List Decorator
tail_of [] = []
tail_of (d ∷ ds) = ds

-- what a round does to the decorators of one name
abbrev Popped : Bool → String → List Decorator → TrigArgs × Decs → Type 0
Popped is_reqd k before r =
    (named k r.0 ≡ (if is_reqd then head_of before else []))
    × (listed (get r.1 k) ≡ (if is_reqd then tail_of before else before))

same_entry : (decs : Decs) (a b : String) → (a == b) ≡ true → get decs a ≡ get decs b
same_entry decs a b h = ap (get decs) ((eq_iff a b).0 h)

same_listed : (l : List String) (a b : String) → (a == b) ≡ true → contains l a ≡ contains l b
same_listed l a b h = ap (contains l) ((eq_iff a b).0 h)

pop_one-Popped :
    (trig : String) (o : Option (List Decorator)) (reqd : List String) (decs : Decs) (k : String)
    → get decs trig ≡ o
    → contains reqd trig ≡ false
    → ((decs : Decs) → Popped (contains reqd k) k (listed (get decs k)) (pop_each reqd decs))
    → Popped
        (trig == k || contains reqd k)
        k
        (listed (get decs k))
        (pop_one trig o (pop_each reqd) decs)
pop_one-Popped trig none reqd decs k e n ih =
    ground (arith, ih decs, same_entry decs trig k, same_listed reqd trig k, e, n)
pop_one-Popped trig (some []) reqd decs k e n ih =
    ground (arith, ih decs, same_entry decs trig k, same_listed reqd trig k, e, n)
pop_one-Popped trig (some (d ∷ ds)) reqd decs k e n ih = ground (
  arith,
  ih (put decs trig ds),
  get-put decs trig k ds,
  same_entry decs trig k,
  same_listed reqd trig k,
  e,
  n,
)

pop_each-Popped :
    (reqd : List String) (decs : Decs) (k : String)
    → distinct reqd ≡ true
    → Popped (contains reqd k) k (listed (get decs k)) (pop_each reqd decs)
unfolding pop_each
pop_each-Popped [] decs k d = (refl, refl)
pop_each-Popped (trig ∷ reqd) decs k d =
    pop_one-Popped trig (get decs trig) reqd decs k refl (ground (arith, d))
      (λ decs. pop_each-Popped reqd decs k (ground (arith, d)))

head-tail : (l : List Decorator) → head_of l ++ tail_of l ≡ l
head-tail [] = refl
head-tail (d ∷ ds) = refl

length-tail : (l : List Decorator) (n : ℕ) → length l ≤ suc n → length (tail_of l) ≤ n
length-tail [] n h = omega arith
length-tail (d ∷ ds) n h = omega arith

-- no decorator is popped where there is none left
head-none : (l : List Decorator) → [] ≡ head_of l → l ≡ []
head-none [] e = refl
head-none (d ∷ ds) e = ground (arith, e)

none-left : (l : List Decorator) → length l ≤ 0 → [] ≡ l
none-left [] h = refl
none-left (d ∷ ds) h = ground arith

-- a round, and the rounds after it
round-named :
    (k : String) (args : TrigArgs) (rest : List TrigArgs) (l : List Decorator)
    → named k args ≡ head_of l
    → all_named k rest ≡ tail_of l
    → all_named k (if is_empty args then [] else args ∷ rest) ≡ l
round-named k [] rest l e t = sym (head-none l e)
round-named k (a ∷ args) rest l e t =
    ap (λ x. x ++ all_named k rest) e ∙ ap (λ y. head_of l ++ y) t ∙ head-tail l

-- all decorators of a kind, over the rounds
all_named_lem :
    (fuel : ℕ) (reqd : List String) (decs : Decs) (k : String)
    → distinct reqd ≡ true
    → contains reqd k ≡ true
    → length (listed (get decs k)) ≤ fuel
    → all_named k (hand_out fuel reqd decs) ≡ listed (get decs k)
unfolding hand_out
all_named_lem zero reqd decs k d c h = none-left (listed (get decs k)) h
all_named_lem (suc fuel) reqd decs k d c h =
    let p = pop_each-Popped reqd decs k d in
    let (args, left) = pop_each reqd decs in
    let first : named k args ≡ head_of (listed (get decs k)) = ground (arith, p.0, c) in
    let others : listed (get left k) ≡ tail_of (listed (get decs k)) = ground (arith, p.1, c) in
    round-named k args (hand_out fuel reqd left) (listed (get decs k)) first (
      all_named_lem fuel reqd left k d c
        (subst (λ l. length l ≤ fuel) (sym others) (length-tail (listed (get decs k)) fuel h))
      ∙ others)

all-if_empty :
    (p : TrigArgs → Bool) (args : TrigArgs) (rest : List TrigArgs)
    → p args ≡ true
    → all p rest ≡ true
    → all p (if is_empty args then [] else args ∷ rest) ≡ true
all-if_empty p [] rest h r = refl
all-if_empty p (a ∷ args) rest h r = ground (arith, h, r)

at_most_one : (l : List Decorator) → leb (length (head_of l)) 1 ≡ true
at_most_one [] = refl
at_most_one (d ∷ ds) = refl

-- each trigger has at most one decorator of a required kind
one_each :
    (fuel : ℕ) (reqd : List String) (decs : Decs) (k : String)
    → distinct reqd ≡ true
    → contains reqd k ≡ true
    → all (λ args. leb (length (named k args)) 1) (hand_out fuel reqd decs) ≡ true
unfolding hand_out
one_each zero reqd decs k d c = refl
one_each (suc fuel) reqd decs k d c =
    let p = pop_each-Popped reqd decs k d in
    let (args, left) = pop_each reqd decs in
    let first : named k args ≡ head_of (listed (get decs k)) = ground (arith, p.0, c) in
    let one : leb (length (named k args)) 1 ≡ true =
      subst (λ l. leb (length l) 1 ≡ true) (sym first) (at_most_one (listed (get decs k))) in
    all-if_empty (λ args. leb (length (named k args)) 1) args (hand_out fuel reqd left) one
      (one_each fuel reqd left k d c)

-- The triggers of a function together get each decorator of a required kind once, in their order,
-- and each trigger gets at most one of the kind. The conditions are that the kinds differ, and that
-- there are as many rounds as decorators of the kind.
pub all_named-hand_out :
    (fuel : ℕ) (reqd : List String) (decs : Decs) (k : String)
    → distinct reqd ≡ true
    → contains reqd k ≡ true
    → length (listed (get decs k)) ≤ fuel
    → (all_named k (hand_out fuel reqd decs) ≡ listed (get decs k))
      × (all (λ args. leb (length (named k args)) 1) (hand_out fuel reqd decs) ≡ true)
all_named-hand_out fuel reqd decs k d c h =
    (all_named_lem fuel reqd decs k d c h, one_each fuel reqd decs k d c)
