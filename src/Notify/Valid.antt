-- ===== src/Notify/Valid.antt =====
-- The invariant of a notification table: a topic has a listener exactly while a queue waits for
-- it, and it is the listener that Home Assistant holds.
use pyscript.Base.{
  String, Key, string_key, nat_key, true, false, ◌≡◌, refl, ap, ◌∙◌, ◌==◌, if◌then◌else◌, ◌≢◌,
  Option, none, some, List, [], ◌∷◌, arith, Option-cases, inl, inr,
}
use text.Mathlib.TextEquality.{eq_iff}
use pyscript.Base.Bag.{discard, distinct-add, distinct-discard, add-ne_empty}
use pyscript.Base.Dict.{get, has}
use pyscript.Base.Lists.{distinct, is_empty}
use pyscript.Base.Result.{ok}
use pyscript.Notify.{Table, empty, or_nobody, notify_add, notify_del, Queue}
use pyscript.Notify.Effects.{
  live, notify-notify_add, notify_remove-notify_add, live-notify_add, notify-notify_del,
  notify_remove-notify_del, live-notify_del,
}

abbrev pub as_list : {R : Type 0} → Option R → List R
as_list none = []
as_list (some r) = r ∷ []

module _ {L R : Type 0} ⦃key : Key R⦄ where
  pub record IsValid (h : Table L R) : Type 0 where
    pub same_topics : (t : String) → has h.notify t ≡ has h.notify_remove t
    pub inhabited : (t : String) (s : List Queue) → get h.notify t ≡ some s → is_empty s ≡ false
    pub no_repeats : (t : String) (s : List Queue) → get h.notify t ≡ some s → distinct s ≡ true
    pub unshared :
        (t u : String) (r : R)
        → get h.notify_remove t ≡ some r
        → get h.notify_remove u ≡ some r
        → t ≡ u
    pub listening : (t : String) → live h.calls t ≡ as_list (get h.notify_remove t)

  pub empty-IsValid : IsValid empty
  unfolding get live
  empty-IsValid = record {
    same_topics = λ t. refl;
    inhabited = λ t s p. cc;
    no_repeats = λ t s p. cc;
    unshared = λ t u r p. cc;
    listening = λ t. refl;
  }

  -- A remover that is not in use.
  abbrev pub Fresh : R → Table L R → Type 0
  Fresh r h = (t : String) → get h.notify_remove t ≢ some r

pub queues-distinct :
    {L R : Type 0} ⦃key : Key R⦄ (h : Table L R)
    → IsValid h
    → (t : String) → distinct (or_nobody (get h.notify t)) ≡ true
queues-distinct h v t = ground (arith, v.no_repeats t (or_nobody (get h.notify t)))

-- A remover that no topic has.
abbrev pub IsFresh : {L R : Type 0} → R → Table L R → Type 0
IsFresh r h = (t : String) → get h.notify_remove t ≢ some r

module _ {L R : Type 0} ⦃key : Key R⦄ (topic : String) (queue : Queue) (h : Table L R) where
  -- `notify_add` keeps the invariant, if Home Assistant returns a new remover.
  pub notify_add-IsValid :
      (args : L) (r : R) → IsFresh r h → IsValid h → IsValid (notify_add topic args r queue h)
  notify_add-IsValid args r fresh v = record {
    same_topics = λ t. ground (
      arith,
      v.same_topics t,
      v.same_topics topic,
      eq_iff topic t,
      notify-notify_add topic args r queue h t,
      notify_remove-notify_add topic args r queue h t,
    );
    inhabited = λ t s p. ground (
      arith,
      v.inhabited t s,
      add-ne_empty (or_nobody (get h.notify topic)) queue,
      notify-notify_add topic args r queue h t,
    );
    no_repeats = λ t s p. ground (
      arith,
      v.no_repeats t s,
      queues-distinct h v topic,
      distinct-add (or_nobody (get h.notify topic)) queue,
      notify-notify_add topic args r queue h t,
    );
    unshared = λ t u w p q. ground (
      arith,
      v.unshared t u w,
      fresh t,
      fresh u,
      eq_iff topic t,
      eq_iff topic u,
      notify_remove-notify_add topic args r queue h t,
      notify_remove-notify_add topic args r queue h u,
    );
    listening = λ t. ground (
      arith,
      v.listening t,
      v.same_topics t,
      λ (e : (topic == t) ≡ true). ap (has h.notify) ((eq_iff topic t).0 e),
      live-notify_add topic args r queue h t,
      notify_remove-notify_add topic args r queue h t,
    );
  }

  notify_del-ok : IsValid h → (notify_del topic queue h).0 ≡ ok tt
  unfolding notify_del
  notify_del-ok v = ground (arith, v.same_topics topic)

  listening_after :
      IsValid h
      → (t : String)
      → live (notify_del topic queue h).1.calls t
        ≡ as_list (get (notify_del topic queue h).1.notify_remove t)
  unfolding discard
  listening_after v t = elim (Option-cases (get h.notify_remove topic)) [
    | inl absent ↦ ground (
      arith,
      absent,
      v.listening t,
      live-notify_del topic queue h t,
      notify_remove-notify_del topic queue h t,
    )
    | inr (r, mine) ↦ elim (Option-cases (get h.notify_remove t)) [
      | inl other ↦
          let held : discard (live h.calls t) r ≡ [] =
            ap (λ l. discard l r) (v.listening t ∙ ap as_list other) in
          ground (
            arith,
            mine,
            other,
            held,
            v.listening t,
            live-notify_del topic queue h t,
            notify_remove-notify_del topic queue h t,
          )
      | inr (w, other) ↦
          let held : discard (live h.calls t) r ≡ (if w == r then [] else w ∷ []) =
            ap (λ l. discard l r) (v.listening t ∙ ap as_list other) in
          ground (
            arith,
            mine,
            other,
            held,
            v.listening t,
            v.unshared topic t r,
            λ (e : (topic == t) ≡ true). ap (get h.notify_remove) ((eq_iff topic t).0 e),
            key.same_iff w r,
            eq_iff topic t,
            live-notify_del topic queue h t,
            notify_remove-notify_del topic queue h t,
          )
    ]
  ]

  -- `notify_del` keeps the invariant, and does not raise.
  pub notify_del-IsValid :
      IsValid h → ((notify_del topic queue h).0 ≡ ok tt) × IsValid (notify_del topic queue h).1
  notify_del-IsValid v = (
    notify_del-ok v,
    record {
      same_topics = λ t. ground (
        arith,
        v.same_topics t,
        v.same_topics topic,
        eq_iff topic t,
        notify-notify_del topic queue h t,
        notify_remove-notify_del topic queue h t,
      );
      inhabited = λ t s p.
          ground (arith, v.inhabited t s, v.same_topics topic, notify-notify_del topic queue h t);
      no_repeats = λ t s p. ground (
        arith,
        v.no_repeats t s,
        queues-distinct h v topic,
        distinct-discard (or_nobody (get h.notify topic)) queue,
        notify-notify_del topic queue h t,
      );
      unshared = λ t u w p q. ground (
        arith,
        v.unshared t u w,
        notify_remove-notify_del topic queue h t,
        notify_remove-notify_del topic queue h u,
      );
      listening = listening_after v;
    },
  )
