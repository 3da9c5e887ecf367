-- ===== src/Calls/Restored.antt =====
-- A call leaves the interpreter's tables as they were, however it ends.
use pyscript.Base.{
  ℕ, ◌==◌, nat_key, Bool, true, false, ◌≡◌, refl, List, [], ◌∷◌, if◌then◌else◌, ap, ◌∙◌,
}
use Prim.{Unit}
use pyscript.Interpreter.{Flow, Statement, returns}
use pyscript.Calls.Enter.{Frame, Home, switch, enter, back, leave, value_of, run_body, call_body}

module _ {W V E : Type 0} where
  -- a statement that leaves the frame as it was, as expressions and statements without calls do
  abbrev pub Keeps : Statement (W × Frame) V E → Type 0
  Keeps statement = (w : W) (a : Frame) → (statement (w, a)).1.1 ≡ a

  abbrev pub AllKeep : List (Statement (W × Frame) V E) → Type 0
  AllKeep [] = Unit
  AllKeep (statement ∷ body) = Keeps statement × AllKeep body

  if-frame :
      (b : Bool) (x y : Flow V E × (W × Frame)) (a : Frame)
      → x.1.1 ≡ a
      → y.1.1 ≡ a
      → (if b then x else y).1.1 ≡ a
  if-frame true x y a p q = p
  if-frame false x y a p q = q

  run_body-Keeps : (body : List (Statement (W × Frame) V E)) → AllKeep body → Keeps (run_body body)
  unfolding run_body
  run_body-Keeps [] k w a = refl
  run_body-Keeps (statement ∷ body) (k, ks) w a =
      let (r, (w', a')) = statement (w, a) in
      if-frame (returns r) (value_of r, (w', a')) (run_body body (w', a')) a (k w a)
        (run_body-Keeps body ks w' a' ∙ k w a)

-- what the end of a call undoes
back-enter :
    (b : Bool) (h : Home) (table locals : ℕ) (a : Frame)
    → back b a (record (switch b h a) {
      sym_table = table;
      code = a.code;
      curr_func = a.curr_func;
      user_locals = a.user_locals;
    })
      ≡ a
back-enter true h table locals a = refl
back-enter false h table locals a = refl

module _ {W V E : Type 0} where
  -- Where each statement of a function's body leaves the tables, the stack, the context and the code
  -- of the interpreter as they were, a call of the function does so too, by a return, at the end of
  -- the body and by an exception. A call is a statement itself, so this holds of calls in calls.
  pub call_body-Keeps :
      (h : Home) (table locals : ℕ) (body : List (Statement (W × Frame) V E)) (w : W) (a : Frame)
      → AllKeep body
      → (call_body h table locals body (w, a)).1.1 ≡ a
  unfolding call_body
  call_body-Keeps h table locals body w a k =
      ap (leave h a) (run_body-Keeps body k w (enter h table locals a))
      ∙ back-enter (a.global_ctx == h.context) h table locals a
