-- ===== src/Notify/Webhook.antt =====
-- custom_components/pyscript/webhook.py: the class `Webhook`. A remover is the lambda that
-- unregisters the id; `V` is the type of Python's values.
use text.Mathlib.Text.{find?}
use pyscript.Base.{
  String, Bool, ◌||◌, ◌≡◌, refl, string_key, some, List, [], ◌∷◌, arith, if◌then◌else◌, is_some,
}
use text.Mathlib.TextEquality.{eq_iff}
use pyscript.Base.Dict.{Dict, get, put, has, get-put}
use pyscript.Base.Lists.{contains}
use pyscript.Base.Result.{Method, ok, err, value_error}
use pyscript.Notify
use pyscript.Notify.{Table, Queue}

-- what `webhook.async_register` is told besides the id
pub record Options : Type 0 where
  pub local_only : Bool
  pub methods : List String

abbrev pub Webhook : Type 0 → Type 0
Webhook R = Table Options R

-- An aiohttp request: its content type, its JSON body, and the keys of its form with the first
-- value of each, as the form's `getone` gives it.
pub record Request (V : Type 0) : Type 0 where
  pub content_type : String
  pub json : V
  pub keys : List String
  pub getone : String → V

module _ {R : Type 0} where
  -- `registers` is false where `async_register` raises, as for an id that another has registered; the
  -- entry of the id stays then, without a queue and without a remover
  unfoldable pub notify_add : Bool → String → Options → R → Queue → Method (Webhook R) (Unit {0})
  notify_add registers webhook_id options remover queue h =
      if registers || has h.notify webhook_id
      then (ok tt, Notify.notify_add webhook_id options remover queue h)
      else (err value_error, record h { notify = put h.notify webhook_id [] })

  unfoldable pub notify_del : String → Queue → Method (Webhook R) (Unit {0})
  notify_del webhook_id queue = Notify.notify_del webhook_id queue

module _ {V : Type 0} where
  -- `{k: payload.getone(k) for k in payload.keys()}`, added to what is there
  unfoldable pub first_values : (String → V) → List String → Dict String V → Dict String V
  first_values getone [] d = d
  first_values getone (k ∷ keys) d = first_values getone keys (put d k (getone k))

  -- A form's payload has the first value of each of its keys, and no other key.
  get-first_values :
      (getone : String → V) (keys : List String) (d : Dict String V) (k : String)
      → get (first_values getone keys d) k ≡ (if contains keys k then some (getone k) else get d k)
  unfolding first_values
  get-first_values getone [] d k = refl
  get-first_values getone (j ∷ keys) d k = ground (
    arith,
    get-first_values getone keys (put d j (getone j)) k,
    get-put d j k (getone j),
    eq_iff j k,
  )

-- the message `["webhook", func_args]`
unfoldable pub update :
    {R V : Type 0} → String → Dict String V → Webhook R → List (Queue × (String × Dict String V))
update webhook_id func_args = Notify.update webhook_id ("webhook", func_args)

module _ {V : Type 0} (text : String → V) (dict : Dict String V → V) where
  unfoldable pub payload : Request V → V
  unfolding first_values
  payload request =
      if is_some (find? request.content_type "json")
      then request.json
      else dict (first_values request.getone request.keys [])

  unfoldable pub webhook_handler :
      {R : Type 0} → String → Request V → Webhook R → List (Queue × (String × Dict String V))
  unfolding update payload
  webhook_handler webhook_id request = update webhook_id (
      ("trigger_type", text "webhook")
      ∷ ("webhook_id", text webhook_id)
      ∷ ("payload", payload request)
      ∷ [])
