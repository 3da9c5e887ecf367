-- ===== src/Jupyter/Messages.antt =====
-- Messages of the Jupyter kernel (custom_components/pyscript/jupyter_kernel.py, class `Kernel`):
-- their parts and their signature. `json` and the HMAC are parameters; none is a ValueError or an
-- IndexError.
use pyscript.Base.{
  ◌==◌, nat_key, Bool, true, false, ◌&&◌, Option, none, some, List, [], ◌∷◌, ◌++◌, if◌then◌else◌,
}
use pyscript.Jupyter.{Bytes}

-- `DELIM`, the text <IDS|MSG>
abbrev pub delim : Bytes
delim = 60 ∷ 73 ∷ 68 ∷ 83 ∷ 124 ∷ 77 ∷ 83 ∷ 71 ∷ 62 ∷ []

abbrev pub same_bytes : Bytes → Bytes → Bool
same_bytes [] [] = true
same_bytes (a ∷ xs) (b ∷ bs) = a == b && same_bytes xs bs
same_bytes [] (b ∷ bs) = false
same_bytes (a ∷ xs) [] = false

abbrev pub cons_identity :
    Bytes → Option (List Bytes × List Bytes) → Option (List Bytes × List Bytes)
cons_identity part none = none
cons_identity part (some r) = some (part ∷ r.0, r.1)

-- the parts before the delimiter and those after it
unfoldable pub split_wire : List Bytes → Option (List Bytes × List Bytes)
split_wire [] = none
split_wire (part ∷ wire_msg) =
    let rest = cons_identity part (split_wire wire_msg) in
    if same_bytes part delim then some ([], wire_msg) else rest

pub record Message (J : Type 0) : Type 0 where
  pub header : J
  pub parent_header : J
  pub metadata : J
  pub content : J

module _ {J : Type 0} where
  abbrev pub to_message : Option J → Option J → Option J → Option J → Option (Message J)
  to_message (some h) (some p) (some m) (some c) =
      some (record { header = h; parent_header = p; metadata = m; content = c })
  to_message _ _ _ _ = none

  abbrev pub with_identities : List Bytes → Option (Message J) → Option (List Bytes × Message J)
  with_identities identities none = none
  with_identities identities (some msg) = some (identities, msg)

  module _ (loads : Bytes → Option J) (msg_sign : List Bytes → Bytes) where
    -- the frames are read first, and then the signature is compared
    abbrev pub read_frames : Bytes → List Bytes → Option (Message J)
    read_frames m_signature (f0 ∷ f1 ∷ f2 ∷ f3 ∷ frames) =
        if same_bytes (msg_sign (f0 ∷ f1 ∷ f2 ∷ f3 ∷ frames)) m_signature
        then to_message (loads f0) (loads f1) (loads f2) (loads f3)
        else none
    read_frames m_signature _ = none

    abbrev pub after_split : Option (List Bytes × List Bytes) → Option (List Bytes × Message J)
    after_split none = none
    after_split (some (identities, [])) = none
    after_split (some (identities, m_signature ∷ msg_frames)) =
        with_identities identities (read_frames m_signature msg_frames)

    -- `deserialize_wire_msg`
    unfoldable pub deserialize_wire_msg : List Bytes → Option (List Bytes × Message J)
    deserialize_wire_msg wire_msg = after_split (split_wire wire_msg)

  -- `j if j else {}`
  abbrev pub or_empty : J → Option J → J
  or_empty empty none = empty
  or_empty empty (some j) = j

  module _ (dumps : J → Bytes) (empty : J) (msg_sign : List Bytes → Bytes) where
    -- the parts that `send` gives to each stream; none stands for what is not given or empty
    unfoldable pub sent_parts : J → Option J → Option J → Option J → List Bytes → List Bytes
    sent_parts header content parent_header metadata identities =
        let msg_lst =
          dumps header
          ∷ dumps (or_empty empty parent_header)
          ∷ dumps (or_empty empty metadata)
          ∷ dumps (or_empty empty content)
          ∷ [] in
        identities ++ delim ∷ msg_sign msg_lst ∷ msg_lst
