-- ===== src/Jupyter/Signed.antt =====
-- `deserialize_wire_msg` of custom_components/pyscript/jupyter_kernel.py on what `send` of another
-- kernel with the same key writes.
use pyscript.Base.{
  nat_key, true, false, ◌≡◌, refl, Option, none, some, List, [], ◌∷◌, ◌++◌, if◌then◌else◌, arith,
  ap, ◌∙◌,
}
use pyscript.Base.Lists.{any}
use pyscript.Jupyter.{Bytes}
use pyscript.Jupyter.Messages.{
  delim, same_bytes, cons_identity, split_wire, to_message, with_identities, after_split,
  deserialize_wire_msg, or_empty, sent_parts,
}

same_bytes_refl : (a : Bytes) → same_bytes a a ≡ true
same_bytes_refl [] = refl
same_bytes_refl (a ∷ xs) = ground (arith, same_bytes_refl xs)

split_wire-append :
    (identities after : List Bytes)
    → any (λ part. same_bytes part delim) identities ≡ false
    → split_wire (identities ++ delim ∷ after) ≡ some (identities, after)
unfolding split_wire
split_wire-append [] after h = refl
split_wire-append (part ∷ identities) after h =
    let other : same_bytes part delim ≡ false = ground (arith, h) in
    ap
      (λ b.
        if b
        then some ([], identities ++ delim ∷ after)
        else cons_identity part (split_wire (identities ++ delim ∷ after)))
      other
    ∙ ap (cons_identity part) (split_wire-append identities after (ground (arith, h)))

-- A message that is sent is read back with its identities and its four dicts, the empty dict for
-- those that were not given, if no identity is the delimiter, `loads` reads what `dumps` writes, and
-- the signature is made with the same key.
pub deserialize_wire_msg-sent_parts :
    {J : Type 0} (loads : Bytes → Option J) (dumps : J → Bytes) (empty : J)
    (msg_sign : List Bytes → Bytes)
    → ((j : J) → loads (dumps j) ≡ some j)
    → (header : J) (content parent_header metadata : Option J) (identities : List Bytes)
    → any (λ part. same_bytes part delim) identities ≡ false
    → deserialize_wire_msg loads msg_sign
        (sent_parts dumps empty msg_sign header content parent_header metadata identities)
      ≡ some (
        identities,
        record {
          header = header;
          parent_header = or_empty empty parent_header;
          metadata = or_empty empty metadata;
          content = or_empty empty content;
        },
      )
unfolding deserialize_wire_msg sent_parts
deserialize_wire_msg-sent_parts loads dumps empty msg_sign read header content parent_header
      metadata identities h =
    let p = or_empty empty parent_header in
    let m = or_empty empty metadata in
    let c = or_empty empty content in
    let frames = dumps header ∷ dumps p ∷ dumps m ∷ dumps c ∷ [] in
    let message =
      to_message (loads (dumps header)) (loads (dumps p)) (loads (dumps m)) (loads (dumps c)) in
    ap (after_split loads msg_sign) (split_wire-append identities (msg_sign frames ∷ frames) h)
    ∙ ap (λ b. with_identities identities (if b then message else none))
        (same_bytes_refl (msg_sign frames))
    ∙ ap
        (λ o.
          with_identities identities
            (to_message o (loads (dumps p)) (loads (dumps m)) (loads (dumps c))))
        (read header)
    ∙ ap
        (λ o.
          with_identities identities
            (to_message (some header) o (loads (dumps m)) (loads (dumps c))))
        (read p)
    ∙ ap (λ o. with_identities identities (to_message (some header) (some p) o (loads (dumps c))))
        (read m)
    ∙ ap (λ o. with_identities identities (to_message (some header) (some p) (some m) o)) (read c)
