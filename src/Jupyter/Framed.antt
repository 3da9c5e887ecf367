-- ===== src/Jupyter/Framed.antt =====
-- `recv` of custom_components/pyscript/jupyter_kernel.py reads what `send_multipart` writes.
use pyscript.Base.{
  ℕ, zero, suc, ◌+◌, ◌<◌, ◌==◌, nat_key, true, false, ◌||◌, ◌≡◌, refl, inl, inr, Option, none, some,
  List, [], ◌∷◌, ◌++◌, if◌then◌else◌, leb, arith, ap, sym, ◌∙◌, Bool-cases,
}
use Prim.Native.Nat.{◌*◌, ◌/◌, ◌%◌}
use mathlib.Core.Path.{subst}
use mathlib.Core.List.{append_assoc}
use pyscript.Base.Lists.{length, length-append}
use pyscript.Jupyter.{
  Bytes, pack, unpack, cons_read, read_bytes, bit, and_body, packed_length, with_cmd, next_frame,
  on_frame, recv, frame, send_multipart, read_command,
}

-- 256 ^ w
abbrev pub bound : ℕ → ℕ
bound zero = 1
bound (suc w) = bound w * 256

unpack-append : (n : ℕ) (xs : Bytes) (b : ℕ) → unpack n (xs ++ b ∷ []) ≡ unpack n xs * 256 + b
unfolding unpack
unpack-append n [] b = refl
unpack-append n (x ∷ xs) b = unpack-append (n * 256 + x) xs b

unpack-pack : (w n : ℕ) → n < bound w → unpack 0 (pack w n) ≡ n
unfolding unpack pack
unpack-pack zero n h = omega (arith, h)
unpack-pack (suc w) n h =
    unpack-append 0 (pack w (n / 256)) (n % 256)
    ∙ ap (λ m. m * 256 + n % 256) (unpack-pack w (n / 256) (omega (arith, h)))
    ∙ omega arith

length-pack : (w n : ℕ) → length (pack w n) ≡ w
unfolding pack
length-pack zero n = refl
length-pack (suc w) n =
    length-append (pack w (n / 256)) (n % 256 ∷ []) ∙ omega (arith, length-pack w (n / 256))

read_bytes-append : (xs rest : Bytes) → read_bytes (length xs) (xs ++ rest) ≡ some (xs, rest)
unfolding read_bytes
read_bytes-append [] rest = refl
read_bytes-append (x ∷ xs) rest = ap (cons_read x) (read_bytes-append xs rest)

next_frame-short :
    (cmd : ℕ) (part rest : Bytes)
    → bit 2 cmd ≡ false
    → next_frame (cmd ∷ length part ∷ (part ++ rest)) ≡ some (cmd, part, rest)
unfolding next_frame read_bytes unpack
next_frame-short cmd part rest e =
    let one : 0 * 256 + length part ≡ length part = omega arith in
    ap
      (λ b.
        with_cmd cmd (
          and_body
            (packed_length (read_bytes (if b then 8 else 1) (length part ∷ (part ++ rest))))))
      e
    ∙ ap (λ n. with_cmd cmd (read_bytes n (part ++ rest))) one
    ∙ ap (with_cmd cmd) (read_bytes-append part rest)

next_frame-long :
    (cmd : ℕ) (part rest : Bytes)
    → bit 2 cmd ≡ true
    → length part < bound 8
    → next_frame (cmd ∷ (pack 8 (length part) ++ (part ++ rest))) ≡ some (cmd, part, rest)
unfolding next_frame
next_frame-long cmd part rest e h =
    let packed = pack 8 (length part) in
    let stream = packed ++ (part ++ rest) in
    let eight : read_bytes 8 stream ≡ some (packed, part ++ rest) =
      ap (λ w. read_bytes w stream) (sym (length-pack 8 (length part)))
      ∙ read_bytes-append packed (part ++ rest) in
    ap (λ b. with_cmd cmd (and_body (packed_length (read_bytes (if b then 8 else 1) stream)))) e
    ∙ ap (λ o. with_cmd cmd (and_body (packed_length o))) eight
    ∙ ap (λ n. with_cmd cmd (read_bytes n (part ++ rest))) (unpack-pack 8 (length part) h)
    ∙ ap (with_cmd cmd) (read_bytes-append part rest)

-- what is done with the frame of a part, whether its length takes one byte or eight
frame_cases :
    (P : Bytes → Type 0) (cmd : ℕ) (part rest : Bytes)
    → P (cmd ∷ length part ∷ (part ++ rest))
    → P ((cmd + 2) ∷ (pack 8 (length part) ++ (part ++ rest)))
    → P (frame cmd part ++ rest)
frame_cases P cmd part rest short long = elim (Bool-cases (leb (length part) 255)) [
  | inl e ↦
      subst
        (λ b. P (
          (if b then cmd ∷ length part ∷ part else (cmd + 2) ∷ pack 8 (length part) ++ part)
          ++ rest))
        (sym e) short
  | inr e ↦
      subst
        (λ b. P (
          (if b then cmd ∷ length part ∷ part else (cmd + 2) ∷ pack 8 (length part) ++ part)
          ++ rest))
        (sym e)
        (subst (λ l. P ((cmd + 2) ∷ l)) (sym (append_assoc (pack 8 (length part)) part rest)) long)
]

abbrev handled : ℕ → List Bytes → ℕ → Bytes → Bytes → Option (List Bytes × Bytes)
handled fuel parts cmd msg_body rest =
    let next = recv fuel parts rest in
    let more = recv fuel (parts ++ msg_body ∷ []) rest in
    if bit 4 cmd
    then if read_command msg_body then next else none
    else if cmd == 0 || cmd == 2
    then some (parts ++ msg_body ∷ [], rest)
    else more

recv-last :
    (fuel : ℕ) (parts : List Bytes) (part rest : Bytes)
    → length part < bound 8
    → recv (suc fuel) parts (frame 0 part ++ rest) ≡ some (parts ++ part ∷ [], rest)
unfolding recv
recv-last fuel parts part rest h =
    frame_cases (λ l. recv (suc fuel) parts l ≡ some (parts ++ part ∷ [], rest)) 0 part rest
      (ap (λ o. on_frame o (handled fuel parts)) (next_frame-short 0 part rest refl))
      (ap (λ o. on_frame o (handled fuel parts)) (next_frame-long 2 part rest refl h))

recv-more :
    (fuel : ℕ) (parts : List Bytes) (part rest : Bytes)
    → length part < bound 8
    → recv (suc fuel) parts (frame 1 part ++ rest) ≡ recv fuel (parts ++ part ∷ []) rest
unfolding recv
recv-more fuel parts part rest h =
    frame_cases (λ l. recv (suc fuel) parts l ≡ recv fuel (parts ++ part ∷ []) rest) 1 part rest
      (ap (λ o. on_frame o (handled fuel parts)) (next_frame-short 1 part rest refl))
      (ap (λ o. on_frame o (handled fuel parts)) (next_frame-long 3 part rest refl h))

abbrev pub AllShort : List Bytes → Type 0
AllShort [] = Unit
AllShort (part ∷ parts) = (length part < bound 8) × AllShort parts

-- `recv` with multipart gives the parts that `send_multipart` was called with, and leaves what
-- follows them, for one part or more, each shorter than 2 ^ 64 bytes, as the length has eight bytes;
-- fuel for each part is enough.
pub recv-send_multipart :
    (fuel : ℕ) (part : Bytes) (parts : List Bytes) (so_far : List Bytes) (rest : Bytes)
    → length parts < fuel
    → AllShort (part ∷ parts)
    → recv fuel so_far (send_multipart (part ∷ parts) ++ rest) ≡ some (so_far ++ part ∷ parts, rest)
unfolding send_multipart
recv-send_multipart zero part parts so_far rest h s = ground arith
recv-send_multipart (suc fuel) part [] so_far rest h (s, u) = recv-last fuel so_far part rest s
recv-send_multipart (suc fuel) part (next ∷ parts) so_far rest h (s, u) =
    ap (λ l. recv (suc fuel) so_far l)
      (append_assoc (frame 1 part) (send_multipart (next ∷ parts)) rest)
    ∙ recv-more fuel so_far part (send_multipart (next ∷ parts) ++ rest) s
    ∙ recv-send_multipart fuel next parts (so_far ++ part ∷ []) rest (omega (arith, h)) u
    ∙ ap (λ l. some (l, rest)) (append_assoc so_far (part ∷ []) (next ∷ parts))
