-- ===== src/Jupyter.antt =====
-- The frames of the Jupyter kernel (custom_components/pyscript/jupyter_kernel.py, class `ZmqSocket`):
-- what it writes for a message and how it reads one. A byte is a number; what can be read is the list
-- of the bytes that will come. None is an exception: EOFError, IndexError or struct.error.
pub mod Messages
mod Framed
mod Signed
mod Tests
use pyscript.Base.{
  ℕ, zero, suc, ◌+◌, ◌==◌, nat_key, Bool, true, false, ◌||◌, Option, none, some, List, [], ◌∷◌,
  ◌++◌, if◌then◌else◌, leb, ltb,
}
use Prim.Native.Nat.{◌*◌, ◌/◌, ◌%◌}
use pyscript.Base.Lists.{length}

abbrev pub Bytes : Type 0
Bytes = List ℕ

-- `pack(">Q", n)` for 8 bytes, `pack(">L", n)` for 4; what is above is cut off here, and an error there
unfoldable pub pack : ℕ → ℕ → Bytes
pack zero n = []
pack (suc w) n = pack w (n / 256) ++ (n % 256) ∷ []

-- `unpack(">Q", bytes)`, from what has been read of it
unfoldable pub unpack : ℕ → Bytes → ℕ
unpack n [] = n
unpack n (b ∷ bytes) = unpack (n * 256 + b) bytes

abbrev pub cons_read : ℕ → Option (Bytes × Bytes) → Option (Bytes × Bytes)
cons_read b none = none
cons_read b (some r) = some (b ∷ r.0, r.1)

-- `read_bytes`, with the bytes that are left
unfoldable pub read_bytes : ℕ → Bytes → Option (Bytes × Bytes)
read_bytes zero stream = some ([], stream)
read_bytes (suc num_bytes) [] = none
read_bytes (suc num_bytes) (b ∷ stream) = cons_read b (read_bytes num_bytes stream)

abbrev pub bit : ℕ → ℕ → Bool
bit mask cmd = (cmd / mask) % 2 == 1

-- the frame of a command, of a message, and the bytes after it
abbrev pub and_body : Option (ℕ × Bytes) → Option (Bytes × Bytes)
and_body none = none
and_body (some r) = read_bytes r.0 r.1

abbrev pub packed_length : Option (Bytes × Bytes) → Option (ℕ × Bytes)
packed_length none = none
packed_length (some r) = some (unpack 0 r.0, r.1)

abbrev pub read_length : ℕ → Bytes → Option (ℕ × Bytes)
read_length cmd stream = packed_length (read_bytes (if bit 2 cmd then 8 else 1) stream)

abbrev pub drop : ℕ → Bytes → Bytes
drop zero l = l
drop (suc n) [] = []
drop (suc n) (b ∷ l) = drop n l

abbrev pub first : ℕ → Bytes → Bytes
first zero l = []
first (suc n) [] = []
first (suc n) (b ∷ l) = b ∷ first n l

-- whether the parameters of a command can be read; each takes five bytes or more
unfoldable pub read_params : ℕ → Bytes → Bool
read_params zero body = false
read_params (suc fuel) [] = true
read_params (suc fuel) (param_len ∷ body) =
    let after = drop param_len body in
    let rest = read_params fuel (drop (4 + unpack 0 (first 4 after)) after) in
    if ltb (length after) 4 then false else rest

unfoldable pub read_command : Bytes → Bool
read_command [] = false
read_command (cmd_len ∷ body) =
    let params = drop cmd_len body in read_params (suc (length params)) params

-- a frame: its command byte with its body
abbrev pub with_cmd : ℕ → Option (Bytes × Bytes) → Option (ℕ × Bytes × Bytes)
with_cmd cmd none = none
with_cmd cmd (some r) = some (cmd, r.0, r.1)

unfoldable pub next_frame : Bytes → Option (ℕ × Bytes × Bytes)
next_frame [] = none
next_frame (cmd ∷ stream) = with_cmd cmd (and_body (read_length cmd stream))

-- the parts of a message, with the bytes after it
abbrev pub on_frame :
    Option (ℕ × Bytes × Bytes)
    → (ℕ → Bytes → Bytes → Option (List Bytes × Bytes))
    → Option (List Bytes × Bytes)
on_frame none go = none
on_frame (some f) go = go f.0 f.1 f.2

-- `recv`, with multipart, and with the parts so far; the fuel is a bound of the frames
unfoldable pub recv : ℕ → List Bytes → Bytes → Option (List Bytes × Bytes)
recv zero parts stream = none
recv (suc fuel) parts stream = on_frame (next_frame stream) (λ cmd msg_body rest.
    let next = recv fuel parts rest in
    let more = recv fuel (parts ++ msg_body ∷ []) rest in
    if bit 4 cmd
    then if read_command msg_body then next else none
    else if cmd == 0 || cmd == 2
    then some (parts ++ msg_body ∷ [], rest)
    else more)

-- one part, with the bit of the parts that others follow
abbrev pub frame : ℕ → Bytes → Bytes
frame cmd part =
    if leb (length part) 255
    then cmd ∷ length part ∷ part
    else (cmd + 2) ∷ pack 8 (length part) ++ part

-- `send_multipart`
unfoldable pub send_multipart : List Bytes → Bytes
send_multipart [] = []
send_multipart (part ∷ []) = frame 0 part
send_multipart (part ∷ next ∷ parts) = frame 1 part ++ send_multipart (next ∷ parts)
