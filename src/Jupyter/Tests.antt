-- ===== src/Jupyter/Tests.antt =====
-- Messages of the Jupyter kernel on small inputs.
use pyscript.Base.{ℕ, Option, List, ◌+◌, ◌≡◌, refl, none, some, [], ◌∷◌, ◌++◌, arith}
use Prim.{tt}
use pyscript.Jupyter.{
  pack, unpack, read_bytes, next_frame, read_params, read_command, recv, send_multipart,
}
use pyscript.Jupyter.Framed.{recv-send_multipart}
use pyscript.Jupyter.Messages.{deserialize_wire_msg, sent_parts, delim, split_wire}
use pyscript.Jupyter.Signed.{deserialize_wire_msg-sent_parts}

send_multipart_test : send_multipart ((1 ∷ 2 ∷ []) ∷ (3 ∷ []) ∷ []) ≡ 1 ∷ 2 ∷ 1 ∷ 2 ∷ 0 ∷ 1 ∷ 3 ∷ []
unfolding send_multipart
send_multipart_test = refl

-- a command without parameters is passed over
command_test : recv 2 [] (4 ∷ 2 ∷ 1 ∷ 65 ∷ 0 ∷ 1 ∷ 3 ∷ []) ≡ some ((3 ∷ []) ∷ [], [])
unfolding recv next_frame read_command read_params read_bytes unpack
command_test = refl

-- the stream ends inside a frame
ends_test : recv 2 [] (0 ∷ 5 ∷ 1 ∷ []) ≡ none
unfolding recv next_frame read_bytes unpack
ends_test = refl

pack_test : pack 4 66051 ≡ 0 ∷ 1 ∷ 2 ∷ 3 ∷ []
unfolding pack
pack_test = refl

recv-send_multipart_example :
    recv 3 [] (send_multipart ((1 ∷ 2 ∷ []) ∷ (3 ∷ []) ∷ []) ++ 9 ∷ [])
    ≡ some ((1 ∷ 2 ∷ []) ∷ (3 ∷ []) ∷ [], 9 ∷ [])
recv-send_multipart_example =
    recv-send_multipart 3 (1 ∷ 2 ∷ []) ((3 ∷ []) ∷ []) [] (9 ∷ []) (omega arith)
      (omega arith, (omega arith, tt))

-- a dict is a number here, and its text one byte
abbrev loads : List ℕ → Option ℕ
loads [] = none
loads (b ∷ bytes) = some b

-- one byte that depends on the first bytes
abbrev sign : List (List ℕ) → List ℕ
sign ((b ∷ f) ∷ frames) = (b + 1) ∷ []
sign frames = []

-- another signature
forged_test :
    deserialize_wire_msg loads sign
      (delim ∷ (9 ∷ []) ∷ (1 ∷ []) ∷ (0 ∷ []) ∷ (0 ∷ []) ∷ (0 ∷ []) ∷ [])
    ≡ none
unfolding deserialize_wire_msg split_wire
forged_test = refl

deserialize_wire_msg-sent_parts_example :
    deserialize_wire_msg loads sign
      (sent_parts (λ j. j ∷ []) 0 sign 1 (some 2) none none ((7 ∷ []) ∷ []))
    ≡ some ((7 ∷ []) ∷ [], record { header = 1; parent_header = 0; metadata = 0; content = 2 })
deserialize_wire_msg-sent_parts_example =
    deserialize_wire_msg-sent_parts loads (λ j. j ∷ []) 0 sign (λ j. refl) 1 (some 2) none none
      ((7 ∷ []) ∷ []) refl
