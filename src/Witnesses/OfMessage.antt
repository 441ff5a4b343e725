-- ===== src/Witnesses/OfMessage.antt =====
-- Messages: runs of the theorems.
use valve_infra.Base.{◌≡◌, refl, [], ◌∷◌, ◌++◌, arith}
use valve_infra.Base.Result.{ok, err, value_error}
use valve_infra.Message.Base85.{buffer, create}
use valve_infra.Message.Base85.Back.{buffer-create}
use valve_infra.Message.Framing.{Bytes, frame, next_frame, pack_u32, unread}
use valve_infra.Message.Frames.{next_frame-frame, next_frame_fragmented}

abbrev hello : Bytes
hello = 72 ∷ 105 ∷ 33 ∷ []

abbrev head : Bytes
head = 0 ∷ 0 ∷ 0 ∷ 3 ∷ []

next_frame-frame_example :
    next_frame (((head ++ hello) ++ 7 ∷ []) ∷ []) ≡ (ok hello, unread (7 ∷ []) [])
unfolding frame
next_frame-frame_example = next_frame-frame hello (7 ∷ []) [] refl

next_frame_fragmented_example :
    next_frame (head ∷ (72 ∷ []) ∷ (105 ∷ []) ∷ (33 ∷ []) ∷ []) ≡ (err value_error, (33 ∷ []) ∷ [])
unfolding pack_u32
next_frame_fragmented_example =
    next_frame_fragmented hello (72 ∷ []) (105 ∷ []) ((33 ∷ []) ∷ []) refl (omega arith)
      (omega arith) (omega arith)

buffer-create_example : buffer (create (255 ∷ 0 ∷ 7 ∷ [])) ≡ ok (255 ∷ 0 ∷ 7 ∷ [])
buffer-create_example =
    buffer-create (255 ∷ 0 ∷ 7 ∷ []) (omega arith, (omega arith, (omega arith, tt)))
