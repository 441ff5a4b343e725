-- ===== src/Message/Fragments.antt =====
-- message.py: which ways of fragmenting a message `Message.recv` can put back together.
use mathlib.Core.List.{append-nil}
use native.Mathlib.Nat.{zero-add, sub-zero}
use valve_infra.Base.{
  ◌∙◌, ℕ, ◌+◌, ◌-◌, ◌≤◌, ◌<◌, ◌≡◌, ap, [], ◌∷◌, ◌++◌, length, take, drop, arith, length-append,
  length-take, length-drop,
}
use valve_infra.Base.Lists.{take-append, drop-append, take_all, drop_all, length-replicate}
use valve_infra.Base.Result.{ok, err, value_error}
use valve_infra.Message.Framing.{
  Bytes, Stream, zeroes, write_at, unread, recv_loop, recv, pack_u32, unpack_u32,
}

-- The read that completes the message.
recv_loop_last :
    (n cur off : ℕ) (buf piece : Bytes) (s : Stream)
    → cur < n
    → n - cur ≤ length buf - off
    → n - cur ≤ length piece
    → recv_loop n cur off buf (piece ∷ s)
      ≡ (ok (write_at off (take (n - cur) piece) buf), unread (drop (n - cur) piece) s)
unfolding recv_loop
recv_loop_last n cur off buf [] s wanted room full = absurd (omega arith)
recv_loop_last n cur off buf (b ∷ piece) s wanted room full = ground arith

-- A read that leaves some of the message missing.
recv_loop_more :
    (n cur off : ℕ) (buf piece : Bytes) (s : Stream)
    → cur < n
    → n - cur ≤ length buf - off
    → 0 < length piece
    → length piece < n - cur
    → recv_loop n cur off buf (piece ∷ s)
      ≡ recv_loop n (cur + length piece) (off + (cur + length piece)) (write_at off piece buf) s
unfolding recv_loop
recv_loop_more n cur off buf [] s wanted room some short = absurd (omega arith)
recv_loop_more n cur off buf (b ∷ piece) s wanted room some short =
    rw (take_all (n - cur) (b ∷ piece) (omega arith)) (ground arith)

-- A read that the view has no room for.
recv_loop_stuck :
    (n cur off : ℕ) (buf : Bytes) (s : Stream)
    → cur < n
    → length buf - off < n - cur
    → recv_loop n cur off buf s ≡ (err value_error, s)
unfolding recv_loop
recv_loop_stuck n cur off buf [] wanted room = ground arith
recv_loop_stuck n cur off buf ([] ∷ s) wanted room = ground arith
recv_loop_stuck n cur off buf ((b ∷ piece) ∷ s) wanted room = ground arith

write_at_all : (n : ℕ) (bs buf : Bytes) → length buf ≤ length bs → write_at 0 bs buf ≡ bs
unfolding write_at
write_at_all n bs buf h = rw (drop_all (0 + length bs) buf (omega arith), append-nil)

length-write_at :
    (off : ℕ) (got buf : Bytes)
    → off + length got ≤ length buf
    → length (write_at off got buf) ≡ length buf
unfolding write_at
length-write_at off got buf h =
    rw (length-append, length-append, length-take, length-drop) (omega arith)

-- Two writes, one behind the other, fill the buffer.
write_at_behind :
    (a b buf : Bytes)
    → length buf ≡ length a + length b
    → write_at (0 + (0 + length a)) b (write_at 0 a buf) ≡ a ++ b
unfolding write_at
write_at_behind a b buf h = simp zero-add (
    rw (
      take-append a (drop (length a) buf),
      drop_all (length a + length b) (a ++ drop (length a) buf) room,
      append-nil,
    ))
  where
    room : length (a ++ drop (length a) buf) ≤ length a + length b
    room = omega (arith, length-append a (drop (length a) buf), length-drop (length a) buf)

length-zeroes : (n : ℕ) → length (zeroes n) ≡ n
length-zeroes n = length-replicate n 0

-- A message that one read delivers whole.
pub recv_one_piece :
    (m more : Bytes) (s : Stream)
    → 0 < length m
    → recv (length m) ((m ++ more) ∷ s) ≡ (ok m, unread more s)
unfolding recv
recv_one_piece m more s h =
    recv_loop_last (length m) 0 0 (zeroes (length m)) (m ++ more) s h
      (omega (arith, length-zeroes (length m))) (omega (arith, length-append m more))
    ∙ rw (
      sub-zero,
      take-append,
      drop-append,
      write_at_all (length m) m (zeroes (length m)) (omega (arith, length-zeroes (length m))),
    )

assembled :
    (a b more : Bytes) (s : Stream)
    → let n = length a + length b - (0 + length a) in
      ◌≡◌ {A = Bytes × Stream}
        (
          write_at
              (0 + (0 + length a))
              (take n (b ++ more))
              (write_at 0 a (zeroes (length a + length b))),
          unread (drop n (b ++ more)) s,
        )
        (a ++ b, unread more s)
assembled a b more s =
    let left : length a + length b - (0 + length a) ≡ length b = omega arith in
    rw (
      left,
      take-append,
      drop-append,
      write_at_behind a b (zeroes (length a + length b)) (length-zeroes (length a + length b)),
    )

-- A message that two reads deliver.
pub recv_two_pieces :
    (a b more : Bytes) (s : Stream)
    → 0 < length a
    → 0 < length b
    → recv (length a + length b) (a ∷ (b ++ more) ∷ s) ≡ (ok (a ++ b), unread more s)
unfolding recv
recv_two_pieces a b more s ha hb =
    let n : ℕ = length a + length b in
    let buf : Bytes = zeroes n in
    let full : length buf ≡ n = length-zeroes n in
    recv_loop_more n 0 0 buf a ((b ++ more) ∷ s) (omega arith) (omega arith) ha (omega arith)
    ∙ recv_loop_last n (0 + length a) (0 + (0 + length a)) (write_at 0 a buf) (b ++ more) s
        (omega arith) (omega (arith, length-write_at 0 a buf)) (omega (arith, length-append b more))
    ∙ ap (λ x. (ok x.0, x.1)) (assembled a b more s)

-- A message of which two reads leave something missing.
pub recv_third_read :
    (n : ℕ) (a b : Bytes) (s : Stream)
    → 0 < length a
    → 0 < length b
    → length a + length b < n
    → recv n (a ∷ b ∷ s) ≡ (err value_error, s)
unfolding recv
recv_third_read n a b s ha hb h =
    let buf : Bytes = zeroes n in
    let full : length buf ≡ n = length-zeroes n in
    recv_loop_more n 0 0 buf a (b ∷ s) (omega arith) (omega arith) ha (omega arith)
    ∙ recv_loop_more n (0 + length a) (0 + (0 + length a)) (write_at 0 a buf) b s (omega arith)
        (omega (arith, length-write_at 0 a buf)) hb (omega arith)
    ∙ recv_loop_stuck n (0 + length a + length b) (0 + (0 + length a) + (0 + length a + length b))
        (write_at (0 + (0 + length a)) b (write_at 0 a buf)) s (omega arith)
        (omega (
          arith,
          length-write_at 0 a buf,
          length-write_at (0 + (0 + length a)) b (write_at 0 a buf),
        ))

pub unpack_u32-pack_u32 : (n : ℕ) {head : Bytes} → pack_u32 n ≡ ok head → unpack_u32 head ≡ ok n
unfolding pack_u32 unpack_u32
unpack_u32-pack_u32 n h = ground arith

pub length-pack_u32 : (n : ℕ) {head : Bytes} → pack_u32 n ≡ ok head → length head ≡ 4
unfolding pack_u32
length-pack_u32 n h = ground arith
