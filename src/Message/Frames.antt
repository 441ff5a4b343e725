-- ===== src/Message/Frames.antt =====
-- message.py: what `send` writes is what `next_message` reads, and when it is not.
use mathlib.Core.List.{append-nil, append_assoc}
use valve_infra.Base.{
  ℕ, ◌+◌, ◌≤◌, ◌<◌, ◌^◌, ◌/◌, ◌%◌, ◌≡◌, refl, ◌∙◌, [], ◌∷◌, ◌++◌, length, length-append, arith,
}
use valve_infra.Base.Result.{Result, ok, err, value_error, struct_error}
use valve_infra.Message.Framing.{Bytes, Stream, unread, recv, pack_u32, frame, prefixed, next_frame}
use valve_infra.Message.Fragments.{
  recv_one_piece, recv_third_read, unpack_u32-pack_u32, length-pack_u32,
}

frame_parts :
    (payload : Bytes) (r : Result Bytes) {bytes : Bytes}
    → prefixed payload r ≡ ok bytes
    → (head : Bytes) × (r ≡ ok head) × (bytes ≡ head ++ payload)
frame_parts payload (ok head) h = (head, refl, cc)
frame_parts payload (err e) h = cc

recv_zero : (s : Stream) → recv 0 s ≡ (ok [], s)
unfolding recv
recv_zero [] = refl
recv_zero ([] ∷ s) = refl
recv_zero ((b ∷ p) ∷ s) = refl

-- The body, whatever its size, in what the header's read has left.
recv_body :
    (m more : Bytes) (s : Stream) → recv (length m) (unread (m ++ more) s) ≡ (ok m, unread more s)
unfolding unread
recv_body [] more s = recv_zero (unread more s)
recv_body (b ∷ m) more s = recv_one_piece (b ∷ m) more s (omega arith)

header_read :
    (n : ℕ) (head more : Bytes) (s : Stream)
    → pack_u32 n ≡ ok head
    → recv 4 ((head ++ more) ∷ s) ≡ (ok head, unread more s)
header_read n head more s h =
    let four : length head ≡ 4 = length-pack_u32 n h in
    rw four at (recv_one_piece head more s (omega arith))

next_frame-recv :
    (n : ℕ) (head more : Bytes) (s : Stream)
    → pack_u32 n ≡ ok head
    → next_frame ((head ++ more) ∷ s) ≡ recv n (unread more s)
unfolding next_frame
next_frame-recv n head more s h = rw (header_read n head more s h, unpack_u32-pack_u32 n h)

-- A frame that arrives in one piece is read back as the payload that was sent, and the bytes
-- behind it stay in the socket.
pub next_frame-frame :
    (payload more : Bytes) (s : Stream) {bytes : Bytes}
    → frame payload ≡ ok bytes
    → next_frame ((bytes ++ more) ∷ s) ≡ (ok payload, unread more s)
unfolding frame
next_frame-frame payload more s h =
    let (head, packed, eq) = frame_parts payload (pack_u32 (length payload)) h in
    rw (eq, append_assoc)
      (next_frame-recv (length payload) head (payload ++ more) s packed ∙ recv_body payload more s)

pack_u32_total : (n : ℕ) → n < 2 ^ 32 → (head : Bytes) × (pack_u32 n ≡ ok head) × (length head ≡ 4)
unfolding pack_u32
pack_u32_total n h =
    ((n / 2 ^ 24) ∷ (n / 2 ^ 16 % 256) ∷ (n / 2 ^ 8 % 256) ∷ (n % 256) ∷ [], ground arith, refl)

-- A payload shorter than 2^32 bytes is sent as a frame of four bytes more.
frame_total :
    (payload : Bytes)
    → length payload < 2 ^ 32
    → (bytes : Bytes) × (frame payload ≡ ok bytes) × (length bytes ≡ length payload + 4)
unfolding frame
frame_total payload h =
    let (head, packed, four) = pack_u32_total (length payload) h in
    (head ++ payload, rw packed, omega (arith, length-append head payload))

-- A longer one is refused.
frame_too_long : (payload : Bytes) → 2 ^ 32 ≤ length payload → frame payload ≡ err struct_error
unfolding frame pack_u32
frame_too_long payload h = ground arith

-- A frame whose header came in one piece and whose body comes in pieces: where two reads do not
-- complete the body, the message is refused and the pieces read so far are gone, although the
-- peer sent every byte of it.
pub next_frame_fragmented :
    (payload a b : Bytes) (s : Stream) {head : Bytes}
    → pack_u32 (length payload) ≡ ok head
    → 0 < length a
    → 0 < length b
    → length a + length b < length payload
    → next_frame (head ∷ a ∷ b ∷ s) ≡ (err value_error, s)
unfolding unread
next_frame_fragmented payload a b s {head} h ha hb short =
    rw append-nil at (next_frame-recv (length payload) head [] (a ∷ b ∷ s) h)
    ∙ recv_third_read (length payload) a b s ha hb short
