-- ===== src/Message/Framing.antt =====
-- message.py: `Message.recv`, and the length prefix that `send` writes and `next_message` reads.
--
-- A socket is what the peer still has to deliver: each list of bytes is what one call of
-- `recv_into` finds, cut to the size that is asked for. No list, or an empty one, is the end of
-- the connection, on which `recv_into` returns 0.
use valve_infra.Base.{
  ℕ, ◌+◌, ◌-◌, ◌*◌, ◌/◌, ◌%◌, ◌^◌, List, [], ◌∷◌, ◌++◌, length, take, drop, replicate, ltb,
  if◌then◌else◌,
}
use valve_infra.Base.Result.{Result, ok, err, eof_error, value_error, struct_error}

abbrev pub Bytes : Type 0
Bytes = List ℕ

abbrev pub Stream : Type 0
Stream = List Bytes

-- `buf[off : off + len(data)] = data`, through the memory view at `off`.
unfoldable pub write_at : ℕ → Bytes → Bytes → Bytes
write_at off got buf = take off buf ++ got ++ drop (off + length got) buf

-- What a read leaves of the piece that it took its bytes from.
unfoldable pub unread : Bytes → Stream → Stream
unread [] s = s
unread (b ∷ bs) s = (b ∷ bs) ∷ s

-- The loop of `recv`. The view starts at `off` in `buf`: `view[cur:]` moves it by the running
-- total. A piece that holds all that is missing ends the loop; a shorter one is used up, so the
-- loop recurs on the stream. `recv_into` refuses to read more bytes than the view has room for.
unfoldable pub recv_loop : ℕ → ℕ → ℕ → Bytes → Stream → Result Bytes × Stream
recv_loop n cur off buf [] =
    if ltb cur n
    then (if ltb (length buf - off) (n - cur) then err value_error else err eof_error, [])
    else (ok buf, [])
recv_loop n cur off buf ([] ∷ s) =
    if ltb cur n
    then (if ltb (length buf - off) (n - cur) then err value_error else err eof_error, [] ∷ s)
    else (ok buf, [] ∷ s)
recv_loop n cur off buf ((b ∷ piece) ∷ s) =
    let got = take (n - cur) (b ∷ piece) in
    let cur' = cur + length got in
    let rest = recv_loop n cur' (off + cur') (write_at off got buf) s in
    if ltb cur n
    then (if ltb (length buf - off) (n - cur)
        then (err value_error, (b ∷ piece) ∷ s)
        else if ltb (length (b ∷ piece)) (n - cur)
        then rest
        else (ok (write_at off got buf), unread (drop (n - cur) (b ∷ piece)) s))
    else (ok buf, (b ∷ piece) ∷ s)

-- `bytearray(length)`
abbrev pub zeroes : ℕ → Bytes
zeroes n = replicate n 0

-- `Message.recv`
unfoldable pub recv : ℕ → Stream → Result Bytes × Stream
unfolding recv_loop
recv n s = recv_loop n 0 0 (zeroes n) s

-- `struct.pack("!I", n)`
unfoldable pub pack_u32 : ℕ → Result Bytes
pack_u32 n =
    if ltb n (2 ^ 32)
    then ok ((n / 2 ^ 24) ∷ (n / 2 ^ 16 % 256) ∷ (n / 2 ^ 8 % 256) ∷ (n % 256) ∷ [])
    else err struct_error

-- `struct.unpack("!I", data)[0]`
unfoldable pub unpack_u32 : Bytes → Result ℕ
unpack_u32 (a ∷ b ∷ c ∷ d ∷ []) = ok (a * 2 ^ 24 + b * 2 ^ 16 + c * 2 ^ 8 + d)
unpack_u32 _ = err struct_error

abbrev pub prefixed : Bytes → Result Bytes → Result Bytes
prefixed payload (ok head) = ok (head ++ payload)
prefixed payload (err e) = err e

-- `Message.send`, from the encoded payload to the bytes that it hands to the socket.
unfoldable pub frame : Bytes → Result Bytes
unfolding pack_u32
frame payload = prefixed payload (pack_u32 (length payload))

abbrev pub body : Result ℕ → Stream → Result Bytes × Stream
body (ok n) s = recv n s
body (err e) s = (err e, s)

abbrev pub header : Result Bytes → Result ℕ
header (ok bytes) = unpack_u32 bytes
header (err e) = err e

-- `Message.next_message`, up to the bytes that it decodes.
unfoldable pub next_frame : Stream → Result Bytes × Stream
unfolding recv unpack_u32
next_frame s = let (head, s') = recv 4 s in body (header head) s'
