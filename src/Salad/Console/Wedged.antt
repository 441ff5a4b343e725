-- ===== src/Salad/Console/Wedged.antt =====
-- console.py: a serial console that named a machine by bytes that do not decode.
use valve_infra.Base.{
  String, Bool, false, ◌≡◌, ◌≢◌, refl, some, [], ◌∷◌, ◌++◌, arith, ◌==◌, All, append_assoc,
}
use valve_infra.Base.Text.{codes}
use valve_infra.Base.Result.{Result, err, Exception}
use valve_infra.Message.Framing.{Bytes}
use valve_infra.Salad.Console.{
  Stream, process_input_line, serial_recv, find_id, word, behind, word_of, id_here,
}

word_line : (l m : Bytes) → word (l ++ 10 ∷ m) ≡ word (l ++ 10 ∷ [])
unfolding word
word_line [] m = refl
word_line (c ∷ l) m = ground (arith, word_line l m)

behind_line :
    (ps l m : Bytes)
    → All (λ p. p ≢ 10) ps
    → word_of (behind ps (l ++ 10 ∷ m)) ≡ word_of (behind ps (l ++ 10 ∷ []))
unfolding behind
behind_line [] l m h = rw (word_line l m)
behind_line (p ∷ ps) [] m h = ground (arith, h.0)
behind_line (p ∷ ps) (c ∷ l) m h = ground (arith, behind_line ps l m h.1)

id_here_line : (l m : Bytes) → id_here (l ++ 10 ∷ m) ≡ id_here (l ++ 10 ∷ [])
unfolding id_here
id_here_line l m = behind_line (codes "SALAD.machine_id=") l m (omega arith)

-- The name is looked for in the first line only.
find_id_line : (l m : Bytes) → find_id (l ++ 10 ∷ m) ≡ find_id (l ++ 10 ∷ [])
unfolding find_id
find_id_line [] m = id_here_line [] m
find_id_line (c ∷ l) m = ground (arith, find_id_line l m, id_here_line (c ∷ l) m)

module _ (decode : Bytes → Result String) (ends : Bytes → Bool) (writes : Result (Unit {0})) where
  -- Once the first line that a serial console keeps names a machine by bytes that do not decode,
  -- every read that ends a line raises, no byte of it is returned, and that line stays the first.
  pub serial_recv_wedged :
      (l m before after : Bytes) (last : Result (Unit {0})) (s : Stream) {name : Bytes}
      {e : Exception}
      → s.line_buffer ≡ l ++ 10 ∷ m
      → find_id (l ++ 10 ∷ []) ≡ some name
      → decode name ≡ err e
      → All (λ b. b ≢ 10) before
      → serial_recv decode ends writes (before ++ 10 ∷ after) last s
        ≡ (err e, record s { line_buffer = l ++ 10 ∷ (m ++ (before ++ 10 ∷ [])) })
  unfolding serial_recv process_input_line
  serial_recv_wedged l m [] after last s held names bad plain =
      rw (held, append_assoc l (10 ∷ m) (10 ∷ []), find_id_line l (m ++ 10 ∷ []), names, bad) refl
  serial_recv_wedged l m (b ∷ before) after last s held names bad plain =
      let held' : s.line_buffer ++ b ∷ [] ≡ l ++ 10 ∷ (m ++ b ∷ []) =
        rw held (append_assoc l (10 ∷ m) (b ∷ [])) in
      let ih =
        serial_recv_wedged l (m ++ b ∷ []) before after last
          (record s { line_buffer = s.line_buffer ++ b ∷ [] }) held' names bad plain.1 in
      let passed : (b == 10) ≡ false = ground (arith, plain.0) in
      rw (passed, ih, append_assoc m (b ∷ []) (before ++ 10 ∷ [])) refl
