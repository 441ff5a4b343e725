-- ===== src/Message/Base85.antt =====
-- `JobIOMessage` of message.py: the bytes of the console as base 85 text, which is what Python's
-- `base64.b85encode` and `b85decode` make of them; characters are numbers.
pub mod Back
use valve_infra.Base.{
  ℕ, zero, suc, ◌+◌, ◌*◌, ◌/◌, ◌%◌, ◌^◌, Option, none, some, List, [], ◌∷◌, ◌++◌, ltb, ◌==◌,
  if◌then◌else◌, take,
}
use valve_infra.Base.Text.{codes}
use valve_infra.Base.Result.{Result, ok, err, value_error, ◌>>=◌, ◌>>◌}
use valve_infra.Message.Framing.{Bytes}

abbrev pub alphabet : List ℕ
alphabet =
    codes "0123456789ABCDEFGHIJKLMNOPQRSTUVWXYZabcdefghijklmnopqrstuvwxyz!#$%&()*+-;<=>?@^_`{|}~"

-- The character of a digit.
unfoldable pub char_of : ℕ → List ℕ → ℕ
char_of n [] = 0
char_of zero (c ∷ cs) = c
char_of (suc n) (c ∷ cs) = char_of n cs

abbrev pub next : Option ℕ → Option ℕ
next none = none
next (some n) = some (suc n)

-- The digit of a character.
unfoldable pub digit_of : ℕ → List ℕ → Option ℕ
digit_of c [] = none
digit_of c (d ∷ ds) = let rest = digit_of c ds in if d == c then some 0 else next rest

abbrev pub word : ℕ → ℕ → ℕ → ℕ → ℕ
word a b c d = ((a * 256 + b) * 256 + c) * 256 + d

abbrev pub char : ℕ → ℕ
char n = char_of n alphabet

-- The five characters of a word.
unfoldable pub chars_of : ℕ → List ℕ
unfolding char_of
chars_of w =
    char (w / 85 / 85 / 85 / 85)
    ∷ char (w / 85 / 85 / 85 % 85)
    ∷ char (w / 85 / 85 % 85)
    ∷ char (w / 85 % 85)
    ∷ char (w % 85)
    ∷ []

-- `base64.b85encode`: a last word that is not whole is filled with zeroes, and as many characters
-- are dropped.
unfoldable pub b85encode : Bytes → List ℕ
unfolding chars_of
b85encode [] = []
b85encode (a ∷ []) = take 2 (chars_of (word a 0 0 0))
b85encode (a ∷ b ∷ []) = take 3 (chars_of (word a b 0 0))
b85encode (a ∷ b ∷ c ∷ []) = take 4 (chars_of (word a b c 0))
b85encode (a ∷ b ∷ c ∷ d ∷ s) = chars_of (word a b c d) ++ b85encode s

abbrev pub digit : Option ℕ → Result ℕ
digit none = err value_error
digit (some n) = ok n

abbrev pub digit_at : ℕ → Result ℕ
digit_at c = digit (digit_of c alphabet)

-- `struct.pack("!I", acc)`
unfoldable pub pack : ℕ → Result Bytes
pack acc =
    if ltb acc (2 ^ 32)
    then ok ((acc / 2 ^ 24) ∷ (acc / 2 ^ 16 % 256) ∷ (acc / 2 ^ 8 % 256) ∷ (acc % 256) ∷ [])
    else err value_error

-- A chunk of five characters.
unfoldable pub unpack : ℕ → ℕ → ℕ → ℕ → ℕ → Result Bytes
unfolding pack digit_of
unpack c1 c2 c3 c4 c5 = do
  d1 ← digit_at c1
  d2 ← digit_at c2
  d3 ← digit_at c3
  d4 ← digit_at c4
  d5 ← digit_at c5
  pack ((((d1 * 85 + d2) * 85 + d3) * 85 + d4) * 85 + d5)

-- `~`
abbrev pub fill : ℕ
fill = 126

abbrev pub cut : ℕ → Result Bytes → Result Bytes
cut n (ok bytes) = ok (take n bytes)
cut n (err e) = err e

abbrev pub joined : Result Bytes → Result Bytes → Result Bytes
joined first rest = do bytes ← first; more ← rest; ok (bytes ++ more)

-- `base64.b85decode`
unfoldable pub b85decode : List ℕ → Result Bytes
unfolding unpack
b85decode [] = ok []
b85decode (c1 ∷ []) = cut 0 (unpack c1 fill fill fill fill)
b85decode (c1 ∷ c2 ∷ []) = cut 1 (unpack c1 c2 fill fill fill)
b85decode (c1 ∷ c2 ∷ c3 ∷ []) = cut 2 (unpack c1 c2 c3 fill fill)
b85decode (c1 ∷ c2 ∷ c3 ∷ c4 ∷ []) = cut 3 (unpack c1 c2 c3 c4 fill)
b85decode (c1 ∷ c2 ∷ c3 ∷ c4 ∷ c5 ∷ s) = joined (unpack c1 c2 c3 c4 c5) (b85decode s)

-- `JobIOMessage.create`, as far as its payload, and `JobIOMessage.buffer`.
unfoldable pub create : Bytes → List ℕ
unfolding b85encode
create buf = b85encode buf

unfoldable pub buffer : List ℕ → Result Bytes
unfolding b85decode
buffer payload = b85decode payload
