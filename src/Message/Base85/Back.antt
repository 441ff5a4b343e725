-- ===== src/Message/Base85/Back.antt =====
-- Base 85 text reads back.
use valve_infra.Base.{
  ℕ, zero, suc, ◌+◌, ◌*◌, ◌/◌, ◌%◌, ◌<◌, ◌≤◌, ◌≡◌, refl, ap, sym, subst, ◌∙◌, Bool, true, false,
  ◌&&◌, Option, none, some, List, [], ◌∷◌, ◌++◌, ◌==◌, arith, All, take, Bool-cases, inl, inr,
}
use valve_infra.Base.Result.{ok}
use valve_infra.Message.Framing.{Bytes}
use valve_infra.Message.Base85.{
  alphabet, char_of, char, digit_of, digit_at, word, chars_of, pack, unpack, cut, digit, joined,
  b85encode, b85decode, create, buffer,
}

abbrev is_digit : Option ℕ → ℕ → Bool
is_digit none n = false
is_digit (some m) n = m == n

abbrev checks : ℕ → Bool
checks zero = true
checks (suc n) = let rest = checks n in is_digit (digit_of (char n) alphabet) n && rest

all_checked : checks 85 ≡ true
unfolding digit_of char_of
all_checked = refl

is_digit_lem : (o : Option ℕ) (n : ℕ) → is_digit o n ≡ true → o ≡ some n
is_digit_lem none n h = cc
is_digit_lem (some m) n h = ap some (ground arith)

both : (a b : Bool) → (a && b) ≡ true → (a ≡ true) × (b ≡ true)
both true true h = (refl, refl)
both true false h = cc
both false b h = cc

checked : (n m : ℕ) → checks m ≡ true → n < m → is_digit (digit_of (char n) alphabet) n ≡ true
checked n zero h lt = absurd (omega arith)
checked n (suc m) h lt =
    let (here, rest) = both (is_digit (digit_of (char m) alphabet) m) (checks m) h in
    elim (Bool-cases (n == m)) [
      | inl e ↦
          let same : n ≡ m = ground (arith, e) in
          subst (λ k. is_digit (digit_of (char k) alphabet) k ≡ true) (sym same) here
      | inr e ↦ checked n m rest (ground (arith, e))
    ]

-- A digit is read back from its character.
digit_back : (n : ℕ) → n < 85 → digit_at (char n) ≡ ok n
digit_back n h = ap digit (is_digit_lem (digit_of (char n) alphabet) n (checked n 85 all_checked h))

unpack_five :
    (d1 d2 d3 d4 d5 : ℕ)
    → d1 < 85
    → d2 < 85
    → d3 < 85
    → d4 < 85
    → d5 < 85
    → unpack (char d1) (char d2) (char d3) (char d4) (char d5)
      ≡ pack ((((d1 * 85 + d2) * 85 + d3) * 85 + d4) * 85 + d5)
unfolding unpack
unpack_five d1 d2 d3 d4 d5 h1 h2 h3 h4 h5 =
    rw (digit_back d1 h1, digit_back d2 h2, digit_back d3 h3, digit_back d4 h4, digit_back d5 h5)
      refl

pack_four :
    (a b c d acc : ℕ)
    → a < 256
    → b < 256
    → c < 256
    → d < 256
    → acc ≡ word a b c d
    → pack acc ≡ ok (a ∷ b ∷ c ∷ d ∷ [])
unfolding pack
pack_four a b c d acc ha hb hc hd h = ground arith

pack_three :
    (a b c acc : ℕ)
    → a < 256
    → b < 256
    → c < 256
    → word a b c 0 ≤ acc
    → acc < word a b c 0 + 256
    → cut 3 (pack acc) ≡ ok (a ∷ b ∷ c ∷ [])
unfolding pack
pack_three a b c acc ha hb hc low high = ground arith

pack_two :
    (a b acc : ℕ)
    → a < 256
    → b < 256
    → word a b 0 0 ≤ acc
    → acc < word a b 0 0 + 65536
    → cut 2 (pack acc) ≡ ok (a ∷ b ∷ [])
unfolding pack
pack_two a b acc ha hb low high = ground arith

pack_one :
    (a acc : ℕ)
    → a < 256
    → word a 0 0 0 ≤ acc
    → acc < word a 0 0 0 + 16777216
    → cut 1 (pack acc) ≡ ok (a ∷ [])
unfolding pack
pack_one a acc ha low high = ground arith

back_one : (a : ℕ) → a < 256 → b85decode (take 2 (chars_of (word a 0 0 0))) ≡ ok (a ∷ [])
unfolding b85decode chars_of char_of
back_one a ha =
    let w = word a 0 0 0 in
    ap (cut 1) (
      unpack_five (w / 85 / 85 / 85 / 85) (w / 85 / 85 / 85 % 85) 84 84 84 (omega arith)
        (omega arith) (omega arith) (omega arith) (omega arith))
    ∙ pack_one a _ ha (omega arith) (omega arith)

back_two :
    (a b : ℕ) → a < 256 → b < 256 → b85decode (take 3 (chars_of (word a b 0 0))) ≡ ok (a ∷ b ∷ [])
unfolding b85decode chars_of char_of
back_two a b ha hb =
    let w = word a b 0 0 in
    ap (cut 2) (
      unpack_five (w / 85 / 85 / 85 / 85) (w / 85 / 85 / 85 % 85) (w / 85 / 85 % 85) 84 84
        (omega arith) (omega arith) (omega arith) (omega arith) (omega arith))
    ∙ pack_two a b _ ha hb (omega arith) (omega arith)

back_three :
    (a b c : ℕ)
    → a < 256
    → b < 256
    → c < 256
    → b85decode (take 4 (chars_of (word a b c 0))) ≡ ok (a ∷ b ∷ c ∷ [])
unfolding b85decode chars_of char_of
back_three a b c ha hb hc =
    let w = word a b c 0 in
    ap (cut 3) (
      unpack_five (w / 85 / 85 / 85 / 85) (w / 85 / 85 / 85 % 85) (w / 85 / 85 % 85) (w / 85 % 85)
        84 (omega arith) (omega arith) (omega arith) (omega arith) (omega arith))
    ∙ pack_three a b c _ ha hb hc (omega arith) (omega arith)

back_four :
    (a b c d : ℕ) (s : List ℕ)
    → a < 256
    → b < 256
    → c < 256
    → d < 256
    → b85decode (chars_of (word a b c d) ++ s) ≡ joined (ok (a ∷ b ∷ c ∷ d ∷ [])) (b85decode s)
unfolding b85decode chars_of
back_four a b c d s ha hb hc hd =
    let w = word a b c d in
    ap (λ r. joined r (b85decode s))
      (unpack_five (w / 85 / 85 / 85 / 85) (w / 85 / 85 / 85 % 85) (w / 85 / 85 % 85) (w / 85 % 85)
          (w % 85) (omega arith) (omega arith) (omega arith) (omega arith) (omega arith)
        ∙ pack_four a b c d _ ha hb hc hd (omega arith))

-- The bytes of a `JobIOMessage` are those that it was created with, whatever their number.
pub buffer-create : (buf : Bytes) → All (λ b. b < 256) buf → buffer (create buf) ≡ ok buf
unfolding buffer create b85encode b85decode
buffer-create [] h = refl
buffer-create (a ∷ []) (ha, h) = back_one a ha
buffer-create (a ∷ b ∷ []) (ha, (hb, h)) = back_two a b ha hb
buffer-create (a ∷ b ∷ c ∷ []) (ha, (hb, (hc, h))) = back_three a b c ha hb hc
buffer-create (a ∷ b ∷ c ∷ d ∷ s) (ha, (hb, (hc, (hd, h)))) =
    back_four a b c d (b85encode s) ha hb hc hd
    ∙ ap (joined (ok (a ∷ b ∷ c ∷ d ∷ []))) (buffer-create s h)
