-- ===== src/Boots/Mac.antt =====
-- boots.py: the spellings of a hardware address that `split_mac_addr` accepts.
use valve_infra.Base.{
  suc, ◌∙◌, subst, none, ◌==◌, ap, some, length, Option, ℕ, ◌≡◌, refl, true, false, List, [], ◌∷◌,
  arith, All, map,
}
use valve_infra.Base.Result.{ok}
use valve_infra.Message.Framing.{Bytes}
use valve_infra.Boots.{
  onto, pieces, split_at, by_two, lower, is_hex, is_delim, split_mac_addr, pair, pairs, group,
  then_pair, again,
}

hex_no_delim : (c : ℕ) → is_hex c ≡ true → is_delim c ≡ false
hex_no_delim c h = ground arith

-- Pairs of digits, each behind the delimiter, if there is one.
abbrev pub prefixed : Option ℕ → List (ℕ × ℕ) → Bytes
prefixed o [] = []
prefixed none ((a, b) ∷ ps) = a ∷ b ∷ prefixed none ps
prefixed (some d) ((a, b) ∷ ps) = d ∷ a ∷ b ∷ prefixed (some d) ps

abbrev pub written : Option ℕ → ℕ × ℕ → List (ℕ × ℕ) → Bytes
written o (a, b) ps = a ∷ b ∷ prefixed o ps

abbrev pub IsDelim : Option ℕ → Type 0
IsDelim none = Unit
IsDelim (some d) = is_delim d ≡ true

abbrev pub IsPair : ℕ × ℕ → Type 0
IsPair (a, b) = (is_hex (lower a) ≡ true) × (is_hex (lower b) ≡ true)

abbrev pub lowered : ℕ × ℕ → Bytes
lowered (a, b) = lower a ∷ lower b ∷ []

lower_delim : (d : ℕ) → is_delim d ≡ true → lower d ≡ d
lower_delim d h = ground arith

pair_hex : (a b : ℕ) (s : Bytes) → is_hex a ≡ true → is_hex b ≡ true → pair (a ∷ b ∷ s) ≡ some s
unfolding pair
pair_hex a b s ha hb = rw (ha, hb)

pairs_next :
    (o : Option ℕ) (n : ℕ) (s t : Bytes)
    → then_pair (again o s) ≡ some t
    → pairs o (suc n) (some s) ≡ pairs o n (some t)
unfolding pairs
pairs_next o n s t h = ap (pairs o n) h

again_delim : (c : ℕ) (s : Bytes) → again (some c) (c ∷ s) ≡ some s
again_delim c s = ground arith

pairs-prefixed :
    (o : Option ℕ) (ps : List (ℕ × ℕ))
    → IsDelim o
    → All IsPair ps
    → pairs o (length ps) (some (map lower (prefixed o ps))) ≡ some []
pairs-prefixed none [] d h = unfold pairs in refl
pairs-prefixed (some c) [] d h = unfold pairs in refl
pairs-prefixed none ((a, b) ∷ ps) d ((ha, hb), hs) =
    pairs_next none (length ps) _ (map lower (prefixed none ps)) (pair_hex _ _ _ ha hb)
    ∙ pairs-prefixed none ps d hs
pairs-prefixed (some c) ((a, b) ∷ ps) d ((ha, hb), hs) =
    pairs_next (some c) (length ps) _ (map lower (prefixed (some c) ps)) (
      rw (lower_delim c d, again_delim c (lower a ∷ lower b ∷ map lower (prefixed (some c) ps)))
        (pair_hex _ _ _ ha hb))
    ∙ pairs-prefixed (some c) ps d hs

not_delim : (a c : ℕ) → is_hex a ≡ true → is_delim c ≡ true → (a == c) ≡ false
not_delim a c h d = ground arith

split_at_other :
    (a c : ℕ) (s : Bytes) → (a == c) ≡ false → split_at c (a ∷ s) ≡ onto a (split_at c s)
unfolding split_at
split_at_other a c s h = rw h

split_at_delim : (c : ℕ) (s : Bytes) → split_at c (c ∷ s) ≡ [] ∷ split_at c s
unfolding split_at
split_at_delim c s = ground arith

pieces_by_two :
    (p : ℕ × ℕ) (ps : List (ℕ × ℕ)) → by_two (map lower (written none p ps)) ≡ map lowered (p ∷ ps)
unfolding by_two
pieces_by_two (a, b) [] = refl
pieces_by_two (a, b) (q ∷ ps) = ap (λ t. lowered (a, b) ∷ t) (pieces_by_two q ps)

module _ (c : ℕ) (d : is_delim c ≡ true) where
  split_pair :
      (a b : ℕ) (s : Bytes) (ps : List Bytes)
      → is_hex a ≡ true
      → is_hex b ≡ true
      → split_at c s ≡ [] ∷ ps
      → split_at c (a ∷ b ∷ s) ≡ (a ∷ b ∷ []) ∷ ps
  split_pair a b s ps ha hb rest =
      rw
        (
          split_at_other a c (b ∷ s) (not_delim a c ha d),
          split_at_other b c s (not_delim b c hb d),
          rest,
        )
        refl

  pieces_split_at :
      (p : ℕ × ℕ) (ps : List (ℕ × ℕ))
      → IsPair p
      → All IsPair ps
      → split_at c (map lower (written (some c) p ps)) ≡ map lowered (p ∷ ps)
  pieces_split_at (a, b) [] (ha, hb) hs = split_pair _ _ [] [] ha hb (unfold split_at in refl)
  pieces_split_at (a, b) (q ∷ ps) (ha, hb) (hq, hs) =
      split_pair _ _ _ (map lowered (q ∷ ps)) ha hb
        (rw (lower_delim c d) (split_at_delim c _ ∙ ap (λ t. [] ∷ t) (pieces_split_at q ps hq hs)))

pieces-written :
    (o : Option ℕ) (p : ℕ × ℕ) (ps : List (ℕ × ℕ))
    → IsDelim o
    → IsPair p
    → All IsPair ps
    → pieces o (map lower (written o p ps)) ≡ map lowered (p ∷ ps)
pieces-written none p ps d h hs = pieces_by_two p ps
pieces-written (some c) p ps d h hs = pieces_split_at c d p ps h hs

group_found :
    (o : Option ℕ) (q : ℕ × ℕ) (qs : List (ℕ × ℕ))
    → IsDelim o
    → IsPair q
    → let (d, rest) = group (some (map lower (prefixed o (q ∷ qs)))) in
      (d ≡ o) × (then_pair rest ≡ some (map lower (prefixed o qs)))
group_found none (a, b) qs d (ha, hb) = rw (hex_no_delim (lower a) ha) (refl, pair_hex _ _ _ ha hb)
group_found (some c) (a, b) qs d (ha, hb) = rw (lower_delim c d, d) (refl, pair_hex _ _ _ ha hb)

-- Six pairs of hexadecimal digits of either case, with nothing between them or with one dash or
-- one colon, each time the same, are split into the six pairs, in lower case.
pub split_mac_addr_lem :
    (o : Option ℕ) (p q : ℕ × ℕ) (qs : List (ℕ × ℕ))
    → IsDelim o
    → IsPair p
    → IsPair q
    → All IsPair qs
    → length qs ≡ 4
    → split_mac_addr (written o p (q ∷ qs)) ≡ ok (map lowered (p ∷ q ∷ qs))
unfolding split_mac_addr
split_mac_addr_lem o p q qs d (ha, hb) hq hqs four =
    let (same, rest) = group_found o q qs d hq in
    let ends : pairs o 4 (some (map lower (prefixed o qs))) ≡ some [] =
      subst (λ n. pairs o n (some (map lower (prefixed o qs))) ≡ some []) four
        (pairs-prefixed o qs d hqs) in
    rw
      (
        pair_hex (lower p.0) (lower p.1) (map lower (prefixed o (q ∷ qs))) ha hb,
        same,
        rest,
        ends,
        pieces-written o p (q ∷ qs) d (ha, hb) (hq, hqs),
      )
      refl
