-- ===== src/Minio/BucketName.antt =====
-- minioclient.py: `MinioClient.create_valid_bucket_name`, on the bytes of an ASCII name.
--
-- `is_ip` is whether the standard library reads a name as an IP address.
use valve_infra.Base.{
  leb→gt, min, leb→le, ℕ, zero, suc, ◌≤◌, ◌<◌, ◌≡◌, refl, Bool, true, false, ◌&&◌, ◌||◌, [], ◌∷◌,
  ◌++◌, arith, ltb, leb, ◌==◌, length, take, if◌then◌else◌, All, Bool-cases, inl, inr, ◌∙◌, ap,
  length-append, length-take,
}
use valve_infra.Base.Result.{Result, ok, ◌>>◌}
use valve_infra.Message.Framing.{Bytes}

abbrev pub between : ℕ → ℕ → ℕ → Bool
between lo hi c = leb lo c && leb c hi

-- A lower case letter or a digit.
abbrev is_alnum : ℕ → Bool
is_alnum c = between 97 122 c || between 48 57 c

abbrev pub is_dash_or_dot : ℕ → Bool
is_dash_or_dot c = (c == 45) || (c == 46)

abbrev pub is_valid : ℕ → Bool
is_valid c = is_alnum c || is_dash_or_dot c

-- `re.sub(r'[^a-z0-9\-\.]', '-', base_name)`
unfoldable pub clean : Bytes → Bytes
clean [] = []
clean (c ∷ cs) = (if is_valid c then c else 45) ∷ clean cs

abbrev pub first : Bytes → ℕ
first [] = 0
first (c ∷ cs) = c

abbrev pub last : Bytes → ℕ
last [] = 0
last (c ∷ []) = c
last (c ∷ d ∷ cs) = last (d ∷ cs)

-- `name.startswith('xn--')`
unfoldable starts_with_xn : Bytes → Bool
starts_with_xn (a ∷ b ∷ c ∷ d ∷ cs) = (a == 120) && (b == 110) && (c == 45) && (d == 45)
starts_with_xn cs = false

unfoldable at_least_three : Bytes → Bytes
at_least_three name = if ltb (length name) 3 then (98 ∷ 45 ∷ 45 ∷ []) ++ name else name

unfoldable fix_start : Bytes → Bytes
unfolding starts_with_xn
fix_start name = if starts_with_xn name || is_dash_or_dot (first name) then 120 ∷ name else name

unfoldable fix_end : Bytes → Bytes
fix_end name = if is_dash_or_dot (last name) then name ++ 120 ∷ [] else name

unfoldable avoid_ip : (Bytes → Bool) → Bytes → Bytes
avoid_ip is_ip name = if is_ip name then (105 ∷ 112 ∷ 45 ∷ []) ++ name else name

unfoldable pub cut : Bytes → Bytes
cut name = if leb 63 (length name) then take 63 name else name

-- The name that `create_valid_bucket_name` makes.
unfoldable pub valid_name : (Bytes → Bool) → Bytes → Bytes
unfolding clean at_least_three fix_start fix_end avoid_ip cut
valid_name is_ip base_name =
    cut (avoid_ip is_ip (fix_end (fix_start (at_least_three (clean base_name)))))

-- `create_valid_bucket_name`; `check` is the MinIO library's `check_bucket_name`.
unfoldable pub create_valid_bucket_name :
    (Bytes → Result (Unit {0})) → (Bytes → Bool) → Bytes → Result Bytes
unfolding valid_name
create_valid_bucket_name check is_ip base_name =
    let name = valid_name is_ip base_name in check name >> ok name

abbrev IsValid : Bytes → Type 0
IsValid = All (λ c. is_valid c ≡ true)

clean-IsValid : (cs : Bytes) → IsValid (clean cs)
unfolding clean
clean-IsValid [] = tt
clean-IsValid (c ∷ cs) = (ground arith, clean-IsValid cs)

append-IsValid : (xs ys : Bytes) → IsValid xs → IsValid ys → IsValid (xs ++ ys)
append-IsValid [] ys h k = k
append-IsValid (x ∷ xs) ys h k = (h.0, append-IsValid xs ys h.1 k)

take-IsValid : (n : ℕ) (xs : Bytes) → IsValid xs → IsValid (take n xs)
take-IsValid zero xs h = tt
take-IsValid (suc n) [] h = tt
take-IsValid (suc n) (x ∷ xs) h = (h.0, take-IsValid n xs h.1)

-- The steps, with what holds after each: enough bytes, all valid.
record Named (name : Bytes) : Type 0 where
  valid : IsValid name
  long : 3 ≤ length name

three-Named : (name : Bytes) → IsValid name → Named (at_least_three name)
unfolding at_least_three
three-Named name v = elim (Bool-cases (ltb (length name) 3)) [
  | inl short ↦ record {
    valid = rw (short) (refl, (refl, (refl, v)));
    long = rw (short) (omega arith);
  }
  | inr long ↦ record { valid = rw (long) v; long = rw (long) (ground (arith, long)) }
]

-- And a good start.
record Started (name : Bytes) : Type 0 where
  named : Named name
  start : is_dash_or_dot (first name) ≡ false

start-Started : (name : Bytes) → Named name → Started (fix_start name)
unfolding fix_start
start-Started name h = elim (Bool-cases (starts_with_xn name || is_dash_or_dot (first name))) [
  | inl bad ↦ record {
    named = record { valid = rw (bad) (refl, h.valid); long = rw (bad) (omega (arith, h.long)) };
    start = rw (bad) refl;
  }
  | inr good ↦ record {
    named = record { valid = rw (good) h.valid; long = rw (good) h.long };
    start = rw (good) (ground (arith, good));
  }
]

first-append : (xs ys : Bytes) → 0 < length xs → first (xs ++ ys) ≡ first xs
first-append [] ys h = absurd (omega (arith, h))
first-append (x ∷ xs) ys h = refl

last-snoc : (xs : Bytes) (y : ℕ) → last (xs ++ y ∷ []) ≡ y
last-snoc [] y = refl
last-snoc (x ∷ []) y = refl
last-snoc (x ∷ z ∷ xs) y = last-snoc (z ∷ xs) y

last-append : (xs ys : Bytes) → 0 < length ys → last (xs ++ ys) ≡ last ys
last-append [] ys h = refl
last-append (x ∷ []) [] h = absurd (omega (arith, h))
last-append (x ∷ []) (y ∷ ys) h = refl
last-append (x ∷ z ∷ xs) ys h = last-append (z ∷ xs) ys h

-- And a good end.
record Ended (name : Bytes) : Type 0 where
  started : Started name
  end : is_dash_or_dot (last name) ≡ false

end-Ended : (name : Bytes) → Started name → Ended (fix_end name)
unfolding fix_end
end-Ended name h = elim (Bool-cases (is_dash_or_dot (last name))) [
  | inl bad ↦ record {
    started = record {
      named = record {
        valid = rw (bad) (append-IsValid name (120 ∷ []) h.named.valid (refl, tt));
        long = rw (bad) (omega (arith, length-append name (120 ∷ []), h.named.long));
      };
      start = rw (bad) (
          ap is_dash_or_dot (first-append name (120 ∷ []) (omega (arith, h.named.long))) ∙ h.start);
    };
    end = rw (bad) (ap is_dash_or_dot (last-snoc name 120));
  }
  | inr good ↦ record {
    started = record {
      named = record { valid = rw (good) h.named.valid; long = rw (good) h.named.long };
      start = rw (good) h.start;
    };
    end = rw (good) good;
  }
]

ip-Ended : (is_ip : Bytes → Bool) (name : Bytes) → Ended name → Ended (avoid_ip is_ip name)
unfolding avoid_ip
ip-Ended is_ip name h = elim (Bool-cases (is_ip name)) [
  | inl ip ↦ record {
    started = record {
      named = record {
        valid = rw (ip) (refl, (refl, (refl, h.started.named.valid)));
        long = rw (ip) (omega arith);
      };
      start = rw (ip) refl;
    };
    end = rw (ip) (
        ap is_dash_or_dot
          (last-append (105 ∷ 112 ∷ 45 ∷ []) name (omega (arith, h.started.named.long)))
        ∙ h.end);
  }
  | inr other ↦ record {
    started = record {
      named = record {
        valid = rw (other) h.started.named.valid;
        long = rw (other) h.started.named.long;
      };
      start = rw (other) h.started.start;
    };
    end = rw (other) h.end;
  }
]

first-take : (xs : Bytes) → first (take 63 xs) ≡ first xs
first-take [] = refl
first-take (x ∷ xs) = refl

whole : (n k : ℕ) → 63 ≤ n → k ≡ min 63 n → k ≡ 63
whole n k h e = omega arith

full : (b : Bool) (k : ℕ) → k ≡ 63 → (b && ltb k 63) ≡ false
full b k e = ground (arith, e)

cut_lem :
    (name : Bytes)
    → Ended name
    → let n = cut name in
      All (λ c. is_valid c ≡ true) n
      × (3 ≤ length n)
      × (length n ≤ 63)
      × (is_dash_or_dot (first n) ≡ false)
      × ((is_dash_or_dot (last n) && ltb (length n) 63) ≡ false)
unfolding cut
cut_lem name h =
    let short = h.started.named.long in
    elim (Bool-cases (leb 63 (length name))) [
      | inl long ↦
          let n =
            whole (length name) (length (take 63 name)) (leb→le 63 (length name) long)
              (length-take 63 name) in
          rw (long) (
            take-IsValid 63 name h.started.named.valid,
            omega (arith, n),
            omega (arith, n),
            ap is_dash_or_dot (first-take name) ∙ h.started.start,
            full (is_dash_or_dot (last (take 63 name))) (length (take 63 name)) n,
          )
      | inr fits ↦ rw (fits) (
        h.started.named.valid,
        short,
        omega (arith, leb→gt 63 (length name) fits),
        h.started.start,
        rw (h.end) refl,
      )
    ]

valid_name_lem :
    (is_ip : Bytes → Bool) (base_name : Bytes)
    → let n = valid_name is_ip base_name in
      All (λ c. is_valid c ≡ true) n
      × (3 ≤ length n)
      × (length n ≤ 63)
      × (is_dash_or_dot (first n) ≡ false)
      × ((is_dash_or_dot (last n) && ltb (length n) 63) ≡ false)
unfolding valid_name
valid_name_lem is_ip base_name =
    let three = three-Named (clean base_name) (clean-IsValid base_name) in
    let started = start-Started (at_least_three (clean base_name)) three in
    let ended = end-Ended (fix_start (at_least_three (clean base_name))) started in
    cut_lem (avoid_ip is_ip (fix_end (fix_start (at_least_three (clean base_name)))))
      (ip-Ended is_ip (fix_end (fix_start (at_least_three (clean base_name)))) ended)

-- Whatever the name that is asked for, the one that is made of it, which is returned if the MinIO
-- library's own check lets it pass, has only lower case letters, digits, dashes and dots, between 3
-- and 63 of them, and starts with a letter or digit. It ends with one too, unless it has all 63: the
-- cut to that length comes last and can end on a dash or a dot.
pub create_valid_bucket_name_lem :
    (check : Bytes → Result (Unit {0})) (is_ip : Bytes → Bool) (base_name : Bytes)
    → let n = valid_name is_ip base_name in
      (create_valid_bucket_name check is_ip base_name ≡ (check n >> ok n))
      × All (λ c. is_valid c ≡ true) n
      × (3 ≤ length n)
      × (length n ≤ 63)
      × (is_dash_or_dot (first n) ≡ false)
      × ((is_dash_or_dot (last n) && ltb (length n) 63) ≡ false)
unfolding create_valid_bucket_name
create_valid_bucket_name_lem check is_ip base_name =
    let (valid, long, short, start, end) = valid_name_lem is_ip base_name in
    (refl, valid, long, short, start, end)
