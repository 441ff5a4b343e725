-- ===== src/Salad/Console/Pieces.antt =====
-- console.py: how the bytes of a console are cut into reads does not matter.
use valve_infra.Base.{
  append_assoc, ap, sym, ◌∙◌, Bool-cases, inr, inl, ℕ, String, Bool, ◌&&◌, ◌≡◌, refl, List, [], ◌∷◌,
  ◌++◌, arith, ◌==◌, if◌then◌else◌,
}
use valve_infra.Base.Result.{Result, ok, err}
use valve_infra.Base.Action.{
  continue-pure, continue_assoc, continue_ext, pure, continue, ◌>>=◌, ◌>>◌,
}
use valve_infra.Message.Framing.{Bytes}
use valve_infra.Salad.Console.{
  is_tcp_end, send, Stream, Call, process_input_line, process_lines, serial_recv, tcp_recv, Split,
  split, push, at_newline,
}

rest_of_none : (s : Bytes) → (split s).lines ≡ [] → (split s).rest ≡ s
unfolding split
rest_of_none [] h = refl
rest_of_none (b ∷ bs) h = ground (arith, rest_of_none bs)

abbrev joined : Split → Split → Split
joined s t = record { lines = s.lines ++ t.lines; rest = t.rest }

split-cons :
    (b : ℕ) (bs : Bytes)
    → split (b ∷ bs) ≡ (
        if b == 10
        then record (split bs) { lines = [] ∷ (split bs).lines }
        else if (b == 13) && at_newline bs
        then split bs
        else push b (split bs))
unfolding split
split-cons b bs = refl

at_newline-append : (d : ℕ) (a b : Bytes) → at_newline ((d ∷ a) ++ b) ≡ at_newline (d ∷ a)
at_newline-append d a b = refl

push-joined :
    (c : ℕ) (ls : List Bytes) (r whole b : Bytes)
    → (ls ≡ [] → r ≡ whole)
    → split (c ∷ (whole ++ b)) ≡ push c (split (whole ++ b))
    → split (whole ++ b) ≡ joined (record { lines = ls; rest = r }) (split (r ++ b))
    → let s = push c (record { lines = ls; rest = r }) in
      split (c ∷ (whole ++ b)) ≡ joined s (split (s.rest ++ b))
push-joined c [] r whole b all step ih = rw (all refl) refl
push-joined c (l ∷ ls) r whole b all step ih = rw (step, ih) refl

-- A buffer is cut as its two parts are, of which the second goes on where the first stopped.
split-append : (a b : Bytes) → split (a ++ b) ≡ joined (split a) (split ((split a).rest ++ b))
split-append [] b = unfold split in refl
split-append (c ∷ []) b = unfold split in ground arith
split-append (c ∷ d ∷ a) b =
    let ih = split-append (d ∷ a) b in
    let more = (d ∷ a) ++ b in
    elim (Bool-cases (c == 10)) [
      | inl newline ↦ rw (split-cons c more, split-cons c (d ∷ a), newline, ih)
      | inr other ↦ elim (Bool-cases ((c == 13) && at_newline (d ∷ a))) [
        | inl dropped ↦
            rw (split-cons c more, split-cons c (d ∷ a), other, at_newline-append d a b, dropped) ih
        | inr kept ↦
            let step : split (c ∷ more) ≡ push c (split more) =
              rw (split-cons c more, other, at_newline-append d a b, kept) refl in
            rw (split-cons c (d ∷ a), other, kept)
              (push-joined c (split (d ∷ a)).lines (split (d ∷ a)).rest (d ∷ a) b
                (rest_of_none (d ∷ a)) step ih)
      ]
    ]

module _ (decode : Bytes → Result String) (ends : Bytes → Bool) (writes : Result (Unit {0})) where
  process_input_line-line_buffer :
      (line l : Bytes) (s : Stream)
      → process_input_line decode ends writes line (record s { line_buffer = l }) ≡ (
        (process_input_line decode ends writes line s).0,
        record (process_input_line decode ends writes line s).1 { line_buffer = l },
      )
  unfolding process_input_line send
  process_input_line-line_buffer line l s = ground arith

  then_line_buffer :
      (r : Result (Unit {0})) (f : Unit {0} → Call (Unit {0})) (l : Bytes) (s : Stream)
      → ((s : Stream)
          → f tt (record s { line_buffer = l })
            ≡ ((f tt s).0, record (f tt s).1 { line_buffer = l }))
      → continue r f (record s { line_buffer = l })
        ≡ ((continue r f s).0, record (continue r f s).1 { line_buffer = l })
  then_line_buffer (ok _) f l s h = h s
  then_line_buffer (err e) f l s h = refl

  -- The lines are processed the same with any unfinished line.
  process_lines-line_buffer :
      (lines : List Bytes) (l : Bytes) (s : Stream)
      → process_lines decode ends writes lines (record s { line_buffer = l }) ≡ (
        (process_lines decode ends writes lines s).0,
        record (process_lines decode ends writes lines s).1 { line_buffer = l },
      )
  unfolding process_lines
  process_lines-line_buffer [] l s = refl
  process_lines-line_buffer (line ∷ lines) l s = rw (process_input_line-line_buffer line l s) (
      then_line_buffer _ (λ _. process_lines decode ends writes lines) l _
        (process_lines-line_buffer lines l))

  process_lines-append :
      (xs ys : List Bytes) (s : Stream)
      → process_lines decode ends writes (xs ++ ys) s
        ≡ (do process_lines decode ends writes xs; process_lines decode ends writes ys) s
  unfolding process_lines
  process_lines-append [] ys s = refl
  process_lines-append (x ∷ xs) ys s =
      continue_ext (λ _. process_lines decode ends writes (xs ++ ys))
        (λ _. process_lines decode ends writes xs >> process_lines decode ends writes ys) _ _
        (λ _. process_lines-append xs ys)
      ∙ sym (
          continue_assoc (λ _. process_lines decode ends writes xs)
            (λ _. process_lines decode ends writes ys) (process_input_line decode ends writes x s).0
            _)

module _ (decode : Bytes → Result String) (writes : Result (Unit {0})) where
  kept_line_buffer :
      (ends : Bytes → Bool) (lines : List Bytes) (s : Stream)
      → (process_lines decode ends writes lines s).1.line_buffer ≡ s.line_buffer
  kept_line_buffer ends lines s =
      ap (λ p. p.1.line_buffer) (process_lines-line_buffer decode ends writes lines s.line_buffer s)

  first_ok :
      {a : Bytes} (r : Result (Unit {0})) (s : Stream)
      → (continue r (λ _. pure a) s).0 ≡ ok a
      → r ≡ ok tt
  first_ok (ok _) s h = refl
  first_ok (err e) s h = cc

  -- Two reads of a network console, of which the first raises nothing, are as good as one.
  pub tcp_recv-append :
      (a b : Bytes) (s : Stream)
      → (tcp_recv decode writes (ok a) s).0 ≡ ok a
      → tcp_recv decode writes (ok (a ++ b)) s
        ≡ (do x ← tcp_recv decode writes (ok a); y ← tcp_recv decode writes (ok b); pure (x ++ y)) s
  unfolding tcp_recv
  tcp_recv-append a b s fine =
      let cut = split (s.line_buffer ++ a) in
      let run = process_lines decode is_tcp_end writes in
      let s1 = record s { line_buffer = cut.rest } in
      let went = first_ok (run cut.lines s1).0 _ fine in
      let later = split (cut.rest ++ b) in
      let kept = kept_line_buffer is_tcp_end cut.lines s1 in
      let whole : split (s.line_buffer ++ (a ++ b)) ≡ joined cut later =
        rw (sym (append_assoc s.line_buffer a b)) (split-append (s.line_buffer ++ a) b) in
      rw
        (
          whole,
          went,
          kept,
          process_lines-append decode is_tcp_end writes cut.lines later.lines
              (record s { line_buffer = later.rest }),
          process_lines-line_buffer decode is_tcp_end writes cut.lines later.rest s1,
        )
        (rw went (
          sym (
            continue_assoc (λ _. pure b) (λ y. pure (a ++ y))
              (run later.lines (record (run cut.lines s1).1 { line_buffer = later.rest })).0
              (run later.lines (record (run cut.lines s1).1 { line_buffer = later.rest })).1)))

module _ (decode : Bytes → Result String) (ends : Bytes → Bool) (writes : Result (Unit {0})) where
  -- Two reads of a serial console are as good as one, whatever they raise.
  pub serial_recv-append :
      (a b : Bytes) (last : Result (Unit {0})) (s : Stream)
      → serial_recv decode ends writes (a ++ b) last s
        ≡ (do
          x ← serial_recv decode ends writes a (ok tt)
          y ← serial_recv decode ends writes b last
          pure (x ++ y))
            s
  unfolding serial_recv
  serial_recv-append [] b last s = sym (continue-pure _ _)
  serial_recv-append (c ∷ a) b last s =
      let first = serial_recv decode ends writes a (ok tt) in
      let second = serial_recv decode ends writes b last in
      let inner : (s' : Stream)
          → (do r ← serial_recv decode ends writes (a ++ b) last; pure (c ∷ r)) s'
            ≡ ((first >>= λ r. pure (c ∷ r)) >>= λ x. second >>= λ y. pure (x ++ y)) s' =
        λ s'. rw (serial_recv-append a b last s') (
          continue_assoc (λ x. second >>= λ y. pure (x ++ y)) (λ r. pure (c ∷ r)) (first s').0
            (first s').1
          ∙ continue_ext _ _ _ _ (λ x w.
            continue_assoc (λ y. pure (x ++ y)) (λ r. pure (c ∷ r)) (second w).0 (second w).1)
          ∙ sym (
              continue_assoc (λ r. pure (c ∷ r)) (λ x. second >>= λ y. pure (x ++ y)) (first s').0
                (first s').1)) in
      continue_ext _ _ _ _ (λ _. inner)
      ∙ sym (
          continue_assoc (λ _. first >>= λ r. pure (c ∷ r)) (λ x. second >>= λ y. pure (x ++ y)) _
            _)
