-- ===== src/Bench/Runner/Lines/Done.antt =====
-- bench/src/bin/runner.rs and publisher.rs: the line DONE is read back.
use cyclonedds_rs.Common.{
  ℕ, ◌+◌, ◌-◌, ◌*◌, ◌%◌, ◌<◌, ◌≡◌, refl, ap, ◌∙◌, some, Bool, true, false, [], ◌∷◌, ◌++◌, ltb, ◌==◌,
  ◌&&◌, not, Text, codes, accepted, arith, lt→ltb, Bool-cases, inl, inr,
}
use mathlib.Core.List.{append_assoc, append-nil}
use cyclonedds_rs.InterfaceGen.Types.{decimal, digits}
use cyclonedds_rs.InterfaceGen.Types.Decimals.{
  value_from, decimal_value, AllDigits, no_digits, one_digit, decimal-AllDigits,
}
use cyclonedds_rs.Bench.Runner.Lines.{
  line, is_whitespace, emit, split_whitespace, strip_prefix, starts_with, find_value, parse_value,
  parse_digits, parse_nonempty, parse_unsigned, u64_limit, u128_limit, number_of, Sent, done_of,
  receive_publisher_line, done_line,
}

-- No character is whitespace.
unfoldable pub is_word : Text → Bool
unfolding is_whitespace
is_word [] = true
is_word (c ∷ text) = not (is_whitespace c) && is_word text

is_word-append : (xs ys : Text) → is_word xs ≡ true → is_word ys ≡ true → is_word (xs ++ ys) ≡ true
unfolding is_word
is_word-append [] ys a b = b
is_word-append (c ∷ xs) ys a b = ground (arith, is_word-append xs ys)

digits-is_word : (text : Text) → AllDigits text → is_word text ≡ true
unfolding is_word
digits-is_word [] no_digits = refl
digits-is_word (c ∷ text) (one_digit _ _ l h a) = ground (arith, digits-is_word text a)

head_dark :
    (c : ℕ) (text : Text)
    → is_word (c ∷ text) ≡ true
    → (is_whitespace c ≡ false) × (is_word text ≡ true)
unfolding is_word
head_dark c text w = ground arith

-- A word, then a space.
split_word :
    (begun word text : Text)
    → is_word word ≡ true
    → split_whitespace begun (word ++ (32 ∷ text)) ≡ emit (begun ++ word) (split_whitespace [] text)
unfolding split_whitespace is_word
split_word begun [] text w = rw append-nil refl
split_word begun (c ∷ word) text w =
    let (c', w') = head_dark c word w in
    rw c' (
      split_word (begun ++ (c ∷ [])) word text w'
      ∙ ap (λ x. emit x (split_whitespace [] text)) (append_assoc begun (c ∷ []) word))

split_last :
    (begun word : Text)
    → is_word word ≡ true
    → split_whitespace begun word ≡ emit (begun ++ word) []
unfolding split_whitespace is_word
split_last begun [] w = rw append-nil refl
split_last begun (c ∷ word) w =
    let (c', w') = head_dark c word w in
    rw c' (
      split_last (begun ++ (c ∷ [])) word w'
      ∙ ap (λ x. emit x []) (append_assoc begun (c ∷ []) word))

parse_digits_lem :
    (limit acc : ℕ) (text : Text)
    → AllDigits text
    → value_from acc text < limit
    → parse_digits limit acc text ≡ some (value_from acc text)
unfolding parse_digits value_from
parse_digits_lem limit acc [] no_digits h = rw (lt→ltb acc limit h) refl
parse_digits_lem limit acc (c ∷ text) (one_digit _ _ l h' a) h =
    ground (arith, parse_digits_lem limit (acc * 10 + (c - b'0')) text a h)

-- A number is read back from its decimal digits.
AllDigits-head : (c : ℕ) (text : Text) → AllDigits (c ∷ text) → (c == b'+') ≡ false
AllDigits-head c text (one_digit _ _ l h a) = ground arith

append-ne_nil : (xs : Text) (c : ℕ) → xs ++ (c ∷ []) ≡ [] → ⊥
append-ne_nil [] c h = cc
append-ne_nil (x ∷ xs) c h = cc

decimal-ne_nil : (n : ℕ) → decimal n ≡ [] → ⊥
unfolding decimal digits
decimal-ne_nil n h = elim (Bool-cases (ltb n 10)) [
  | inl e ↦ absurd (append-ne_nil [] (b'0' + n) (rw (e, digits) at h))
  | inr e ↦ append-ne_nil _ (b'0' + n % 10) (rw (e, digits) at h)
]

parse_unsigned_digits :
    (limit : ℕ) (text : Text)
    → (text ≡ [] → ⊥)
    → AllDigits text
    → value_from 0 text < limit
    → parse_unsigned limit text ≡ some (value_from 0 text)
unfolding parse_unsigned parse_nonempty
parse_unsigned_digits limit [] n a h = absurd (n refl)
parse_unsigned_digits limit (c ∷ text) n a h =
    rw (AllDigits-head c text a) (parse_digits_lem limit 0 (c ∷ text) a h)

number_of-decimal :
    (limit n : ℕ) (key : Text) → n < limit → number_of limit key (some (decimal n)) ≡ accepted n
unfolding number_of
number_of-decimal limit n key h =
    let e =
      parse_unsigned_digits limit (decimal n) (decimal-ne_nil n) (decimal-AllDigits n)
        (rw decimal_value h) in
    rw (e ∙ ap some (decimal_value n), number_of) refl

-- The fields of the line.
done_line-fields :
    (run_id : Text) (messages bytes elapsed : ℕ)
    → is_word run_id ≡ true
    → split_whitespace [] (done_line run_id messages bytes elapsed)
      ≡ codes "DONE"
        ∷ (codes "role=publisher"
            ∷ ((codes "run_id=" ++ run_id)
                ∷ ((codes "messages_sent=" ++ decimal messages)
                    ∷ ((codes "bytes_sent=" ++ decimal bytes)
                        ∷ ((codes "elapsed_ns=" ++ decimal elapsed) ∷ [])))))
unfolding done_line emit is_word
done_line-fields run_id messages bytes elapsed w =
    let dark = λ (n : ℕ). digits-is_word (decimal n) (decimal-AllDigits n) in
    split_word [] (codes "DONE") _ refl
    ∙ ap (λ x. emit (codes "DONE") x)
        (split_word [] (codes "role=publisher") _ refl
          ∙ ap (λ x. emit (codes "role=publisher") x)
              (split_word [] (codes "run_id=" ++ run_id) _ w
                ∙ ap (λ x. emit (codes "run_id=" ++ run_id) x)
                    (split_word [] (codes "messages_sent=" ++ decimal messages) _ (dark messages)
                      ∙ ap (λ x. emit (codes "messages_sent=" ++ decimal messages) x)
                          (split_word [] (codes "bytes_sent=" ++ decimal bytes) _ (dark bytes)
                            ∙ ap (λ x. emit (codes "bytes_sent=" ++ decimal bytes) x)
                                (split_last [] (codes "elapsed_ns=" ++ decimal elapsed)
                                  (dark elapsed))))))

module _ (run_id : Text) (messages bytes elapsed : ℕ) (w : is_word run_id ≡ true) where
  done_line-starts : starts_with (codes "DONE ") (done_line run_id messages bytes elapsed) ≡ true
  unfolding starts_with strip_prefix done_line
  done_line-starts = refl

  done_line-messages_sent :
      parse_value (done_line run_id messages bytes elapsed) (codes "messages_sent")
      ≡ some (decimal messages)
  unfolding parse_value find_value strip_prefix
  done_line-messages_sent = rw (done_line-fields run_id messages bytes elapsed w) refl

  done_line-bytes_sent :
      parse_value (done_line run_id messages bytes elapsed) (codes "bytes_sent")
      ≡ some (decimal bytes)
  unfolding parse_value find_value strip_prefix
  done_line-bytes_sent = rw (done_line-fields run_id messages bytes elapsed w) refl

  done_of-done_line :
      messages < u64_limit
      → bytes < u128_limit
      → done_of (done_line run_id messages bytes elapsed) ≡ accepted (some messages, some bytes)
  unfolding done_of
  done_of-done_line m b =
      rw
        (
          done_line-messages_sent,
          number_of-decimal u64_limit messages (codes "messages_sent") m,
          done_line-bytes_sent,
          number_of-decimal u128_limit bytes (codes "bytes_sent") b,
        )
        refl

-- The line DONE of the publisher, for a run_id without whitespace, a number of messages below 2^64 and
-- a number of bytes below 2^128: the runner takes just these two numbers from it.
pub receive_publisher_line-done_line :
    (run_id : Text) (messages bytes elapsed : ℕ) (sent : Sent)
    → is_word run_id ≡ true
    → messages < u64_limit
    → bytes < u128_limit
    → receive_publisher_line (line (done_line run_id messages bytes elapsed)) sent
      ≡ accepted (some messages, some bytes)
unfolding receive_publisher_line
receive_publisher_line-done_line run_id messages bytes elapsed sent w m b =
    rw (done_line-starts run_id messages bytes elapsed w)
      (done_of-done_line run_id messages bytes elapsed w m b)
