-- ===== src/Derive/Names/Letters.antt =====
-- The characters that stand in the names which dds_derive/src/lib.rs accepts.
use cyclonedds_rs.Common.{
  Text, ℕ, [], ◌∷◌, Bool, true, false, ◌||◌, ◌==◌, ◌≡◌, refl, arith, is_ascii_alphanumeric,
}
use cyclonedds_rs.Derive.Names.Grammar.{
  IsSnakeTail, tail_end, tail_letter, tail_joined, IsLowerSnakeCase, snake_case, IsAlphanumeric,
  letters_end, letters_more, IsUpperCamelCase, camel_case,
}
use cyclonedds_rs.InterfaceGen.Namespaces.Braces.{count, count_nothing}

-- Letters, digits and the underscore.
abbrev pub is_word : ℕ → Bool
is_word c = is_ascii_alphanumeric c || (c == b'_')

count_word :
    (b c : ℕ) (text : Text)
    → is_word b ≡ false
    → is_word c ≡ true
    → count b text ≡ 0
    → count b (c ∷ text) ≡ 0
unfolding count
count_word b c text f t h = ground arith

tail_lacks : (b : ℕ) (text : Text) → is_word b ≡ false → IsSnakeTail text → count b text ≡ 0
tail_lacks b [] f tail_end = count_nothing b
tail_lacks b (c ∷ text) f (tail_letter _ _ h t) =
    count_word b c text f (ground arith) (tail_lacks b text f t)
tail_lacks b (_ ∷ c ∷ text) f (tail_joined _ _ h t) =
    count_word b b'_' (c ∷ text) f refl
      (count_word b c text f (ground arith) (tail_lacks b text f t))

pub snake_lacks :
    (b : ℕ) (text : Text) → is_word b ≡ false → IsLowerSnakeCase text → count b text ≡ 0
snake_lacks b [] f s = elim s [ ]
snake_lacks b (c ∷ text) f (snake_case _ _ h t) =
    count_word b c text f (ground arith) (tail_lacks b text f t)

letters_lack : (b : ℕ) (text : Text) → is_word b ≡ false → IsAlphanumeric text → count b text ≡ 0
letters_lack b [] f letters_end = count_nothing b
letters_lack b (c ∷ text) f (letters_more _ _ h t) =
    count_word b c text f (ground arith) (letters_lack b text f t)

pub camel_lacks :
    (b : ℕ) (text : Text) → is_word b ≡ false → IsUpperCamelCase text → count b text ≡ 0
camel_lacks b [] f s = elim s [ ]
camel_lacks b (c ∷ text) f (camel_case _ _ h t) =
    count_word b c text f (ground arith) (letters_lack b text f t)
