-- ===== src/Tests/Cipher.antt =====
-- A cipher that keeps its promises, for the tests.
use Prim.Native.Nat.{compare, Ordering}
use Prim.Native.Char.{Char, char, code, IsScalar}
use text.Mathlib.TextEquality.{Char-path}
use genro_mail_proxy.Prelude.{
  ℕ, zero, suc, ◌+◌, String, ◌≡◌, refl, ap, ◌∙◌, Option, none, some, [], ◌∷◌, ◌++◌, ◌==◌, arith,
  length, if◌then◌else◌,
}
use genro_mail_proxy.Prelude.Text.{codes}
use genro_mail_proxy.Tools.Encryption.{Bytes, drop, tag_size, key_size, Cipher}
use genro_mail_proxy.Tools.Encryption.Opens.{IsLawful}

-- The character with a number, if there is one.
of_high :
    (n : ℕ) (o a b : Ordering)
    → compare n 55296 ≡ o
    → compare 57343 n ≡ a
    → compare n 1114112 ≡ b
    → Option Char
of_high n Ordering.lt a b first low high = some (char n (rw first tt))
of_high n Ordering.eq Ordering.lt Ordering.lt first low high =
    some (char n (rw (first, low, high) tt))
of_high n Ordering.gt Ordering.lt Ordering.lt first low high =
    some (char n (rw (first, low, high) tt))
of_high n _ _ _ first low high = none

of_high-char :
    (n : ℕ) (p : IsScalar n) (o a b : Ordering) (first : compare n 55296 ≡ o)
    (low : compare 57343 n ≡ a) (high : compare n 1114112 ≡ b)
    → of_high n o a b first low high ≡ some (char n p)
unfolding of_high
of_high-char n p Ordering.lt a b first low high = ap (λ c. some c) (Char-path _ (char n p) refl)
of_high-char n p Ordering.eq Ordering.lt Ordering.lt first low high =
    ap (λ c. some c) (Char-path _ (char n p) refl)
of_high-char n p Ordering.gt Ordering.lt Ordering.lt first low high =
    ap (λ c. some c) (Char-path _ (char n p) refl)
of_high-char n p Ordering.eq Ordering.eq b first low high = absurd (rw (first, low) at p)
of_high-char n p Ordering.eq Ordering.gt b first low high = absurd (rw (first, low) at p)
of_high-char n p Ordering.gt Ordering.eq b first low high = absurd (rw (first, low) at p)
of_high-char n p Ordering.gt Ordering.gt b first low high = absurd (rw (first, low) at p)
of_high-char n p Ordering.eq Ordering.lt Ordering.eq first low high =
    absurd (rw (first, low, high) at p)
of_high-char n p Ordering.eq Ordering.lt Ordering.gt first low high =
    absurd (rw (first, low, high) at p)
of_high-char n p Ordering.gt Ordering.lt Ordering.eq first low high =
    absurd (rw (first, low, high) at p)
of_high-char n p Ordering.gt Ordering.lt Ordering.gt first low high =
    absurd (rw (first, low, high) at p)

of_code : ℕ → Option Char
unfolding of_high
of_code n = of_high n (compare n 55296) (compare 57343 n) (compare n 1114112) refl refl refl

of_code-code : (c : Char) → of_code (code c) ≡ some c
unfolding of_code
of_code-code (char n p) =
    of_high-char n p (compare n 55296) (compare 57343 n) (compare n 1114112) refl refl refl

push_char : Option Char → Option String → Option String
push_char none s = none
push_char (some c) none = none
push_char (some c) (some s) = some (String.◌∷◌ c s)

unfoldable pub of_codes : Bytes → Option String
unfolding push_char of_code
of_codes [] = some String.[]
of_codes (n ∷ s) = push_char (of_code n) (of_codes s)

of_codes-codes : (s : String) → of_codes (codes s) ≡ some s
unfolding of_codes push_char
of_codes-codes String.[] = refl
of_codes-codes (String.◌∷◌ c s) = rw (of_code-code c, of_codes-codes s, push_char) refl

-- Numbers in unary, each with its end.
unary : ℕ → String → String
unary zero rest = String.◌∷◌ "b" rest
unary (suc n) rest = String.◌∷◌ "a" (unary n rest)

unfoldable pub write_numbers : Bytes → String
unfolding unary
write_numbers [] = String.[]
write_numbers (n ∷ s) = unary n (write_numbers s)

push_number : ℕ → Option Bytes → Option Bytes
push_number n none = none
push_number n (some s) = some (n ∷ s)

unfoldable pub read_numbers : String → ℕ → Option Bytes
unfolding push_number
read_numbers String.[] n = some []
read_numbers (String.◌∷◌ c s) n =
    if code c == 97 then read_numbers s (suc n) else push_number n (read_numbers s 0)

read_numbers-unary :
    (n m : ℕ) (rest : String)
    → read_numbers (unary n rest) m ≡ push_number (n + m) (read_numbers rest 0)
unfolding unary read_numbers
read_numbers-unary zero m rest = ap (λ x. push_number x (read_numbers rest 0)) (omega arith)
read_numbers-unary (suc n) m rest =
    read_numbers-unary n (suc m) rest ∙ ap (λ x. push_number x (read_numbers rest 0)) (omega arith)

read-write_numbers : (s : Bytes) → read_numbers (write_numbers s) 0 ≡ some s
unfolding write_numbers read_numbers push_number
read-write_numbers [] = refl
read-write_numbers (n ∷ s) =
    read_numbers-unary n 0 (write_numbers s)
    ∙ ap (push_number (n + 0)) (read-write_numbers s)
    ∙ ap (λ x. some (x ∷ s)) (omega arith)

-- The text behind a tag of zeros, for every key of 32 bytes.
abbrev pub tag : Bytes
tag = 0 ∷ 0 ∷ 0 ∷ 0 ∷ 0 ∷ 0 ∷ 0 ∷ 0 ∷ 0 ∷ 0 ∷ 0 ∷ 0 ∷ 0 ∷ 0 ∷ 0 ∷ 0 ∷ []

abbrev pub cipher : Cipher
cipher = record {
  accepts = λ key. length key == key_size;
  encrypt = λ key nonce s. tag ++ codes s;
  decrypt = λ key nonce s. of_codes (drop tag_size s);
  b64encode = write_numbers;
  b64decode = λ s. read_numbers s 0;
}

pub cipher-IsLawful : IsLawful cipher
cipher-IsLawful = record {
  decrypt-encrypt = λ key nonce s. of_codes-codes s;
  accepts_key = λ key sized. ground (arith, sized);
  tagged = λ key nonce s. omega arith;
  b64decode-b64encode = read-write_numbers;
}
