-- ===== src/Text/Decimal.antt =====
-- The decimal numerals of Go's `fmt`, and the IDs made with them: no two numbers have the same.
use Prim.Native.Char.{code}
use text.Mathlib.TextLemmas.{nil-append, cons-append}
use job_scheduler_tooling.Prelude.{
  ℕ, zero, suc, ◌+◌, ◌-◌, ◌*◌, ◌/◌, ◌%◌, ◌≤◌, ◌<◌, ◌≡◌, refl, ap, sym, ◌∙◌, String, some, arith,
  ◌+++◌, ltb, if◌then◌else◌, if_split,
}
use job_scheduler_tooling.Text.{after_prefix, after_prefix-append}

unfoldable pub digit : ℕ → String
digit zero = "0"
digit (suc zero) = "1"
digit (suc (suc zero)) = "2"
digit (suc (suc (suc zero))) = "3"
digit (suc (suc (suc (suc zero)))) = "4"
digit (suc (suc (suc (suc (suc zero))))) = "5"
digit (suc (suc (suc (suc (suc (suc zero)))))) = "6"
digit (suc (suc (suc (suc (suc (suc (suc zero))))))) = "7"
digit (suc (suc (suc (suc (suc (suc (suc (suc zero)))))))) = "8"
digit (suc (suc (suc (suc (suc (suc (suc (suc (suc n))))))))) = "9"

-- "%d", with fuel for the digits.
unfoldable pub decimal : ℕ → ℕ → String
decimal zero n = digit (n % 10)
decimal (suc fuel) n =
    let front = decimal fuel (n / 10) in if ltb n 10 then digit n else front +++ digit (n % 10)

-- "%03d" of a number that is not negative.
unfoldable pub decimal_03 : ℕ → String
decimal_03 n =
    if ltb n 10
    then "00" +++ decimal n n
    else if ltb n 100
    then "0" +++ decimal n n
    else decimal n n

-- The number that a text of digits begins with.
read : ℕ → String → ℕ
read n String.[] = n
read n (String.◌∷◌ c s) = read (n * 10 + (code c - 48)) s

read-append : (s t : String) (n : ℕ) → read n (s +++ t) ≡ read (read n s) t
unfolding read
read-append String.[] t n = rw (nil-append t) refl
read-append (String.◌∷◌ c s) t n = rw (cons-append c s t) (read-append s t (n * 10 + (code c - 48)))

read-digit : (n d : ℕ) → d < 10 → read n (digit d) ≡ n * 10 + d
unfolding read digit
read-digit n zero h = omega arith
read-digit n (suc zero) h = omega arith
read-digit n (suc (suc zero)) h = omega arith
read-digit n (suc (suc (suc zero))) h = omega arith
read-digit n (suc (suc (suc (suc zero)))) h = omega arith
read-digit n (suc (suc (suc (suc (suc zero))))) h = omega arith
read-digit n (suc (suc (suc (suc (suc (suc zero)))))) h = omega arith
read-digit n (suc (suc (suc (suc (suc (suc (suc zero))))))) h = omega arith
read-digit n (suc (suc (suc (suc (suc (suc (suc (suc zero)))))))) h = omega arith
read-digit n (suc (suc (suc (suc (suc (suc (suc (suc (suc d))))))))) h = omega (arith, h)

-- A numeral read back.
read-decimal : (fuel n : ℕ) → n ≤ fuel → read 0 (decimal fuel n) ≡ n
unfolding decimal
read-decimal zero n h = read-digit 0 (n % 10) (omega arith) ∙ omega (arith, h)
read-decimal (suc fuel) n h =
    if_split (λ s. read 0 s ≡ n) (ltb n 10)
      (λ small. read-digit 0 n (ground (arith, small)) ∙ omega arith)
      (λ large.
        let front = read-decimal fuel (n / 10) (ground (arith, large, h)) in
        rw (read-append (decimal fuel (n / 10)) (digit (n % 10)) 0, front)
          (read-digit (n / 10) (n % 10) (omega arith) ∙ omega arith))

read-decimal_03 : (n : ℕ) → read 0 (decimal_03 n) ≡ n
unfolding decimal_03 read
read-decimal_03 n =
    let plain = read-decimal n n (omega arith) in
    if_split (λ s. read 0 s ≡ n) (ltb n 10) (λ _. read-append "00" (decimal n n) 0 ∙ plain)
      (λ _.
        if_split (λ s. read 0 s ≡ n) (ltb n 100) (λ _. read-append "0" (decimal n n) 0 ∙ plain)
          (λ _. plain))

-- "%02d" of a number that is not negative.
unfoldable pub decimal_02 : ℕ → String
decimal_02 n = if ltb n 10 then "0" +++ decimal n n else decimal n n

read-decimal_02 : (n : ℕ) → read 0 (decimal_02 n) ≡ n
unfolding decimal_02 read
read-decimal_02 n =
    let plain = read-decimal n n (omega arith) in
    if_split (λ s. read 0 s ≡ n) (ltb n 10) (λ _. read-append "0" (decimal n n) 0 ∙ plain)
      (λ _. plain)

-- A numeral that can be read back is no other number's under the same prefix.
prefixed-injective :
    (numeral : ℕ → String)
    → ((n : ℕ) → read 0 (numeral n) ≡ n)
    → (prefix : String) (m n : ℕ) → prefix +++ numeral m ≡ prefix +++ numeral n
    → m ≡ n
prefixed-injective numeral back prefix m n e =
    let same : some (numeral m) ≡ some (numeral n) =
      sym (after_prefix-append prefix (numeral m))
      ∙ (ap (after_prefix prefix) e ∙ after_prefix-append prefix (numeral n)) in
    let bare : numeral m ≡ numeral n = cc in sym (back m) ∙ (ap (read 0) bare ∙ back n)

-- The ID of a number under a prefix.
unfoldable pub numbered : String → ℕ → String
numbered prefix n = prefix +++ decimal_03 n

pub numbered-injective : (prefix : String) (m n : ℕ) → numbered prefix m ≡ numbered prefix n → m ≡ n
unfolding numbered
numbered-injective = prefixed-injective decimal_03 read-decimal_03

unfoldable pub numbered_02 : String → ℕ → String
numbered_02 prefix n = prefix +++ decimal_02 n

pub numbered_02-injective :
    (prefix : String) (m n : ℕ) → numbered_02 prefix m ≡ numbered_02 prefix n → m ≡ n
unfolding numbered_02
numbered_02-injective = prefixed-injective decimal_02 read-decimal_02
