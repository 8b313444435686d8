-- ===== src/Common/Decimal/RoundTrip.antt =====
-- `int` reads what `str` prints.
use Prim.Native.Char.{code}
use repo_viva.Base.{
  ℕ, zero, suc, ◌+◌, ◌*◌, ◌/◌, ◌%◌, ◌≤◌, ◌<◌, ◌≡◌, refl, ap, ◌∙◌, String, Bool, true, false, ◌&&◌,
  Option, some, ltb, leb, ◌==◌, arith, pos, rstrip, lstrip, text_length, both_true, is_space,
}
use repo_viva.Common.Decimal.{
  digit_char, emit, str_of, Scan, scan_char, scan, int_of, finish, max_str_digits, signed, positive,
  nat_of,
}

code-digit_char : (d : ℕ) → d < 10 → code (digit_char d) ≡ b'0' + d
code-digit_char zero h = refl
code-digit_char (suc zero) h = refl
code-digit_char (suc (suc zero)) h = refl
code-digit_char (suc (suc (suc zero))) h = refl
code-digit_char (suc (suc (suc (suc zero)))) h = refl
code-digit_char (suc (suc (suc (suc (suc zero))))) h = refl
code-digit_char (suc (suc (suc (suc (suc (suc zero)))))) h = refl
code-digit_char (suc (suc (suc (suc (suc (suc (suc zero))))))) h = refl
code-digit_char (suc (suc (suc (suc (suc (suc (suc (suc zero)))))))) h = refl
code-digit_char (suc (suc (suc (suc (suc (suc (suc (suc (suc zero))))))))) h = refl
code-digit_char (suc (suc (suc (suc (suc (suc (suc (suc (suc (suc d)))))))))) h =
    absurd (omega arith)

scan-digit :
    (v n d : ℕ) (b : Bool)
    → d < 10
    → scan_char (some (record { value = v; count = n; on_digit = b })) (digit_char d)
      ≡ some (record { value = v * 10 + d; count = suc n; on_digit = true })
scan-digit v n d b h = rw (code-digit_char d h) (ground arith)

emit_step :
    (fuel n : ℕ) (out : String)
    → emit (suc fuel) (suc n) out
      ≡ emit fuel (suc n / 10) (String.◌∷◌ (digit_char (suc n % 10)) out)
unfolding emit
emit_step fuel n out = let e : ltb 0 (suc n) ≡ true = ground arith in rw (emit, e) refl

abbrev start : Option Scan
start = some (record { value = 0; count = 0; on_digit = false })

-- Reading the digits of `n` and then `out` is reading `out` behind the number `n`.
scan-emit :
    (fuel n : ℕ) (out : String)
    → n ≤ fuel
    → (c : ℕ) × (b : Bool) × (scan start (emit fuel n out)
        ≡ scan (some (record { value = n; count = c; on_digit = b })) out)
      × (text_length (emit fuel n out) ≡ c + text_length out)
      × (0 < n → b ≡ true)
unfolding emit
scan-emit zero zero out h = (0, false, refl, omega arith, λ p. absurd (omega arith))
scan-emit zero (suc n) out h = absurd (omega arith)
scan-emit (suc fuel) zero out h = (0, false, refl, omega arith, λ p. absurd (omega arith))
scan-emit (suc fuel) (suc n) out h =
    let (c, b, reads, long, _) =
      scan-emit fuel (suc n / 10) (String.◌∷◌ (digit_char (suc n % 10)) out) (omega arith) in
    (
      suc c,
      true,
      ap (scan start) (emit_step fuel n out)
          ∙ reads
          ∙ ap (λ s. scan s out) (scan-digit (suc n / 10) c (suc n % 10) b (omega arith))
          ∙ ap (λ m. scan (some (record { value = m; count = suc c; on_digit = true })) out)
              (omega arith),
      ap text_length (emit_step fuel n out) ∙ omega (arith, long),
      λ _. refl,
    )

abbrev is_digit : ℕ → Bool
is_digit c = leb b'0' c && leb c b'9'

abbrev are_digits : String → Bool
are_digits String.[] = true
are_digits (String.◌∷◌ c s) = is_digit (code c) && are_digits s

are_digits-emit :
    (fuel n : ℕ) (out : String) → are_digits out ≡ true → are_digits (emit fuel n out) ≡ true
unfolding emit
are_digits-emit zero n out h = h
are_digits-emit (suc fuel) zero out h = h
are_digits-emit (suc fuel) (suc n) out h =
    ap are_digits (emit_step fuel n out)
    ∙ are_digits-emit fuel (suc n / 10) (String.◌∷◌ (digit_char (suc n % 10)) out)
        (rw (code-digit_char (suc n % 10) (omega arith), h) (ground arith))

digit-not_space : (c : ℕ) → is_digit c ≡ true → is_space c ≡ false
digit-not_space c h = ground arith

rstrip-digits : (s : String) → are_digits s ≡ true → rstrip s ≡ s
rstrip-digits String.[] h = refl
rstrip-digits (String.◌∷◌ c s) h =
    let (d, ds) = both_true (is_digit (code c)) (are_digits s) h in
    rw (digit-not_space (code c) d) (ap (λ (t : String). String.◌∷◌ c t) (rstrip-digits s ds))

lstrip-digits : (s : String) → are_digits s ≡ true → lstrip s ≡ s
lstrip-digits String.[] h = refl
lstrip-digits (String.◌∷◌ c s) h =
    let (d, ds) = both_true (is_digit (code c)) (are_digits s) h in
    rw (digit-not_space (code c) d) refl

signed-digits :
    (s : String) → are_digits s ≡ true → 0 < text_length s → signed s ≡ positive (nat_of s)
signed-digits String.[] h n = absurd (omega arith)
signed-digits (String.◌∷◌ c s) h n =
    let (d, ds) = both_true (is_digit (code c)) (are_digits s) h in
    let minus : (code c == b'-') ≡ false = ground (arith, d) in
    let plus : (code c == b'+') ≡ false = ground (arith, d) in rw (minus, plus) refl

int_of-digits :
    (s : String) → are_digits s ≡ true → 0 < text_length s → int_of s ≡ positive (nat_of s)
unfolding int_of
int_of-digits s h n =
    ap signed (ap lstrip (rstrip-digits s h) ∙ lstrip-digits s h) ∙ signed-digits s h n

finish-within :
    (n c : ℕ) (b : Bool)
    → b ≡ true
    → c ≤ max_str_digits
    → finish (some (record { value = n; count = c; on_digit = b })) ≡ some n
finish-within n c b hb hc = rw hb (ground arith)

-- How many digits a printed number has: it is what the scan counts.
not_shorter : (fuel n : ℕ) (out : String) → text_length out ≤ text_length (emit fuel n out)
unfolding emit
not_shorter zero n out = omega arith
not_shorter (suc fuel) zero out = omega arith
not_shorter (suc fuel) (suc n) out = omega (
  arith,
  not_shorter fuel (suc n / 10) (String.◌∷◌ (digit_char (suc n % 10)) out),
  ap text_length (emit_step fuel n out),
)

emit-nonempty : (n : ℕ) → 0 < text_length (emit (suc n) (suc n) "")
emit-nonempty n = omega (
  arith,
  not_shorter n (suc n / 10) (String.◌∷◌ (digit_char (suc n % 10)) ""),
  ap text_length (emit_step n n ""),
)

nat_of-emit :
    (n : ℕ)
    → text_length (emit (suc n) (suc n) "") ≤ max_str_digits
    → nat_of (emit (suc n) (suc n) "") ≡ some (suc n)
nat_of-emit n h = go (scan-emit (suc n) (suc n) "" (omega arith))
  where
    go :
        (c : ℕ) × (b : Bool) × (scan start (emit (suc n) (suc n) "")
            ≡ scan (some (record { value = suc n; count = c; on_digit = b })) "")
          × (text_length (emit (suc n) (suc n) "") ≡ c + text_length "")
          × (0 < suc n → b ≡ true)
        → nat_of (emit (suc n) (suc n) "") ≡ some (suc n)
    go (c, b, reads, long, digit) =
        ap finish reads ∙ finish-within (suc n) c b (digit (omega arith)) (omega (arith, long, h))

-- A printed number that is not too long for `int` is read back.
pub int_of-str_of :
    (n : ℕ) → text_length (str_of n) ≤ max_str_digits → int_of (str_of n) ≡ some (pos n)
unfolding str_of int_of
int_of-str_of zero h = refl
int_of-str_of (suc n) h = rw printed (
    int_of-digits (emit (suc n) (suc n) "") (are_digits-emit (suc n) (suc n) "" refl)
      (emit-nonempty n)
    ∙ ap positive (nat_of-emit n (rw printed at h)))
  where
    printed : str_of (suc n) ≡ emit (suc n) (suc n) ""
    printed = let e : (suc n == 0) ≡ false = ground arith in rw e refl
