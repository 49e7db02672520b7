-- ===== src/Text/Decimal.antt =====
-- The numbers that a firmware prints into its log lines, as crates/csm-proxy/src/mcp.rs reads them back.
use crosspoint_simulator_mcp.Prelude.{
  ℕ, zero, suc, ◌+◌, ◌-◌, ◌*◌, ◌/◌, ◌%◌, ◌^◌, ◌<◌, ◌≡◌, refl, ap, ◌∙◌, Bool, true, false, not, ◌&&◌,
  ◌||◌, ℤ, pos, negsuc, some, List, [], ◌∷◌, ◌++◌, ◌==◌, nat_eq, ltb, arith, Bool-cases, inl, inr,
  if◌then◌else◌,
}
use crosspoint_simulator_mcp.Text.{
  strip_prefix, starts_with, after_tag, before_tag, is_ascii_digit, take_while, digits_value,
  parse_digits, positive, negative, parse_i32, tagged_i32,
}

unfoldable pub show_digits : ℕ → ℕ → List ℕ → List ℕ
show_digits zero n text = text
show_digits (suc fuel) n text =
    let rest = show_digits fuel (n / 10) ((48 + n % 10) ∷ text) in
    if ltb n 10 then (48 + n) ∷ text else rest

-- The number in decimal, with a sign if it is negative.
abbrev pub show_i32 : ℤ → List ℕ
show_i32 (pos n) = show_digits (n + 1) n []
show_i32 (negsuc n) = 45 ∷ show_digits (n + 2) (n + 1) []

abbrev pub InI32 : ℤ → Type 0
InI32 (pos n) = n < 2 ^ 31
InI32 (negsuc n) = n < 2 ^ 31

abbrev pub is_numeric : ℕ → Bool
is_numeric c = is_ascii_digit c || c == 45

-- No number goes on in the text.
abbrev pub ends_number : List ℕ → Bool
ends_number [] = true
ends_number (c ∷ text) = not (is_numeric c)

abbrev all_numeric : List ℕ → Bool
all_numeric [] = true
all_numeric (c ∷ text) = is_numeric c && all_numeric text

abbrev first_is_digit : List ℕ → Bool
first_is_digit [] = false
first_is_digit (c ∷ text) = is_ascii_digit c

digits_value_step :
    (acc d : ℕ) (text : List ℕ)
    → d < 10
    → digits_value acc ((48 + d) ∷ text) ≡ digits_value (acc * 10 + d) text
unfolding digits_value
digits_value_step acc d text h =
    let same : acc * 10 + (48 + d - 48) ≡ acc * 10 + d = omega arith in
    let digit : is_ascii_digit (48 + d) ≡ true = ground arith in rw (digit, same) refl

digits_value-show_digits :
    (fuel n : ℕ) (text : List ℕ)
    → n < fuel
    → digits_value 0 (show_digits fuel n text) ≡ digits_value n text
unfolding show_digits
digits_value-show_digits zero n text h = absurd (omega arith)
digits_value-show_digits (suc fuel) n text h = elim (Bool-cases (ltb n 10)) [
  | inl small ↦
      rw small
        (digits_value_step 0 n text (ground arith) ∙ ap (λ m. digits_value m text) (omega arith))
  | inr large ↦
      let ten : n / 10 * 10 + n % 10 ≡ n = omega arith in
      rw large (
        digits_value-show_digits fuel (n / 10) ((48 + n % 10) ∷ text) (ground arith)
        ∙ digits_value_step (n / 10) (n % 10) text (omega arith)
        ∙ ap (λ m. digits_value m text) ten)
]

first_is_digit-show_digits :
    (fuel n : ℕ) (text : List ℕ) → n < fuel → first_is_digit (show_digits fuel n text) ≡ true
unfolding show_digits
first_is_digit-show_digits zero n text h = absurd (omega arith)
first_is_digit-show_digits (suc fuel) n text h = elim (Bool-cases (ltb n 10)) [
  | inl small ↦ rw small (ground arith)
  | inr large ↦
      rw large (first_is_digit-show_digits fuel (n / 10) ((48 + n % 10) ∷ text) (ground arith))
]

all_numeric-show_digits :
    (fuel n : ℕ) (text : List ℕ)
    → all_numeric text ≡ true
    → all_numeric (show_digits fuel n text) ≡ true
unfolding show_digits
all_numeric-show_digits zero n text h = h
all_numeric-show_digits (suc fuel) n text h = elim (Bool-cases (ltb n 10)) [
  | inl small ↦ rw small (ground arith)
  | inr large ↦
      rw large (all_numeric-show_digits fuel (n / 10) ((48 + n % 10) ∷ text) (ground arith))
]

taken_end :
    (stops : Bool) (c : ℕ) (text : List ℕ)
    → is_numeric c ≡ false
    → take_while is_numeric (if stops then [] else c ∷ text) ≡ []
unfolding take_while
taken_end true c text h = refl
taken_end false c text h = rw h refl

starts_with_other :
    (t d : ℕ) (ts text : List ℕ) → (t == d) ≡ false → starts_with (t ∷ ts) (d ∷ text) ≡ false
unfolding strip_prefix
starts_with_other t d ts text h = rw (starts_with, h) refl

before_tag_other :
    (t d : ℕ) (ts text : List ℕ)
    → (t == d) ≡ false
    → before_tag (t ∷ ts) (d ∷ text) ≡ d ∷ before_tag (t ∷ ts) text
unfolding before_tag
before_tag_other t d ts text h =
    ap (λ stops. if stops then [] else d ∷ before_tag (t ∷ ts) text)
      (starts_with_other t d ts text h)

take_while_numeric :
    (c : ℕ) (text : List ℕ)
    → is_numeric c ≡ true
    → take_while is_numeric (c ∷ text) ≡ c ∷ take_while is_numeric text
unfolding take_while
take_while_numeric c text h = rw h refl

-- The digits of a number are those up to the tag or to what ends it.
taken_number :
    (t : ℕ) (ts digits after : List ℕ)
    → is_numeric t ≡ false
    → all_numeric digits ≡ true
    → ends_number after ≡ true
    → take_while is_numeric (before_tag (t ∷ ts) (digits ++ after)) ≡ digits
unfolding take_while before_tag strip_prefix
taken_number t ts [] [] other numeric ends = refl
taken_number t ts [] (c ∷ after) other numeric ends =
    taken_end (starts_with (t ∷ ts) (c ∷ after)) c (before_tag (t ∷ ts) after) (ground arith)
taken_number t ts (d ∷ digits) after other numeric ends =
    let apart : (t == d) ≡ false = ground (arith, nat_eq.eqb_iff t d) in
    ap (take_while is_numeric) (before_tag_other t d ts (digits ++ after) apart)
    ∙ take_while_numeric d (before_tag (t ∷ ts) (digits ++ after)) (ground arith)
    ∙ ap (λ text. d ∷ text) (taken_number t ts digits after other (ground arith) ends)

parse_digits_value :
    (digits : List ℕ) → first_is_digit digits ≡ true → parse_digits digits ≡ digits_value 0 digits
parse_digits_value [] h = absurd (ground arith)
parse_digits_value (c ∷ digits) h = refl

parse_unsigned :
    (digits : List ℕ)
    → first_is_digit digits ≡ true
    → parse_i32 digits ≡ positive (digits_value 0 digits)
unfolding parse_i32
parse_unsigned [] h = absurd (ground arith)
parse_unsigned (c ∷ digits) h =
    let unsigned : ((c == 45) ≡ false) × ((c == 43) ≡ false) = ground arith in
    let (minus, plus) = unsigned in rw (minus, plus) refl

printed_value : (n : ℕ) → digits_value 0 (show_digits (n + 1) n []) ≡ some n
unfolding digits_value
printed_value n = digits_value-show_digits (n + 1) n [] (omega arith)

parse_i32-show_i32 : (z : ℤ) → InI32 z → parse_i32 (show_i32 z) ≡ some z
unfolding parse_i32
parse_i32-show_i32 (pos n) h =
    let digit = first_is_digit-show_digits (n + 1) n [] (omega arith) in
    parse_unsigned (show_digits (n + 1) n []) digit ∙ ap positive (printed_value n) ∙ ground arith
parse_i32-show_i32 (negsuc n) h =
    let digit = first_is_digit-show_digits (n + 2) (n + 1) [] (omega arith) in
    ap negative (
      parse_digits_value (show_digits (n + 2) (n + 1) []) digit
      ∙ digits_value-show_digits (n + 2) (n + 1) [] (omega arith))
    ∙ ap (λ m. negative (some m)) {x = n + 1} {y = suc n} (omega arith)
    ∙ ground arith

all_numeric-show_i32 : (z : ℤ) → all_numeric (show_i32 z) ≡ true
all_numeric-show_i32 (pos n) = all_numeric-show_digits (n + 1) n [] refl
all_numeric-show_i32 (negsuc n) = all_numeric-show_digits (n + 2) (n + 1) [] refl

-- A number that follows the tag at its first place in a text is read back, where no digit or minus sign
-- goes on after it.
pub tagged_i32-show_i32 :
    (text : List ℕ) (t : ℕ) (ts : List ℕ) (z : ℤ) (after : List ℕ)
    → is_numeric t ≡ false
    → after_tag (t ∷ ts) text ≡ some (show_i32 z ++ after)
    → ends_number after ≡ true
    → InI32 z
    → tagged_i32 text (t ∷ ts) ≡ some z
unfolding tagged_i32
tagged_i32-show_i32 text t ts z after other found ends h =
    rw (tagged_i32, found)
      (ap parse_i32 (taken_number t ts (show_i32 z) after other (all_numeric-show_i32 z) ends)
        ∙ parse_i32-show_i32 z h)
