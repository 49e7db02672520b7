-- ===== src/Text.antt =====
-- The texts that crates/csm-proxy/src/mcp.rs searches, as the list of their code points: `str::contains`,
-- `str::split` and the parse of an `i32`, of Rust's standard library, and `tagged_i32`.
pub mod Decimal
use Prim.Native.Char.{code}
use Prim.Native.String.{String}
use crosspoint_simulator_mcp.Prelude.{
  ℕ, zero, suc, ◌+◌, ◌-◌, ◌*◌, ◌^◌, Bool, true, false, ◌&&◌, ◌||◌, ℤ, pos, negsuc, Option, none,
  some, List, [], ◌∷◌, ◌==◌, nat_eq, leb, if◌then◌else◌,
}

abbrev pub codes : String → List ℕ
codes String.[] = []
codes (String.◌∷◌ c s) = code c ∷ codes s

unfoldable pub strip_prefix : List ℕ → List ℕ → Option (List ℕ)
strip_prefix [] text = some text
strip_prefix (p ∷ ps) [] = none
strip_prefix (p ∷ ps) (c ∷ text) = let rest = strip_prefix ps text in if p == c then rest else none

abbrev pub starts_with : List ℕ → List ℕ → Bool
starts_with needle text = elim (strip_prefix needle text) [ none ↦ false | some _ ↦ true ]

unfoldable pub contains : List ℕ → List ℕ → Bool
unfolding strip_prefix
contains [] needle = starts_with needle []
contains (c ∷ text) needle = starts_with needle (c ∷ text) || contains text needle

-- `text.split(tag)` after its first piece, none where the tag does not occur.
unfoldable pub after_tag : List ℕ → List ℕ → Option (List ℕ)
unfolding strip_prefix
after_tag tag [] = strip_prefix tag []
after_tag tag (c ∷ text) =
    let rest = after_tag tag text in
    elim (strip_prefix tag (c ∷ text)) [ some after ↦ some after | none ↦ rest ]

-- The piece up to the next tag.
unfoldable pub before_tag : List ℕ → List ℕ → List ℕ
unfolding strip_prefix
before_tag tag [] = []
before_tag tag (c ∷ text) =
    let rest = before_tag tag text in if starts_with tag (c ∷ text) then [] else c ∷ rest

-- `text.split(tag).nth(1)`.
abbrev pub second_piece : List ℕ → List ℕ → Option (List ℕ)
second_piece tag text = elim (after_tag tag text) [
  | none ↦ none
  | some rest ↦ some (before_tag tag rest)
]

abbrev pub is_ascii_digit : ℕ → Bool
is_ascii_digit c = leb 48 c && leb c 57

unfoldable pub take_while : (ℕ → Bool) → List ℕ → List ℕ
take_while p [] = []
take_while p (c ∷ text) = let rest = take_while p text in if p c then c ∷ rest else []

-- The digits of a decimal number, none at another character.
unfoldable pub digits_value : ℕ → List ℕ → Option ℕ
digits_value acc [] = some acc
digits_value acc (c ∷ text) =
    let rest = digits_value (acc * 10 + (c - 48)) text in if is_ascii_digit c then rest else none

abbrev pub parse_digits : List ℕ → Option ℕ
parse_digits [] = none
parse_digits (c ∷ text) = digits_value 0 (c ∷ text)

abbrev pub positive : Option ℕ → Option ℤ
positive none = none
positive (some n) = if leb (n + 1) (2 ^ 31) then some (pos n) else none

abbrev pub negative : Option ℕ → Option ℤ
negative none = none
negative (some zero) = some (pos 0)
negative (some (suc n)) = if leb (n + 1) (2 ^ 31) then some (negsuc n) else none

-- `i32::from_str`: an optional sign, at least one digit, and a value in range.
unfoldable pub parse_i32 : List ℕ → Option ℤ
unfolding digits_value
parse_i32 [] = none
parse_i32 (c ∷ text) =
    if c == 45
    then negative (parse_digits text)
    else if c == 43
    then positive (parse_digits text)
    else positive (parse_digits (c ∷ text))

unfoldable pub tagged_i32 : List ℕ → List ℕ → Option ℤ
unfolding after_tag before_tag take_while parse_i32
tagged_i32 text tag = elim (second_piece tag text) [
  | none ↦ none
  | some rest ↦ parse_i32 (take_while (λ c. is_ascii_digit c || c == 45) rest)
]
