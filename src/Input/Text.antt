-- ===== src/Input/Text.antt =====
-- src/io/input.c, the parts on text, and what it uses of the C library: `isspace`, `tolower`, `strtoll`.
-- A text is the list of its bytes; a C string is a text without the byte 0.
use preemptive_and_non_preem.Base.{
  ℕ, ◌+◌, ◌-◌, ◌*◌, Bool, true, false, not, ◌&&◌, ◌||◌, Option, none, some, List, [], ◌∷◌, ltb, leb,
  ◌==◌, if◌then◌else◌,
}
use preemptive_and_non_preem.Base.Int.{ℤ, pos, sub_ℕ, int64_max}

abbrev pub Text : Type 0
Text = List ℕ

-- In the "C" locale: tab, line feed, vertical tab, form feed, carriage return and space.
abbrev pub isspace : ℕ → Bool
isspace c = c == 32 || (leb 9 c && leb c 13)

abbrev pub isdigit : ℕ → Bool
isdigit c = leb 48 c && leb c 57

abbrev pub tolower : ℕ → ℕ
tolower c = if leb 65 c && leb c 90 then c + 32 else c

-- The bytes before the first 0.
unfoldable pub c_string : Text → Text
c_string [] = []
c_string (c ∷ s) = if c == 0 then [] else c ∷ c_string s

unfoldable pub skip_spaces : Text → Text
skip_spaces [] = []
skip_spaces (c ∷ s) = if isspace c then skip_spaces s else c ∷ s

-- The value of the leading digits, after a prefix of value `n`, and what follows them.
unfoldable pub scan_digits : ℕ → Text → ℕ × Text
scan_digits n [] = (n, [])
scan_digits n (c ∷ s) = if isdigit c then scan_digits (n * 10 + (c - 48)) s else (n, c ∷ s)

-- What `strtoll` returns: the value, whether `errno` becomes ERANGE, and the text at `end`.
pub record Converted : Type 0 where
  pub value : ℤ
  pub out_of_range : Bool
  pub end : Text

abbrev pub convert_digits : Text → Bool → Text → Converted
convert_digits whole negative s =
    let (n, rest) = scan_digits 0 s in
    let limit = if negative then int64_max + 1 else int64_max in
    record {
      value =
          if negative
          then sub_ℕ 0 (if ltb limit n then limit else n)
          else pos (if ltb limit n then limit else n);
      out_of_range = ltb limit n;
      end = rest;
    }

-- Without a digit nothing is converted, and `end` is the start.
abbrev pub convert_signed : Text → Bool → Text → Converted
convert_signed whole negative [] = record { value = pos 0; out_of_range = false; end = whole }
convert_signed whole negative (c ∷ s) =
    if isdigit c
    then convert_digits whole negative (c ∷ s)
    else record { value = pos 0; out_of_range = false; end = whole }

abbrev pub convert : Text → Text → Converted
convert whole [] = record { value = pos 0; out_of_range = false; end = whole }
convert whole (c ∷ s) =
    if c == b'-'
    then convert_signed whole true s
    else if c == b'+'
    then convert_signed whole false s
    else convert_signed whole false (c ∷ s)

unfoldable pub strtoll : Text → Converted
unfolding skip_spaces scan_digits
strtoll s = convert s (skip_spaces s)

abbrev pub is_empty : Text → Bool
is_empty [] = true
is_empty (c ∷ s) = false

unfoldable pub parse_i64 : Text → Option ℤ
unfolding strtoll
parse_i64 [] = none
parse_i64 (c ∷ s) =
    let v = strtoll (c ∷ s) in
    if isspace c
    then none
    else if v.out_of_range || not (is_empty v.end)
    then none
    else some v.value

-- A text without its last bytes that are spaces.
unfoldable pub cut_spaces : Text → Text
cut_spaces [] = []
cut_spaces (c ∷ s) = let rest = cut_spaces s in if isspace c && is_empty rest then [] else c ∷ rest

unfoldable pub trim : Text → Text
unfolding skip_spaces cut_spaces
trim s = cut_spaces (skip_spaces s)

-- The pieces between the separators.
unfoldable pub pieces : ℕ → Text → Text × List Text
pieces sep [] = ([], [])
pieces sep (c ∷ s) =
    let (first, others) = pieces sep s in
    if c == sep then ([], first ∷ others) else (c ∷ first, others)
