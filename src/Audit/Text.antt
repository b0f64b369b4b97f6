-- ===== src/Audit/Text.antt =====
-- The texts of packages/esig-supabase/src/audit-chain.ts: the canonical payload and timestamps.
use Prim.Native.Char.{code}
use Prim.Native.Nat.{ℕ}
use esig_suite.Prelude.{
  suc, zero, ◌+◌, ◌-◌, ◌*◌, String, Bool, true, false, not, ◌&&◌, ◌||◌, Option, none, some, List,
  [], ◌∷◌, leb, ◌==◌, nat_eq, if◌then◌else◌,
}

abbrev pub append : String → String → String
append String.[] t = t
append (String.◌∷◌ c s) t = String.◌∷◌ c (append s t)

-- `parts.join("|")`
unfoldable pub join_bars : List String → String
join_bars [] = ""
join_bars (p ∷ []) = p
join_bars (p ∷ q ∷ ps) = append p (String.◌∷◌ "|" (join_bars (q ∷ ps)))

abbrev pub has_bar : String → Bool
has_bar String.[] = false
has_bar (String.◌∷◌ c s) = code c == b'|' || has_bar s

-- `text.slice(text.lastIndexOf("|") + 1)`, or the empty text without a bar.
unfoldable pub after_last_bar : String → String
after_last_bar String.[] = ""
after_last_bar (String.◌∷◌ c s) =
    let rest = after_last_bar s in if has_bar s then rest else if code c == b'|' then s else ""

is_hex_digit : ℕ → Bool
is_hex_digit c = (leb b'0' c && leb c b'9') || (leb b'a' c && leb c b'f')

is_hex_of : ℕ → String → Bool
unfolding is_hex_digit
is_hex_of n String.[] = n == 0
is_hex_of zero (String.◌∷◌ c s) = false
is_hex_of (suc n) (String.◌∷◌ c s) = is_hex_digit (code c) && is_hex_of n s

-- `/^[0-9a-f]{32}$/`
unfoldable pub is_md5_hex : String → Bool
unfolding is_hex_of
is_md5_hex = is_hex_of 32

-- `text.split("|")`
unfoldable pub split_bars : String → List String
split_bars s = go s ""
  where
    go : String → String → List String
    go String.[] part = part ∷ []
    go (String.◌∷◌ c s) part =
        let here = go s (append part (String.◌∷◌ c String.[])) in
        let next = go s "" in if code c == b'|' then part ∷ next else here

is_digit : ℕ → Bool
is_digit c = leb b'0' c && leb c b'9'

-- Reads by a pattern, in which `d` stands for a digit, and returns what is read and what follows.
read_pattern : String → String → Option (String × String)
unfolding is_digit
read_pattern String.[] s = some ("", s)
read_pattern (String.◌∷◌ p ps) String.[] = none
read_pattern (String.◌∷◌ p ps) (String.◌∷◌ c s) =
    let rest = read_pattern ps s in
    if (if code p == b'd' then is_digit (code c) else code c == code p)
    then elim rest [ none ↦ none | some (r, t) ↦ some (String.◌∷◌ c r, t) ]
    else none

-- `.(\d{1,n})`, padded with zeros to the number of its `n` digits, and what follows.
read_digits : ℕ → ℕ → String → ℕ × String
unfolding is_digit
read_digits zero value s = (value, s)
read_digits (suc n) value String.[] = let more = read_digits n (value * 10) String.[] in more
read_digits (suc n) value (String.◌∷◌ c s) =
    let more = read_digits n (value * 10 + (code c - b'0')) s in
    let padded = read_digits n (value * 10) (String.◌∷◌ c s) in
    if is_digit (code c) then more else padded

abbrev pub is_end : String → Bool
is_end String.[] = true
is_end (String.◌∷◌ c s) = false

-- The offset's text after its sign, with a colon between hours and minutes.
read_offset : String → Option String
unfolding read_pattern
read_offset s = elim (read_pattern "dd" s) [
  | none ↦ none
  | some (hours, t) ↦ if is_end t then some (append hours ":00") else elim (read_pattern ":dd" t) [
    | some (minutes, u) ↦ if is_end u then some (append hours minutes) else none
    | none ↦ elim (read_pattern "dd" t) [
      | some (minutes, u) ↦ if is_end u then some (append hours (String.◌∷◌ ":" minutes)) else none
      | none ↦ none
    ]
  ]
]

-- `(Z|[+-]\d{2}(?::?\d{2})?)$`, as the offset that is given to `Date.parse`.
read_zone : String → Option String
unfolding read_offset
read_zone String.[] = none
read_zone (String.◌∷◌ c s) =
    if code c == b'Z' && is_end s
    then some "Z"
    else if code c == b'+' || code c == b'-'
    then elim (read_offset s) [ none ↦ none | some o ↦ some (String.◌∷◌ c o) ]
    else none

-- `(?:\.(\d{1,6}))?` as a number of microseconds, and what follows.
read_fraction : String → Option (ℕ × String)
unfolding is_digit read_digits
read_fraction String.[] = some (0, String.[])
read_fraction (String.◌∷◌ c String.[]) = some (0, String.◌∷◌ c String.[])
read_fraction (String.◌∷◌ c (String.◌∷◌ e s)) =
    if code c == b'.'
    then (if is_digit (code e) then some (read_digits 6 0 (String.◌∷◌ e s)) else none)
    else some (0, String.◌∷◌ c (String.◌∷◌ e s))

is_separator : String → Bool
is_separator String.[] = false
is_separator (String.◌∷◌ c s) = code c == b'T' || code c == b' '

abbrev pub tail : String → String
tail String.[] = String.[]
tail (String.◌∷◌ c s) = s

-- The milliseconds of the whole seconds and the microseconds of the rest, in microseconds.
abbrev pub add_micros : Option ℕ → ℕ → Option ℕ
add_micros none micros = none
add_micros (some base) micros = some (base * 1000 + micros)

-- `timestamptzToEpochMicros`; where it throws, there is no result.
unfoldable pub epoch_micros : (String → Option ℕ) → String → Option ℕ
unfolding read_pattern read_fraction read_zone is_separator
epoch_micros date_parse value = elim (read_pattern "dddd-dd-dd" value) [
  | none ↦ none
  | some (day, s) ↦ if not (is_separator s) then none else elim (read_pattern "dd:dd:dd" (tail s)) [
    | none ↦ none
    | some (time, t) ↦ elim (read_fraction t) [
      | none ↦ none
      | some (micros, u) ↦ elim (read_zone u) [
        | none ↦ none
        | some offset ↦
            add_micros (date_parse (append day (String.◌∷◌ "T" (append time offset)))) micros
      ]
    ]
  ]
]
