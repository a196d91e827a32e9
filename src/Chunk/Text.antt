-- ===== src/Chunk/Text.antt =====
-- What the parser uses of the C library, over lists of bytes without a NUL.
use web_tunnel.Base.{
  ℕ, zero, suc, ◌+◌, ◌-◌, ◌*◌, ◌%◌, ◌^◌, Bool, true, false, ◌&&◌, ◌||◌, List, [], ◌∷◌, map, Option,
  none, some, ltb, leb, ◌==◌, if◌then◌else◌,
}
use web_tunnel.Base.Int.{ℤ, pos, negsuc}

-- The text at `mem + off`, up to the first NUL or to `n` bytes.
unfoldable pub c_string : ℕ → ℕ → (ℕ → ℕ) → List ℕ
c_string zero off mem = []
c_string (suc n) off mem =
    let rest = c_string n (off + 1) mem in if mem off == 0 then [] else mem off ∷ rest

unfoldable pub starts_with : List ℕ → List ℕ → Bool
starts_with [] xs = true
starts_with (p ∷ ps) [] = false
starts_with (p ∷ ps) (x ∷ xs) = p == x && starts_with ps xs

-- `strstr(s, pat)`: the index of the first match.
unfoldable pub strstr : List ℕ → List ℕ → Option ℕ
unfolding starts_with
strstr pat [] = if starts_with pat [] then some 0 else none
strstr pat (x ∷ xs) =
    let rest = elim (strstr pat xs) as (λ _. Option ℕ) [ none ↦ none | some i ↦ some (i + 1) ] in
    if starts_with pat (x ∷ xs) then some 0 else rest

abbrev pub lower : ℕ → ℕ
lower c = if leb 65 c && leb c 90 then c + 32 else c

abbrev pub strcasestr : List ℕ → List ℕ → Option ℕ
strcasestr pat s = strstr (map lower pat) (map lower s)

abbrev pub is_space : ℕ → Bool
is_space c = c == 32 || (leb 9 c && leb c 13)

-- The value of a hexadecimal digit.
abbrev pub hex_digit : ℕ → Option ℕ
hex_digit c =
    if leb 48 c && leb c 57
    then some (c - 48)
    else if leb 65 c && leb c 70
    then some (c - 55)
    else if leb 97 c && leb c 102
    then some (c - 87)
    else none

-- The digits at the head of a text, as a number, with what stands before them; `none` if there is none.
unfoldable pub hex_digits : Option ℕ → List ℕ → Option ℕ
hex_digits acc [] = acc
hex_digits acc (c ∷ cs) = elim (hex_digit c) [
  | none ↦ acc
  | some d ↦ hex_digits (some (elim acc [ none ↦ d | some a ↦ a * 16 + d ])) cs
]

-- An `unsigned int` stored into an `int`.
abbrev pub to_int : ℕ → ℤ
to_int n = let w = n % 2 ^ 32 in if ltb w (2 ^ 31) then pos w else negsuc (2 ^ 32 - 1 - w)

-- A prefix "0x" is passed over where a digit follows it.
abbrev after_prefix : List ℕ → Option ℕ
after_prefix (z ∷ x ∷ c ∷ cs) =
    if z == 48 && lower x == 120
    then elim (hex_digit c) as (λ _. Option ℕ) [ none ↦ some 0 | some d ↦ hex_digits none (c ∷ cs) ]
    else hex_digits none (z ∷ x ∷ c ∷ cs)
after_prefix cs = hex_digits none cs

unfoldable pub skip_space : List ℕ → List ℕ
skip_space [] = []
skip_space (c ∷ cs) = let rest = skip_space cs in if is_space c then rest else c ∷ cs

abbrev signed_hex : List ℕ → Option ℕ
signed_hex [] = none
signed_hex (c ∷ cs) =
    if c == 45
    then elim (after_prefix cs) as (λ _. Option ℕ) [
      | none ↦ none
      | some n ↦ some ((2 ^ 32 - n % 2 ^ 32) % 2 ^ 32)
    ]
    else if c == 43
    then after_prefix cs
    else after_prefix (c ∷ cs)

-- `sscanf(s, "%x", &size)`: the `int` that is stored, if there is one.
unfoldable pub scan_hex : List ℕ → Option ℤ
unfolding skip_space hex_digits
scan_hex s = elim (signed_hex (skip_space s)) [ none ↦ none | some n ↦ some (to_int n) ]
