-- ===== src/Prelude/Text.antt =====
-- Go strings as the list of their bytes. The texts that the modelled code takes apart are ASCII,
-- on which the byte and the rune view of Go agree; so do `strings.ToLower` and `TrimSpace` then.
use Prim.Native.Char.{code}
use Prim.Native.String.{String}
use tui_ssh_client.Prelude.Tests.{leb, ltb, ◌==◌, if◌then◌else◌}
use Prim.Native.Nat.{ℕ, zero, suc, ◌+◌, ◌/◌, ◌%◌}
use mathlib.Core.Path.{◌≡◌, refl}
use mathlib.Core.Logic.{◌↔◌}
use mathlib.Core.Bool.{Bool, true, false, ◌&&◌, ◌||◌}
use mathlib.Core.List.{List, [], ◌∷◌, ◌++◌, reverse, map}
use native.Mathlib.Omega.{arith}

abbrev pub Text : Type 0
Text = List ℕ

-- The bytes of an ASCII literal.
abbrev pub codes : String → Text
codes String.[] = []
codes (String.◌∷◌ c s) = code c ∷ codes s

-- s == t
unfoldable pub text_eq : Text → Text → Bool
text_eq [] [] = true
text_eq [] (d ∷ t) = false
text_eq (c ∷ s) [] = false
text_eq (c ∷ s) (d ∷ t) = c == d && text_eq s t

pub text_eq_iff : (s t : Text) → (text_eq s t ≡ true) ↔ (s ≡ t)
unfolding text_eq
text_eq_iff [] [] = ground arith
text_eq_iff [] (d ∷ t) = ground arith
text_eq_iff (c ∷ s) [] = ground arith
text_eq_iff (c ∷ s) (d ∷ t) = ground (arith, text_eq_iff s t)

pub text_eq_refl : (s : Text) → text_eq s s ≡ true
text_eq_refl s = (text_eq_iff s s).1 refl

-- s == ""
abbrev pub is_empty : Text → Bool
is_empty [] = true
is_empty (c ∷ s) = false

-- unicode.IsSpace on ASCII
abbrev pub is_space : ℕ → Bool
is_space c = c == b' ' || (leb 9 c && leb c 13)

unfoldable pub drop_space : Text → Text
drop_space [] = []
drop_space (c ∷ s) = elim (is_space c) [ true ↦ drop_space s | false ↦ c ∷ s ]

-- strings.TrimSpace
unfoldable pub trim_space : Text → Text
unfolding drop_space
trim_space s = reverse (drop_space (reverse (drop_space s)))

-- strings.HasPrefix(s, p)
drop_byte : ℕ → Text → Text
drop_byte c [] = []
drop_byte c (d ∷ s) = elim (d == c) [ true ↦ drop_byte c s | false ↦ d ∷ s ]

-- strings.Trim(s, set) for a set of one byte
unfoldable pub trim_byte : ℕ → Text → Text
unfolding drop_byte
trim_byte c s = reverse (drop_byte c (reverse (drop_byte c s)))

-- strings.HasPrefix(s, p)
unfoldable pub has_prefix : Text → Text → Bool
has_prefix s [] = true
has_prefix [] (d ∷ p) = false
has_prefix (c ∷ s) (d ∷ p) = c == d && has_prefix s p

-- strings.HasSuffix(s, "\n") and the like
unfoldable pub has_suffix : Text → Text → Bool
unfolding has_prefix
has_suffix s p = has_prefix (reverse s) (reverse p)

unfoldable pub to_lower_byte : ℕ → ℕ
to_lower_byte c = if leb b'A' c && leb c b'Z' then c + 32 else c

-- strings.ToLower
unfoldable pub to_lower : Text → Text
unfolding to_lower_byte
to_lower = map to_lower_byte

-- strings.IndexByte(s, c) >= 0
unfoldable pub has_byte : ℕ → Text → Bool
has_byte c [] = false
has_byte c (d ∷ s) = d == c || has_byte c s

-- strings.ContainsAny(s, set)
unfoldable pub contains_any : Text → Text → Bool
unfolding has_byte
contains_any [] set = false
contains_any (c ∷ s) set = has_byte c set || contains_any s set

-- s[:i] and s[i+1:] at the first byte that passes the test; the flag says whether there is one.
pub record Cut : Type 0 where
  pub before : Text
  pub after : Text
  pub found : Bool

unfoldable pub cut_at : (ℕ → Bool) → Text → Cut
cut_at p [] = record { before = []; after = []; found = false }
cut_at p (c ∷ s) =
    let rest = cut_at p s in
    if p c
    then record { before = []; after = s; found = true }
    else record rest { before = c ∷ rest.before }

-- strings.Split(s, sep) at a one-byte separator: never empty.
abbrev pub cons_head : ℕ → List Text → List Text
cons_head c [] = (c ∷ []) ∷ []
cons_head c (w ∷ ws) = (c ∷ w) ∷ ws

unfoldable pub split : ℕ → Text → List Text
split sep [] = [] ∷ []
split sep (c ∷ s) = let rest = split sep s in if c == sep then [] ∷ rest else cons_head c rest

-- strings.Fields
abbrev pub drop_empty : List Text → List Text
drop_empty [] = []
drop_empty ([] ∷ ws) = drop_empty ws
drop_empty ((c ∷ w) ∷ ws) = (c ∷ w) ∷ drop_empty ws

split_space : Text → List Text
split_space [] = [] ∷ []
split_space (c ∷ s) = let rest = split_space s in if is_space c then [] ∷ rest else cons_head c rest

unfoldable pub fields : Text → List Text
unfolding split_space
fields s = drop_empty (split_space s)

-- strings.Join(parts, sep)
unfoldable pub join : Text → List Text → Text
join sep [] = []
join sep (w ∷ []) = w
join sep (w ∷ v ∷ ws) = w ++ (sep ++ join sep (v ∷ ws))

-- s < t, byte by byte
unfoldable pub text_lt : Text → Text → Bool
text_lt [] [] = false
text_lt [] (d ∷ t) = true
text_lt (c ∷ s) [] = false
text_lt (c ∷ s) (d ∷ t) = if c == d then text_lt s t else leb (c + 1) d

-- strconv.Itoa of a number that is not negative; the fuel is more than the number of digits.
itoa_onto : ℕ → ℕ → Text → Text
itoa_onto zero n acc = acc
itoa_onto (suc fuel) n acc =
    let rest = itoa_onto fuel (n / 10) ((b'0' + n % 10) ∷ acc) in
    if ltb n 10 then (b'0' + n) ∷ acc else rest

unfoldable pub itoa : ℕ → Text
unfolding itoa_onto
itoa n = itoa_onto (suc n) n []

-- strings.Contains(s, sub)
unfoldable pub contains : Text → Text → Bool
unfolding has_prefix
contains [] sub = has_prefix [] sub
contains (c ∷ s) sub = has_prefix (c ∷ s) sub || contains s sub
