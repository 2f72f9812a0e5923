-- ===== src/Text.antt =====
-- Built-in methods of JavaScript texts, on the ASCII characters, and utils/normalizeSymbol.ts
-- (`normalizeSymbolCase`). Symbols, sides and statuses are ASCII; other characters are left alone.
use Prim.Native.Char.{Char, code}
use Prim.Native.String.append
use velotradex.Base.{
  ◌≡◌, refl, arith, ◌<>◌, ==_iff, ℕ, zero, suc, ◌-◌, String, Bool, true, false, ◌&&◌, ◌||◌,
  if◌then◌else◌, leb, ◌==◌,
}

-- the character at a place of a text, or else `d`
unfoldable pub pick : ℕ → String → Char → Char
pick i String.[] d = d
pick zero (String.◌∷◌ c s) d = c
pick (suc i) (String.◌∷◌ c s) d = pick i s d

abbrev is_lower : ℕ → Bool
is_lower c = leb b'a' c && leb c b'z'

abbrev is_space : ℕ → Bool
is_space c = c == 32 || (leb 9 c && leb c 13)

unfoldable pub upper_char : Char → Char
unfolding pick
upper_char c = if is_lower (code c) then pick (code c - b'a') "ABCDEFGHIJKLMNOPQRSTUVWXYZ" c else c

unfoldable pub to_upper_case : String → String
unfolding upper_char
to_upper_case String.[] = ""
to_upper_case (String.◌∷◌ c s) = String.◌∷◌ (upper_char c) (to_upper_case s)

unfoldable pub trim_start : String → String
trim_start String.[] = ""
trim_start (String.◌∷◌ c s) =
    let rest = trim_start s in if is_space (code c) then rest else String.◌∷◌ c s

-- a character in front of a text that is trimmed at its end
unfoldable pub cons_trimmed : Char → String → String
cons_trimmed c String.[] = if is_space (code c) then "" else String.◌∷◌ c ""
cons_trimmed c (String.◌∷◌ d s) = String.◌∷◌ c (String.◌∷◌ d s)

unfoldable pub trim_end : String → String
unfolding cons_trimmed
trim_end String.[] = ""
trim_end (String.◌∷◌ c s) = cons_trimmed c (trim_end s)

unfoldable pub trim : String → String
unfolding trim_start trim_end
trim s = trim_start (trim_end s)

unfoldable pub normalize_symbol_case : String → String
unfolding trim to_upper_case
normalize_symbol_case symbol = to_upper_case (trim symbol)

normalize_symbol_case_runs : normalize_symbol_case " xau_usdt " ≡ "XAU_USDT"
unfolding normalize_symbol_case
normalize_symbol_case_runs = refl

abbrev is_upper : ℕ → Bool
is_upper c = leb b'A' c && leb c b'Z'

unfoldable pub lower_char : Char → Char
unfolding pick
lower_char c = if is_upper (code c) then pick (code c - b'A') "abcdefghijklmnopqrstuvwxyz" c else c

unfoldable pub to_lower_case : String → String
unfolding lower_char
to_lower_case String.[] = ""
to_lower_case (String.◌∷◌ c s) = String.◌∷◌ (lower_char c) (to_lower_case s)

unfoldable pub starts_with : String → String → Bool
starts_with s String.[] = true
starts_with String.[] (String.◌∷◌ d t) = false
starts_with (String.◌∷◌ c s) (String.◌∷◌ d t) = (code c == code d) && starts_with s t

-- `text.includes(part)`
unfoldable pub includes : String → String → Bool
unfolding starts_with
includes String.[] part = starts_with "" part
includes (String.◌∷◌ c s) part = starts_with (String.◌∷◌ c s) part || includes s part

includes_runs : includes (to_lower_case "Invalid NONCE 7") "nonce" ≡ true
unfolding includes to_lower_case
includes_runs = refl

starts_with-append : (part rest : String) → starts_with (part <> rest) part ≡ true
unfolding starts_with
starts_with-append String.[] rest = refl
starts_with-append (String.◌∷◌ c s) rest =
    rw (append.cons c s rest) (ground (arith, starts_with-append s rest, ==_iff (code c) (code c)))

includes_start : (text part : String) → starts_with text part ≡ true → includes text part ≡ true
unfolding includes
includes_start String.[] part h = h
includes_start (String.◌∷◌ c s) part h = ground arith

-- A part of a text is found in it.
pub includes-append : (before part rest : String) → includes (before <> (part <> rest)) part ≡ true
unfolding includes
includes-append String.[] part rest =
    rw (append.nil (part <> rest))
      (includes_start (part <> rest) part (starts_with-append part rest))
includes-append (String.◌∷◌ c s) part rest =
    rw (append.cons c s (part <> rest)) (ground (arith, includes-append s part rest))
