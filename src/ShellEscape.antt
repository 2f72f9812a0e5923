-- ===== src/ShellEscape.antt =====
-- utils/shellEscape.ts: how a text is written between the double quotes of a shell command
-- (`shellEscapeDoubleQuoted`), and which texts need no such care (`isSafeFilterValue`).
pub mod Quoted
pub mod Tests
use Prim.Native.Char.{Char, code}
use Prim.Native.String.append
use velotradex.Base.{ℕ, String, Bool, true, false, not, ◌&&◌, ◌||◌, ◌<>◌, leb, ◌==◌, if◌then◌else◌}

-- `text.replace(/c/g, word)`, for one character `c`
unfoldable pub replace : Char → String → String → String
replace c word String.[] = ""
replace c word (String.◌∷◌ d s) =
    let rest = replace c word s in if code d == code c then word <> rest else String.◌∷◌ d rest

unfoldable pub shell_escape_double_quoted : String → String
unfolding replace
shell_escape_double_quoted str =
    replace "$" "\\$" (replace "`" "\\`" (replace "\"" "\\\"" (replace "\\" "\\\\" str)))

-- `[a-zA-Z0-9_]`
abbrev is_word_char : ℕ → Bool
is_word_char c =
    leb b'a' c && leb c b'z' || leb b'A' c && leb c b'Z' || leb b'0' c && leb c b'9' || c == b'_'

unfoldable pub all_word_chars : String → Bool
all_word_chars String.[] = true
all_word_chars (String.◌∷◌ c s) = is_word_char (code c) && all_word_chars s

unfoldable pub is_empty : String → Bool
is_empty String.[] = true
is_empty (String.◌∷◌ c s) = false

unfoldable pub is_safe_filter_value : String → Bool
unfolding is_empty all_word_chars
is_safe_filter_value value = not (is_empty value) && all_word_chars value
