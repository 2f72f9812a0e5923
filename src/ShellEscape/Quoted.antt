-- ===== src/ShellEscape/Quoted.antt =====
-- How a shell reads the inside of double quotes, and that an escaped text is read as itself.
use Prim.Native.Char.{Char, code}
use Prim.Native.String.append
use text.Mathlib.TextEquality.{Char-path}
use velotradex.Base.{
  ℕ, String, Bool, true, false, ◌||◌, ◌<>◌, ◌==◌, ==_iff, if◌then◌else◌, Option, none, some, ◌≡◌,
  ◌≢◌, not, both_true, refl, sym, ap, subst, arith, Bool-cases, inl, inr,
}
use velotradex.ShellEscape.{
  replace, shell_escape_double_quoted, all_word_chars, is_empty, is_safe_filter_value,
}

-- The characters that keep a special meaning between double quotes.
abbrev is_special : ℕ → Bool
is_special c = c == b'$' || c == b'`' || c == b'"' || c == b'\\'

-- a character in front of the text that is read
before : Char → Option (String × String) → Option (String × String)
before c none = none
before c (some (s, rest)) = some (String.◌∷◌ c s, rest)

-- Reads up to the closing quote: the text that is meant, and what follows the quote. There is no
-- answer when the quote is not closed or when the shell would run or expand something. With `true`
-- the character before was a backslash: it hides a special character, joins two lines and is itself
-- before any other character.
unfoldable pub read_quoted : Bool → String → Option (String × String)
unfolding before
read_quoted escaped String.[] = none
read_quoted true (String.◌∷◌ c s) =
    let rest = read_quoted false s in
    if is_special (code c)
    then before c rest
    else if code c == 10
    then rest
    else before "\\" (before c rest)
read_quoted false (String.◌∷◌ c s) =
    let hidden = read_quoted true s in
    let rest = before c (read_quoted false s) in
    if code c == b'\\'
    then hidden
    else if code c == b'"'
    then some ("", s)
    else if is_special (code c)
    then none
    else rest

-- what is written for one character
hide : Char → String → String
hide c s = if is_special (code c) then String.◌∷◌ "\\" (String.◌∷◌ c s) else String.◌∷◌ c s

-- a text after the second replacement, and after the third
abbrev without_quote : String → String
without_quote s = replace "\"" "\\\"" (replace "\\" "\\\\" s)

abbrev without_backtick : String → String
without_backtick s = replace "`" "\\`" (without_quote s)

put_two :
    (c : Char) (s : String)
    → String.◌∷◌ "\\" (String.◌∷◌ c "") <> s ≡ String.◌∷◌ "\\" (String.◌∷◌ c s)
put_two c s = rw (append.cons "\\" (String.◌∷◌ c "") s, append.cons c "" s, append.nil s) refl

-- A character is escaped on its own, whatever follows it.
abbrev IsStep : String → Char → Type 0
IsStep s c = shell_escape_double_quoted (String.◌∷◌ c s) ≡ hide c (shell_escape_double_quoted s)

dollar-IsStep : (s : String) → IsStep s "$"
unfolding shell_escape_double_quoted replace hide
dollar-IsStep s = put_two "$" (replace "$" "\\$" (without_backtick s))

backtick-IsStep : (s : String) → IsStep s "`"
unfolding shell_escape_double_quoted replace hide
backtick-IsStep s = ap (replace "$" "\\$") (put_two "`" (without_backtick s))

quote-IsStep : (s : String) → IsStep s "\""
unfolding shell_escape_double_quoted replace hide
quote-IsStep s = ap (λ t. replace "$" "\\$" (replace "`" "\\`" t)) (put_two "\"" (without_quote s))

backslash-IsStep : (s : String) → IsStep s "\\"
unfolding shell_escape_double_quoted replace hide
backslash-IsStep s =
    ap (λ t. replace "$" "\\$" (replace "`" "\\`" (replace "\"" "\\\"" t)))
      (put_two "\\" (replace "\\" "\\\\" s))

plain-IsStep :
    (c : Char) (s : String)
    → (code c == b'$') ≡ false
    → (code c == b'`') ≡ false
    → (code c == b'"') ≡ false
    → (code c == b'\\') ≡ false
    → IsStep s c
unfolding shell_escape_double_quoted replace hide
plain-IsStep c s n1 n2 n3 n4 = rw (n4, n3, n2, n1) refl

at_code : (s : String) (c d : Char) → (code c == code d) ≡ true → IsStep s d → IsStep s c
at_code s c d h k = subst (IsStep s) (sym (Char-path c d ((==_iff (code c) (code d)).0 h))) k

escape-IsStep : (c : Char) (s : String) → IsStep s c
escape-IsStep c s = elim (Bool-cases (code c == b'$')) [
  | inl e ↦ at_code s c "$" e (dollar-IsStep s)
  | inr n1 ↦ elim (Bool-cases (code c == b'`')) [
    | inl e ↦ at_code s c "`" e (backtick-IsStep s)
    | inr n2 ↦ elim (Bool-cases (code c == b'"')) [
      | inl e ↦ at_code s c "\"" e (quote-IsStep s)
      | inr n3 ↦ elim (Bool-cases (code c == b'\\')) [
        | inl e ↦ at_code s c "\\" e (backslash-IsStep s)
        | inr n4 ↦ plain-IsStep c s n1 n2 n3 n4
      ]
    ]
  ]
]

hide-append : (c : Char) (s t : String) → hide c s <> t ≡ hide c (s <> t)
unfolding hide
hide-append c s t = elim (Bool-cases (is_special (code c))) [
  | inl e ↦ rw (e, append.cons "\\" (String.◌∷◌ c s) t, append.cons c s t) refl
  | inr e ↦ rw (e, append.cons c s t) refl
]

read-hide : (c : Char) (s : String) → read_quoted false (hide c s) ≡ before c (read_quoted false s)
unfolding read_quoted hide
read-hide c s = ground arith

-- Whatever the text, the shell reads what is written for it between double quotes as the text
-- itself, runs and expands nothing, and goes on after the closing quote.
pub read_quoted-escape :
    (str rest : String)
    → read_quoted false (shell_escape_double_quoted str <> ("\"" <> rest)) ≡ some (str, rest)
unfolding read_quoted before shell_escape_double_quoted replace
read_quoted-escape String.[] rest =
    rw (append.nil ("\"" <> rest), append.cons "\"" "" rest, append.nil rest) refl
read_quoted-escape (String.◌∷◌ c s) rest =
    rw
      (
        escape-IsStep c s,
        hide-append c (shell_escape_double_quoted s) ("\"" <> rest),
        read-hide c (shell_escape_double_quoted s <> ("\"" <> rest)),
        read_quoted-escape s rest,
      )
      refl

-- Reads the inside of single quotes, where nothing is special, up to the closing quote.
unfoldable pub read_single : String → Option (String × String)
unfolding before
read_single String.[] = none
read_single (String.◌∷◌ c s) =
    let rest = before c (read_single s) in if code c == b'\'' then some ("", s) else rest

read_single-word :
    (s rest : String) → all_word_chars s ≡ true → read_single (s <> ("'" <> rest)) ≡ some (s, rest)
unfolding read_single before all_word_chars
read_single-word String.[] rest h =
    rw (append.nil ("'" <> rest), append.cons "'" "" rest, append.nil rest) refl
read_single-word (String.◌∷◌ c s) rest h =
    let plain : (code c == b'\'') ≡ false = ground arith in
    let more : all_word_chars s ≡ true = ground arith in
    rw (append.cons c s ("'" <> rest), plain, read_single-word s rest more) refl

-- A value that is let through is not empty, and between single quotes the shell reads it as itself.
pub read_single-value :
    (value rest : String)
    → is_safe_filter_value value ≡ true
    → (value ≢ "") × (read_single (value <> ("'" <> rest)) ≡ some (value, rest))
unfolding is_safe_filter_value is_empty
read_single-value value rest h =
    let empty : value ≡ "" → ⊥ =
      λ e. let bad : is_safe_filter_value "" ≡ true = rw e at h in ground arith in
    (
      empty,
      read_single-word value rest ((both_true (not (is_empty value)) (all_word_chars value) h).1),
    )
