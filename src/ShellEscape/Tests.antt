-- ===== src/ShellEscape/Tests.antt =====
-- Tests of ShellEscape, and examples of its theorems.
use velotradex.Base.{◌≡◌, refl, ◌<>◌, none, some, true, false}
use velotradex.ShellEscape.{replace, shell_escape_double_quoted, is_safe_filter_value}
use velotradex.ShellEscape.Quoted.{read_quoted, read_quoted-escape}

escapes : shell_escape_double_quoted "a\"; rm \\ `$x`" ≡ "a\\\"; rm \\\\ \\`\\$x\\`"
unfolding shell_escape_double_quoted replace
escapes = refl

unescaped_runs : read_quoted false "a$(x)\" | wc" ≡ none
unfolding read_quoted
unescaped_runs = refl

plain_ends : read_quoted false "a b\" | wc" ≡ some ("a b", " | wc")
unfolding read_quoted
plain_ends = refl

levels :
    (is_safe_filter_value "error_2" ≡ true)
    × ((is_safe_filter_value "a'b" ≡ false) × (is_safe_filter_value "" ≡ false))
unfolding is_safe_filter_value
levels = (refl, (refl, refl))

read_quoted-escape_example :
    read_quoted false (shell_escape_double_quoted "\"$(id)\\" <> ("\"" <> " | wc -l"))
    ≡ some ("\"$(id)\\", " | wc -l")
read_quoted-escape_example = read_quoted-escape "\"$(id)\\" " | wc -l"
