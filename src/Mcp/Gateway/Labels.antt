-- ===== src/Mcp/Gateway/Labels.antt =====
-- internal/mcp/connectionlabel.go: the names that tell connections apart. A refusal is none.
use microagency.Base.{
  ℕ, Bool, false, not, Option, none, some, [], ltb, leb, length, any, all, Text, codes, text_eq,
  starts_with, contains, ◌&&◌, ◌||◌, ◌∷◌, ◌==◌, if◌then◌else◌,
}
use microagency.Mcp.Packages.{Packages}

abbrev pub max_connection_label_runes : ℕ
max_connection_label_runes = 32

abbrev pub is_alphanumeric : ℕ → Bool
is_alphanumeric r =
    (leb b'a' r && leb r b'z') || (leb b'A' r && leb r b'Z') || (leb b'0' r && leb r b'9')

-- `checkLabelRune`: every refusal first, then the bytes that are admitted.
unfoldable pub check_label_rune : Packages → ℕ → Bool
check_label_rune p r =
    if (r == 10) || (r == 13) || (r == 9) || ltb r 32 || (r == 127)
    then false
    else if p.is_format r
    then false
    else if ltb 127 r
    then false
    else (r == b' ') || is_alphanumeric r || (r == b'-') || (r == b'_') || (r == b'.')

unfoldable pub ends_in_space : Text → Bool
ends_in_space [] = false
ends_in_space (c ∷ []) = c == b' '
ends_in_space (c ∷ (d ∷ s)) = ends_in_space (d ∷ s)

-- The tests on the text of a label whose runes are admitted.
unfoldable pub is_label_text : Text → Bool
unfolding contains starts_with ends_in_space any
is_label_text raw =
    not (starts_with raw (codes " "))
    && not (ends_in_space raw)
    && not (contains raw (codes "  "))
    && not (contains raw (codes "__"))
    && any is_alphanumeric raw

unfoldable pub validate_connection_label : Packages → Text → Option Text
unfolding check_label_rune is_label_text all
validate_connection_label p raw = elim (p.runes raw) [
  | none ↦ if text_eq raw [] then some [] else none
  | some rs ↦
      if text_eq raw []
      then some []
      else if leb (length rs) max_connection_label_runes
          && all (check_label_rune p) rs
          && is_label_text raw
      then some raw
      else none
]
