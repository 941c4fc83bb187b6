-- ===== src/Auth/Identity.antt =====
-- internal/auth/auth.go: the canonical identity of a caller, "issuer#subject".
pub mod Laws
use microagency.Base.{
  not, Option, none, some, [], Text, codes, text_eq, replace_all, has_byte, cut_byte, ◌%◌, ◌||◌,
  ◌++◌, if◌then◌else◌,
}

-- '%' is 37 and '#' is 35.
unfoldable pub escape_key_part : Text → Text
unfolding replace_all
escape_key_part s = replace_all (codes "#") (codes "%23") (replace_all (codes "%") (codes "%25") s)

unfoldable pub unescape_key_part : Text → Text
unfolding replace_all
unescape_key_part s =
    replace_all (codes "%25") (codes "%") (replace_all (codes "%23") (codes "#") s)

unfoldable pub principal_key : Text → Text → Text
principal_key issuer subject = escape_key_part issuer ++ (codes "#" ++ escape_key_part subject)

-- The halves, if the key is their canonical form.
unfoldable pub check_halves : Text → Text → Text → Option (Text × Text)
unfolding principal_key
check_halves key issuer subject =
    if text_eq issuer [] || text_eq subject [] || not (text_eq (principal_key issuer subject) key)
    then none
    else some (issuer, subject)

-- `SplitPrincipalKey`, with `none` for its error.
unfoldable pub split_principal_key : Text → Option (Text × Text)
unfolding check_halves cut_byte has_byte
split_principal_key key = elim (cut_byte b'#' key) [
  | none ↦ none
  | some (left, right) ↦
      if has_byte b'#' right
      then none
      else check_halves key (unescape_key_part left) (unescape_key_part right)
]
