-- ===== src/Auth/Identity/Laws.antt =====
-- A principal key stands for one issuer and one subject.
use microagency.Base.{
  ℕ, refl, sym, ap, inl, inr, false, some, [], arith, Option-cases, Text, codes, text_eq_refl,
  text_eq_iff, replace_all, has_byte, cut_byte, ◌≡◌, ◌≢◌, ◌∙◌, ◌∷◌, ◌++◌, ◌==◌, if◌then◌else◌,
}
use microagency.Auth.Identity.{
  escape_key_part, unescape_key_part, principal_key, check_halves, split_principal_key,
}

-- The escaping byte by byte, in front of a text.
abbrev escape_byte : ℕ → Text → Text
escape_byte c t = if c == 37 then 37 ∷ 50 ∷ 53 ∷ t else if c == 35 then 37 ∷ 50 ∷ 51 ∷ t else c ∷ t

escaped : Text → Text
escaped [] = []
escaped (c ∷ s) = escape_byte c (escaped s)

-- After the first replacement only the percent signs are escaped.
abbrev half_byte : ℕ → Text → Text
half_byte c t = if c == 37 then 37 ∷ 50 ∷ 53 ∷ t else c ∷ t

half_escaped : Text → Text
half_escaped [] = []
half_escaped (c ∷ s) = half_byte c (half_escaped s)

percent-half : (s : Text) → replace_all (codes "%") (codes "%25") s ≡ half_escaped s
unfolding replace_all half_escaped
percent-half [] = refl
percent-half (c ∷ s) = ground (arith, percent-half s)

hash-escaped : (s : Text) → replace_all (codes "#") (codes "%23") (half_escaped s) ≡ escaped s
unfolding replace_all half_escaped escaped
hash-escaped [] = refl
hash-escaped (c ∷ s) = ground (arith, hash-escaped s)

escape-escaped : (s : Text) → escape_key_part s ≡ escaped s
unfolding escape_key_part
escape-escaped s = ap (replace_all (codes "#") (codes "%23")) (percent-half s) ∙ hash-escaped s

hash-unescaped : (s : Text) → replace_all (codes "%23") (codes "#") (escaped s) ≡ half_escaped s
unfolding replace_all half_escaped escaped
hash-unescaped [] = refl
hash-unescaped (c ∷ s) = ground (arith, hash-unescaped s)

percent-unescaped : (s : Text) → replace_all (codes "%25") (codes "%") (half_escaped s) ≡ s
unfolding replace_all half_escaped
percent-unescaped [] = refl
percent-unescaped (c ∷ s) = ground (arith, percent-unescaped s)

-- Unescaping an escaped half of a key gives the half back.
pub unescape-escape : (s : Text) → unescape_key_part (escape_key_part s) ≡ s
unfolding unescape_key_part
unescape-escape s =
    ap unescape_key_part (escape-escaped s)
    ∙ (ap (replace_all (codes "%25") (codes "%")) (hash-unescaped s) ∙ percent-unescaped s)

has_byte-escaped : (s : Text) → has_byte 35 (escaped s) ≡ false
unfolding has_byte escaped
has_byte-escaped [] = refl
has_byte-escaped (c ∷ s) = ground (arith, has_byte-escaped s)

cut_byte-escaped : (s t : Text) → cut_byte 35 (escaped s ++ (35 ∷ t)) ≡ some (escaped s, t)
unfolding cut_byte escaped
cut_byte-escaped [] t = refl
cut_byte-escaped (c ∷ s) t = ground (arith, cut_byte-escaped s t)

cut-principal_key :
    (i s : Text) → cut_byte 35 (principal_key i s) ≡ some (escape_key_part i, escape_key_part s)
unfolding principal_key
cut-principal_key i s = rw (escape-escaped i) (cut_byte-escaped i (escape_key_part s))

has_byte-escape : (s : Text) → has_byte 35 (escape_key_part s) ≡ false
has_byte-escape s = rw (escape-escaped s) (has_byte-escaped s)

check_halves-own :
    (i s : Text) → i ≢ [] → s ≢ [] → check_halves (principal_key i s) i s ≡ some (i, s)
unfolding check_halves
check_halves-own i s hi hs =
    ground (arith, text_eq_iff i [], text_eq_iff s [], text_eq_refl (principal_key i s))

check_halves-canonical :
    (key l r i s : Text)
    → check_halves key l r ≡ some (i, s)
    → (key ≡ principal_key i s) × (i ≢ []) × (s ≢ [])
unfolding check_halves
check_halves-canonical key l r i s h =
    ground (arith, text_eq_iff l [], text_eq_iff r [], text_eq_iff (principal_key l r) key)

-- A key that is composed from a non-empty issuer and a non-empty subject splits into them again.
pub split-principal_key :
    (issuer subject : Text)
    → issuer ≢ []
    → subject ≢ []
    → split_principal_key (principal_key issuer subject) ≡ some (issuer, subject)
unfolding split_principal_key
split-principal_key issuer subject hi hs =
    rw (cut-principal_key issuer subject, split_principal_key)
      (rw (has_byte-escape subject) (
        rw (unescape-escape issuer, unescape-escape subject)
          (check_halves-own issuer subject hi hs)))

-- Whatever splits is the canonical key of its two halves, and neither half is empty.
pub split_principal_key-canonical :
    (key issuer subject : Text)
    → split_principal_key key ≡ some (issuer, subject)
    → (key ≡ principal_key issuer subject) × (issuer ≢ []) × (subject ≢ [])
unfolding split_principal_key
split_principal_key-canonical key issuer subject h = elim (Option-cases (cut_byte 35 key)) [
  | inl e ↦ absurd (ground arith)
  | inr ((left, right), e) ↦
      check_halves-canonical key (unescape_key_part left) (unescape_key_part right) issuer subject
        (ground arith)
]

-- Two callers with one key have one issuer and one subject.
pub principal_key_injective :
    (i s j t : Text) → principal_key i s ≡ principal_key j t → (i ≡ j) × (s ≡ t)
principal_key_injective i s j t h =
    let cuts : some (escape_key_part i, escape_key_part s)
        ≡ some (escape_key_part j, escape_key_part t) =
      sym (cut-principal_key i s) ∙ (ap (cut_byte 35) h ∙ cut-principal_key j t) in
    ground (arith, cuts, unescape-escape i, unescape-escape s, unescape-escape j, unescape-escape t)
