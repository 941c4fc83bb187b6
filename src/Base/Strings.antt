-- ===== src/Base/Strings.antt =====
-- Go's strings as lists of bytes, with their equality test and the parts of package strings that
-- the program uses.
use Prim.Native.Nat.{ℕ, zero, suc, ◌-◌, compare, Ordering}
use Prim.Native.Char.{code}
use Prim.Native.String.{String}
use mathlib.Core.Path.{◌≡◌, refl}
use mathlib.Core.Logic.{◌↔◌}
use mathlib.Core.Bool.{Bool, true, false, ◌&&◌}
use mathlib.Core.Option.{Option, none, some}
use mathlib.Core.List.{List, [], ◌∷◌, ◌++◌}
use native.Mathlib.Omega.{arith}
use microagency.Base.Tests.{◌==◌, if◌then◌else◌}
use microagency.Base.Lists.{length, drop}

abbrev pub Text : Type 0
Text = List ℕ

-- The bytes of an ASCII literal.
abbrev pub codes : String → Text
codes String.[] = []
codes (String.◌∷◌ c s) = code c ∷ codes s

-- The `==` of strings.
unfoldable pub text_eq : Text → Text → Bool
text_eq [] [] = true
text_eq (a ∷ s) (b ∷ t) = (a == b) && text_eq s t
text_eq _ _ = false

pub text_eq→eq : (s t : Text) → text_eq s t ≡ true → s ≡ t
unfolding text_eq
text_eq→eq [] [] h = refl
text_eq→eq (a ∷ s) (b ∷ t) h = ground (arith, text_eq→eq s t)
text_eq→eq [] (b ∷ t) h = cc
text_eq→eq (a ∷ s) [] h = cc

pub text_eq_refl : (s : Text) → text_eq s s ≡ true
unfolding text_eq
text_eq_refl [] = refl
text_eq_refl (a ∷ s) = ground (arith, text_eq_refl s)

eq→text_eq : (s t : Text) → s ≡ t → text_eq s t ≡ true
eq→text_eq s t e = rw e (text_eq_refl t)

pub text_eq_iff : (s t : Text) → (text_eq s t ≡ true) ↔ (s ≡ t)
text_eq_iff s t = (text_eq→eq s t, eq→text_eq s t)

-- The `<` of strings: by bytes, a proper prefix first.
unfoldable pub text_lt : Text → Text → Bool
text_lt [] [] = false
text_lt [] (b ∷ t) = true
text_lt (a ∷ s) [] = false
text_lt (a ∷ s) (b ∷ t) =
    let rest = text_lt s t in
    elim (compare a b) [ Ordering.lt ↦ true | Ordering.eq ↦ rest | Ordering.gt ↦ false ]

-- `strings.HasPrefix s p`.
unfoldable pub starts_with : Text → Text → Bool
starts_with s [] = true
starts_with [] (b ∷ p) = false
starts_with (a ∷ s) (b ∷ p) = (a == b) && starts_with s p

-- `strings.ReplaceAll` for a non-empty old text: the number counts the bytes of a match that are
-- still to be skipped.
unfoldable pub replace_from : ℕ → Text → Text → Text → Text
replace_from k old new [] = []
replace_from (suc k) old new (c ∷ s) = replace_from k old new s
replace_from zero old new (c ∷ s) =
    let hit = new ++ replace_from (length old - 1) old new s in
    let miss = c ∷ replace_from 0 old new s in if starts_with (c ∷ s) old then hit else miss

unfoldable pub replace_all : Text → Text → Text → Text
unfolding replace_from starts_with
replace_all old new s = replace_from 0 old new s

-- `strings.Contains` for one byte.
unfoldable pub has_byte : ℕ → Text → Bool
has_byte b [] = false
has_byte b (c ∷ s) = if c == b then true else has_byte b s

-- `strings.Cut` at the first of one byte.
unfoldable pub cut_byte : ℕ → Text → Option (Text × Text)
cut_byte b [] = none
cut_byte b (c ∷ s) =
    let rest = cut_byte b s in
    if c == b then some ([], s) else elim rest [ none ↦ none | some (x, y) ↦ some (c ∷ x, y) ]

-- `strings.Contains`.
unfoldable pub contains : Text → Text → Bool
unfolding starts_with
contains [] p = starts_with [] p
contains (c ∷ s) p = if starts_with (c ∷ s) p then true else contains s p

-- `strings.Cut` at the first occurrence of a text.
unfoldable pub cut_at : Text → Text → Option (Text × Text)
unfolding starts_with
cut_at p [] = if starts_with [] p then some ([], drop (length p) []) else none
cut_at p (c ∷ s) =
    let rest = cut_at p s in
    if starts_with (c ∷ s) p
    then some ([], drop (length p) (c ∷ s))
    else elim rest [ none ↦ none | some (x, y) ↦ some (c ∷ x, y) ]

abbrev pub push_front : ℕ → List Text → List Text
push_front c [] = (c ∷ []) ∷ []
push_front c (s ∷ ss) = (c ∷ s) ∷ ss

-- `strings.Split` at one byte.
unfoldable pub split_byte : ℕ → Text → List Text
split_byte b [] = [] ∷ []
split_byte b (c ∷ s) = let rest = split_byte b s in if c == b then [] ∷ rest else push_front c rest

-- `strings.TrimPrefix` and `strings.TrimSuffix` for one byte.
unfoldable pub trim_first : ℕ → Text → Text
trim_first b [] = []
trim_first b (c ∷ s) = if c == b then s else c ∷ s

unfoldable pub trim_last : ℕ → Text → Text
trim_last b [] = []
trim_last b (c ∷ []) = if c == b then [] else c ∷ []
trim_last b (c ∷ (d ∷ s)) = c ∷ trim_last b (d ∷ s)

-- A text is among those of a list: the lookup in a set that was filled from it.
unfoldable pub member : Text → List Text → Bool
member s [] = false
member s (t ∷ ts) = if text_eq t s then true else member s ts
