-- ===== src/Optoken/Tokens.antt =====
-- internal/optoken/optoken.go: what the changes of a token list do to its names and its matches.
use microagency.Base.{
  refl, true, false, none, some, List, [], arith, Text, text_eq, text_eq_refl, text_eq_iff, ◌≡◌,
  ◌∷◌, ◌++◌, if◌then◌else◌,
}
use microagency.Optoken.{Token, has_name, replace_named, find_named, drop_named, match_hash}

-- Each name stands once.
abbrev pub Distinct : List Token → Type 0
Distinct [] = Unit
Distinct (t ∷ ts) = (has_name t.name ts ≡ false) × Distinct ts

has_name-append :
    (name : Text) (ts : List Token) (new : Token)
    → has_name name (ts ++ new ∷ []) ≡ (if has_name name ts then true else text_eq new.name name)
unfolding has_name
has_name-append name [] new = ground arith
has_name-append name (t ∷ ts) new = ground (arith, has_name-append name ts new)

pub append-Distinct :
    (ts : List Token) (new : Token)
    → has_name new.name ts ≡ false
    → Distinct ts
    → Distinct (ts ++ new ∷ [])
unfolding has_name
append-Distinct [] new h d = (refl, tt)
append-Distinct (t ∷ ts) new h d = ground (
  arith,
  has_name-append t.name ts new,
  append-Distinct ts new,
  text_eq_iff t.name new.name,
  text_eq_iff new.name t.name,
)

has_name-drop_named :
    (name other : Text) (ts : List Token)
    → has_name other ts ≡ false
    → has_name other (drop_named name ts) ≡ false
unfolding has_name drop_named
has_name-drop_named name other [] h = refl
has_name-drop_named name other (t ∷ ts) h = ground (arith, has_name-drop_named name other ts)

pub drop_named-Distinct :
    (name : Text) (ts : List Token) → Distinct ts → Distinct (drop_named name ts)
unfolding drop_named
drop_named-Distinct name [] d = tt
drop_named-Distinct name (t ∷ ts) d =
    ground (arith, has_name-drop_named name t.name ts, drop_named-Distinct name ts d.1)

has_name-replace_named :
    (name other : Text) (new : Token) (ts : List Token)
    → new.name ≡ name
    → has_name other (replace_named name new ts) ≡ has_name other ts
unfolding has_name replace_named
has_name-replace_named name other new [] e = refl
has_name-replace_named name other new (t ∷ ts) e =
    ground (arith, has_name-replace_named name other new ts e, text_eq_iff t.name name)

pub replace_named-Distinct :
    (name : Text) (new : Token) (ts : List Token)
    → new.name ≡ name
    → Distinct ts
    → Distinct (replace_named name new ts)
unfolding replace_named
replace_named-Distinct name new [] e d = tt
replace_named-Distinct name new (t ∷ ts) e d = ground (
  arith,
  text_eq_iff t.name name,
  has_name-replace_named name t.name new ts e,
  replace_named-Distinct name new ts e d.1,
)

pub match_hash-append :
    (got : Text) (ts : List Token) (new : Token)
    → match_hash got (ts ++ new ∷ []) ≡ (elim (match_hash got ts) [
      | some t ↦ some t
      | none ↦ if text_eq got new.sha256 then some new else none
    ])
unfolding match_hash
match_hash-append got [] new = ground arith
match_hash-append got (t ∷ ts) new = ground (arith, match_hash-append got ts new)

-- A match in the list without a name has another name.
pub match_hash-drop_named :
    (got name : Text) (ts : List Token) (t : Token)
    → match_hash got (drop_named name ts) ≡ some t
    → text_eq t.name name ≡ false
unfolding match_hash drop_named
match_hash-drop_named got name [] t h = absurd (cc)
match_hash-drop_named got name (u ∷ ts) t h = ground (arith, match_hash-drop_named got name ts t)

-- A match of another name stays.
pub drop_named-match_hash :
    (got name : Text) (ts : List Token) (t : Token)
    → match_hash got ts ≡ some t
    → text_eq t.name name ≡ false
    → match_hash got (drop_named name ts) ≡ some t
unfolding match_hash drop_named
drop_named-match_hash got name [] t h ne = absurd (cc)
drop_named-match_hash got name (u ∷ ts) t h ne = ground (arith, drop_named-match_hash got name ts t)

pub find_named-name :
    (name : Text) (ts : List Token) (t : Token) → find_named name ts ≡ some t → t.name ≡ name
unfolding find_named
find_named-name name [] t h = absurd (cc)
find_named-name name (u ∷ ts) t h =
    ground (arith, text_eq_iff u.name name, find_named-name name ts t)

-- After a replacement, a hash that the new token does not have matches no token of the name.
match_hash-other :
    (got name : Text) (ts : List Token) (t : Token)
    → has_name name ts ≡ false
    → match_hash got ts ≡ some t
    → text_eq t.name name ≡ false
unfolding match_hash has_name
match_hash-other got name [] t d h = absurd (cc)
match_hash-other got name (u ∷ ts) t d h = ground (arith, match_hash-other got name ts t)

pub match_hash-replace_named :
    (got name : Text) (new : Token) (ts : List Token) (t : Token)
    → Distinct ts
    → text_eq got new.sha256 ≡ false
    → match_hash got (replace_named name new ts) ≡ some t
    → text_eq t.name name ≡ false
unfolding match_hash replace_named
match_hash-replace_named got name new [] t d ne h = absurd (cc)
match_hash-replace_named got name new (u ∷ ts) t d ne h = ground (
  arith,
  text_eq_iff u.name name,
  match_hash-replace_named got name new ts t d.1 ne,
  match_hash-other got name ts t,
)

-- The new token of a replacement is matched by its hash if no token had it.
pub replace_named-match_hash :
    (name : Text) (new old : Token) (ts : List Token)
    → find_named name ts ≡ some old
    → match_hash new.sha256 ts ≡ none
    → match_hash new.sha256 (replace_named name new ts) ≡ some new
unfolding match_hash replace_named find_named
replace_named-match_hash name new old [] h fresh = absurd (cc)
replace_named-match_hash name new old (u ∷ ts) h fresh =
    ground (arith, text_eq_refl new.sha256, replace_named-match_hash name new old ts)
