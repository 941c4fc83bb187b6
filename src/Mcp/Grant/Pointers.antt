-- ===== src/Mcp/Grant/Pointers.antt =====
-- The pointer that the walk of the arguments builds for a value leads `pointerValue` to that value.
use microagency.Base.{
  ℕ, refl, ap, inl, inr, Bool, true, false, Option, none, some, List, [], arith, leb, Option-cases,
  all, Text, codes, if_cases, is_empty, replace_all, has_byte, push_front, split_byte, trim_first,
  ◌≡◌, ◌≢◌, ◌⊎◌, ◌∙◌, ◌&&◌, ◌∷◌, ◌++◌, ◌==◌, if◌then◌else◌,
}
use microagency.Mcp.Packages.{Packages}
use microagency.Mcp.Json.{Json, array, object, Items, Members, member_at, item_at}
use microagency.Mcp.Grant.Evaluate.{
  escape_token, unescape_token, child, step_into, follow, pointer_value,
}

-- `Under p q v r w`: the walk that stands at `v` with the pointer `q` comes to `w` with `r`.
pub data Under (p : Packages) (q : Text) (v : Json) : Text → Json → Type 0 where
  here : Under p q v q v
  in_array :
      {r : Text} {vs : Items} {w : Json} (i : ℕ)
      → Under p q v r (array vs)
      → item_at i vs ≡ some w
      → Under p q v (child r (p.itoa i)) w
  in_object :
      {r : Text} {ms : Members} {w : Json} (k : Text)
      → Under p q v r (object ms)
      → member_at k ms ≡ some w
      → Under p q v (child r (escape_token k)) w

abbrev pub is_digit : ℕ → Bool
is_digit c = leb b'0' c && leb c b'9'

escaped : Text → Text
escaped [] = []
escaped (c ∷ s) =
    if c == 126
    then 126 ∷ 48 ∷ escaped s
    else if c == 47
    then 126 ∷ 49 ∷ escaped s
    else c ∷ escaped s

half_escaped : Text → Text
half_escaped [] = []
half_escaped (c ∷ s) = if c == 126 then 126 ∷ 48 ∷ half_escaped s else c ∷ half_escaped s

tilde-half : (s : Text) → replace_all (codes "~") (codes "~0") s ≡ half_escaped s
unfolding replace_all half_escaped
tilde-half [] = refl
tilde-half (c ∷ s) = ground (arith, tilde-half s)

slash-escaped : (s : Text) → replace_all (codes "/") (codes "~1") (half_escaped s) ≡ escaped s
unfolding replace_all half_escaped escaped
slash-escaped [] = refl
slash-escaped (c ∷ s) = ground (arith, slash-escaped s)

escape-escaped : (s : Text) → escape_token s ≡ escaped s
unfolding escape_token
escape-escaped s = ap (replace_all (codes "/") (codes "~1")) (tilde-half s) ∙ slash-escaped s

slash-unescaped : (s : Text) → replace_all (codes "~1") (codes "/") (escaped s) ≡ half_escaped s
unfolding replace_all half_escaped escaped
slash-unescaped [] = refl
slash-unescaped (c ∷ s) = ground (arith, slash-unescaped s)

tilde-unescaped : (s : Text) → replace_all (codes "~0") (codes "~") (half_escaped s) ≡ s
unfolding replace_all half_escaped
tilde-unescaped [] = refl
tilde-unescaped (c ∷ s) = ground (arith, tilde-unescaped s)

unescape-escape_token : (s : Text) → unescape_token (escape_token s) ≡ s
unfolding unescape_token
unescape-escape_token s =
    ap unescape_token (escape-escaped s)
    ∙ (ap (replace_all (codes "~0") (codes "~")) (slash-unescaped s) ∙ tilde-unescaped s)

has_byte-escaped : (s : Text) → has_byte 47 (escaped s) ≡ false
unfolding has_byte escaped
has_byte-escaped [] = refl
has_byte-escaped (c ∷ s) = ground (arith, has_byte-escaped s)

has_byte-escape_token : (s : Text) → has_byte 47 (escape_token s) ≡ false
has_byte-escape_token s = rw (escape-escaped s) (has_byte-escaped s)

-- Digits hold no slash and no escape.
has_byte-digits : (s : Text) → all is_digit s ≡ true → has_byte 47 s ≡ false
unfolding has_byte all
has_byte-digits [] h = refl
has_byte-digits (c ∷ s) h = ground (arith, has_byte-digits s)

unescape-digits_first :
    (s : Text) → all is_digit s ≡ true → replace_all (codes "~1") (codes "/") s ≡ s
unfolding replace_all all
unescape-digits_first [] h = refl
unescape-digits_first (c ∷ s) h = ground (arith, unescape-digits_first s)

unescape-digits_then :
    (s : Text) → all is_digit s ≡ true → replace_all (codes "~0") (codes "~") s ≡ s
unfolding replace_all all
unescape-digits_then [] h = refl
unescape-digits_then (c ∷ s) h = ground (arith, unescape-digits_then s)

unescape-digits : (s : Text) → all is_digit s ≡ true → unescape_token s ≡ s
unfolding unescape_token
unescape-digits s h =
    ap (replace_all (codes "~0") (codes "~")) (unescape-digits_first s h) ∙ unescape-digits_then s h

split-single : (e : Text) → has_byte 47 e ≡ false → split_byte 47 e ≡ e ∷ []
unfolding has_byte split_byte
split-single [] h = refl
split-single (c ∷ e) h = ground (arith, split-single e)

push_front-append :
    (c : ℕ) (xs ys : List Text)
    → is_empty xs ≡ false
    → push_front c (xs ++ ys) ≡ push_front c xs ++ ys
push_front-append c [] ys h = cc
push_front-append c (x ∷ xs) ys h = refl

push_front-nonempty : (c : ℕ) (xs : List Text) → is_empty (push_front c xs) ≡ false
push_front-nonempty c [] = refl
push_front-nonempty c (x ∷ xs) = refl

split-nonempty : (b : ℕ) (s : Text) → is_empty (split_byte b s) ≡ false
unfolding split_byte
split-nonempty b [] = refl
split-nonempty b (c ∷ s) =
    if_cases (λ (ts : List Text). is_empty ts ≡ false) (c == b) ([] ∷ split_byte b s)
      (push_front c (split_byte b s)) (λ _. refl) (λ _. push_front-nonempty c (split_byte b s))

-- A token that is put behind a pointer is split off again.
split-child :
    (s e : Text) → has_byte 47 e ≡ false → split_byte 47 (child s e) ≡ split_byte 47 s ++ e ∷ []
unfolding split_byte
split-child [] e h = ground (arith, split-single e h)
split-child (c ∷ s) e h =
    ground (
      arith,
      split-child s e h,
      push_front-append c (split_byte 47 s) (e ∷ []) (split-nonempty 47 s),
    )

abbrev pub then_in : (p : Packages) → List Text → Option Json → Option Json
then_in p xs none = none
then_in p xs (some v) = follow p xs v

module _ (p : Packages) where
  follow-append :
      (xs : List Text) (e : Text) (d v : Json)
      → follow p xs d ≡ some v
      → follow p (xs ++ e ∷ []) d ≡ step_into p e v
  unfolding follow
  follow-append [] e d v h = ground arith
  follow-append (x ∷ xs) e d v h = elim (Option-cases (step_into p x d)) [
    | inl n ↦ ground arith
    | inr (w, g) ↦ ground (arith, follow-append xs e w v)
  ]

  -- The document itself has the empty pointer; the others start with a slash and lead to their value.
  abbrev IsFound : Json → Text → Json → Type 0
  IsFound d q v =
      ((q ≡ []) × (v ≡ d)) ⊎ ((t : Text) × (q ≡ 47 ∷ t) × (follow p (split_byte 47 t) d ≡ some v))

  child-IsFound :
      (d : Json) (q e : Text) (v w : Json)
      → has_byte 47 e ≡ false
      → step_into p e v ≡ some w
      → IsFound d q v
      → IsFound d (child q e) w
  unfolding follow
  child-IsFound d q e v w h s (inl (a, b)) =
      inr (e, ap (λ (x : Text). child x e) a, ground (arith, split-single e h))
  child-IsFound d q e v w h s (inr (t, a, f)) = inr (
    child t e,
    ap (λ (x : Text). child x e) a,
    rw (split-child t e h) (follow-append (split_byte 47 t) e d v f ∙ s),
  )

  module _ (atoi-itoa : (n : ℕ) → p.atoi (p.itoa n) ≡ some n)
      (itoa-digits : (n : ℕ) → all is_digit (p.itoa n) ≡ true) where
    Under-IsFound : (d : Json) {q : Text} {v : Json} → Under p [] d q v → IsFound d q v
    unfolding step_into
    Under-IsFound d here = inl (refl, refl)
    Under-IsFound d (in_array {r} {vs} {w} i u e) =
        child-IsFound d r (p.itoa i) (array vs) w (has_byte-digits (p.itoa i) (itoa-digits i))
          (ground (arith, unescape-digits (p.itoa i) (itoa-digits i), atoi-itoa i))
          (Under-IsFound d u)
    Under-IsFound d (in_object {r} {ms} {w} k u e) =
        child-IsFound d r (escape_token k) (object ms) w (has_byte-escape_token k)
          (ground (arith, unescape-escape_token k)) (Under-IsFound d u)

    -- A pointer that the walk builds below the document leads to the value that the walk met there, for
    -- every escape of a key, if decimal numbers are read as they are written.
    pub pointer_value-Under :
        (d : Json) (q : Text) (v : Json) → Under p [] d q v → q ≢ [] → pointer_value p d q ≡ some v
    unfolding pointer_value trim_first
    pointer_value-Under d q v u h = elim (Under-IsFound d u) [
      | inl (a, b) ↦ absurd (h a)
      | inr (t, a, f) ↦ rw a f
    ]
