-- ===== src/Refstore/Handle.antt =====
-- internal/refstore/refstore.go: the handles `<ref_TOKEN>` and their tokens.
use microagency.Base.{
  ℕ, zero, suc, refl, ap, inl, inr, Bool, true, not, Option, none, some, List, [], arith, ltb, leb,
  Option-cases, length, take, drop, all, length-append, Text, codes, text_eq, text_eq_iff, ◌+◌, ◌-◌,
  ◌%◌, ◌<◌, ◌≡◌, ◌≢◌, ◌↔◌, ◌∙◌, ◌&&◌, ◌||◌, ◌∷◌, ◌++◌, ◌==◌, if◌then◌else◌,
}

unfoldable pub ref_alphabet : ℕ → ℕ
ref_alphabet i =
    if ltb i 10 then b'0' + i else if ltb i 36 then b'A' + (i - 10) else b'a' + (i - 36)

-- The token that `randRef` draws from a source of bytes, when the source lasts: a byte of 248 or more
-- is drawn again.
unfoldable pub rand_token : ℕ → List ℕ → Option Text
unfolding ref_alphabet
rand_token zero bytes = some []
rand_token (suc n) [] = none
rand_token (suc n) (b ∷ bytes) =
    let again = rand_token (suc n) bytes in
    let rest = rand_token n bytes in
    if leb 248 b
    then again
    else elim rest [ none ↦ none | some t ↦ some (ref_alphabet (b % 62) ∷ t) ]

unfoldable pub rand_ref : List ℕ → Option Text
unfolding rand_token
rand_ref bytes = elim (rand_token 12 bytes) [
  | none ↦ none
  | some out ↦ some (codes "<ref_" ++ (out ++ codes ">"))
]

unfoldable pub is_base62 : ℕ → Bool
is_base62 c = (leb b'0' c && leb c b'9') || (leb b'A' c && leb c b'Z') || (leb b'a' c && leb c b'z')

-- The last byte of a text, and what stands before it.
unfoldable pub unsnoc : Text → Option (Text × ℕ)
unsnoc [] = none
unsnoc (c ∷ s) = elim (unsnoc s) [
  | none ↦ some ([], c)
  | some (front, last) ↦ some (c ∷ front, last)
]

unfoldable pub ref_token : Text → Option Text
unfolding is_base62 unsnoc
ref_token s =
    if ltb (length s) 7
    then none
    else if not (text_eq (take 5 s) (codes "<ref_"))
    then none
    else elim (unsnoc (drop 5 s)) [
      | none ↦ none
      | some (tok, last) ↦
          if not (last == b'>')
          then none
          else if all is_base62 tok
          then (if text_eq tok [] then none else some tok)
          else none
    ]

unsnoc-snoc : (s : Text) (c : ℕ) → unsnoc (s ++ c ∷ []) ≡ some (s, c)
unfolding unsnoc
unsnoc-snoc [] c = refl
unsnoc-snoc (d ∷ s) c = ground (arith, unsnoc-snoc s c)

unsnoc-none : (s : Text) → unsnoc s ≡ none → s ≡ []
unfolding unsnoc
unsnoc-none [] h = refl
unsnoc-none (d ∷ s) h = elim (Option-cases (unsnoc s)) [
  | inl e ↦ absurd (ground arith)
  | inr ((f, l), e) ↦ absurd (ground arith)
]

snoc-unsnoc : (s front : Text) (c : ℕ) → unsnoc s ≡ some (front, c) → s ≡ front ++ c ∷ []
unfolding unsnoc
snoc-unsnoc [] front c h = absurd (cc)
snoc-unsnoc (d ∷ s) front c h = elim (Option-cases (unsnoc s)) [
  | inl e ↦ ground (arith, unsnoc-none s e)
  | inr ((f, l), e) ↦ ground (arith, snoc-unsnoc s f l e)
]

rand_token-base62 :
    (n : ℕ) (bytes : List ℕ) (out : Text)
    → rand_token n bytes ≡ some out
    → (all is_base62 out ≡ true) × (length out ≡ n)
unfolding rand_token is_base62 ref_alphabet all
rand_token-base62 zero bytes out h = ground arith
rand_token-base62 (suc n) [] out h = absurd (cc)
rand_token-base62 (suc n) (b ∷ bytes) out h = elim (Option-cases (rand_token n bytes)) [
  | inl e ↦ ground (arith, rand_token-base62 (suc n) bytes out)
  | inr (t, e) ↦ ground (arith, rand_token-base62 (suc n) bytes out, rand_token-base62 n bytes t e)
]

take-drop : (n : ℕ) (s : Text) → take n s ++ drop n s ≡ s
take-drop zero s = refl
take-drop (suc n) [] = refl
take-drop (suc n) (c ∷ s) = ap (λ r. c ∷ r) (take-drop n s)

length-ne : (s : Text) → s ≢ [] → 0 < length s
length-ne [] h = absurd (h refl)
length-ne (c ∷ s) h = omega arith

accepted :
    (s tok : Text)
    → ref_token s ≡ some tok
    → (s ≡ codes "<ref_" ++ (tok ++ codes ">")) × (all is_base62 tok ≡ true) × (tok ≢ [])
unfolding ref_token
accepted s tok h = elim (Option-cases (unsnoc (drop 5 s))) [
  | inl e ↦ absurd (ground arith)
  | inr ((t, last), e) ↦
      let shape = snoc-unsnoc (drop 5 s) t last e in
      let whole = take-drop 5 s in
      ground (arith, text_eq_iff (take 5 s) (codes "<ref_"), text_eq_iff t [])
]

composed :
    (tok : Text)
    → all is_base62 tok ≡ true
    → tok ≢ []
    → ref_token (60 ∷ 114 ∷ 101 ∷ 102 ∷ 95 ∷ (tok ++ 62 ∷ [])) ≡ some tok
unfolding ref_token text_eq
composed tok good ne =
    ground
      (arith, unsnoc-snoc tok 62, length-append tok (62 ∷ []), length-ne tok ne, text_eq_iff tok [])

-- A handle is accepted exactly if it is `<ref_`, a token of one or more base62 characters, and `>`;
-- the token is what is between.
pub ref_token_iff :
    (s tok : Text)
    → (ref_token s ≡ some tok)
      ↔ ((s ≡ codes "<ref_" ++ (tok ++ codes ">")) × (all is_base62 tok ≡ true) × (tok ≢ []))
unfolding ref_token
ref_token_iff s tok = (accepted s tok, λ (e, good, ne). ap ref_token e ∙ composed tok good ne)

-- Every handle that is drawn is accepted, with the twelve characters that were drawn.
pub ref_token-rand_ref :
    (bytes : List ℕ) (ref : Text)
    → rand_ref bytes ≡ some ref
    → (tok : Text) × (ref_token ref ≡ some tok) × (length tok ≡ 12)
unfolding rand_ref
ref_token-rand_ref bytes ref h = elim (Option-cases (rand_token 12 bytes)) [
  | inl e ↦ absurd (ground arith)
  | inr (out, e) ↦
      let (good, n) = rand_token-base62 12 bytes out e in
      (out, (ref_token_iff ref out).1 (ground arith, good, ground arith), n)
]
