-- ===== src/Refstore/File/Names.antt =====
-- internal/refstore/filestore.go: handles and the names of their files stand for each other.
use mathlib.Core.List.{append_cancel_right}
use microagency.Base.{
  refl, sym, ap, Bool, true, false, some, drop, Text, codes, text_eq, text_eq→eq, text_eq_iff,
  some-inj, ◌≡◌, ◌∙◌, ◌++◌,
}
use microagency.Refstore.Handle.{ref_token, ref_token_iff}
use microagency.Refstore.File.{file_of}

file_of-inj : (s t : Text) → file_of s ≡ file_of t → s ≡ t
file_of-inj s t e = append_cancel_right s t (codes ".enc") (ap (λ (x : Text). drop 4 x) e)

token-inj : (r q s t : Text) → ref_token r ≡ some s → ref_token q ≡ some t → s ≡ t → r ≡ q
token-inj r q s t e f h =
    ((ref_token_iff r s).0 e).0
    ∙ (ap (λ (x : Text). codes "<ref_" ++ (x ++ codes ">")) h ∙ sym ((ref_token_iff q t).0 f).0)

bool_same : (a b : Bool) → (a ≡ true → b ≡ true) → (b ≡ true → a ≡ true) → a ≡ b
bool_same true b f g = sym (f refl)
bool_same false true f g = g refl
bool_same false false f g = refl

-- The test of two handles is the test of the names of their files.
pub text_eq-file_of :
    (r q s t : Text)
    → ref_token r ≡ some s
    → ref_token q ≡ some t
    → text_eq (file_of s) (file_of t) ≡ text_eq r q
text_eq-file_of r q s t e f =
    bool_same (text_eq (file_of s) (file_of t)) (text_eq r q)
      (λ h.
        (text_eq_iff r q).1
          (token-inj r q s t e f (file_of-inj s t (text_eq→eq (file_of s) (file_of t) h))))
      (λ h.
        (text_eq_iff (file_of s) (file_of t)).1
          (ap file_of (some-inj (sym e ∙ (ap ref_token (text_eq→eq r q h) ∙ f)))))
