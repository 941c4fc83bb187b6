-- ===== src/Base/Map.antt =====
-- Go's maps keyed by strings, as association lists that hold a key once (`IsMap`).
use Prim.Native.Nat.{◌+◌, ◌≤◌}
use mathlib.Core.Path.{◌≡◌, refl}
use mathlib.Core.Bool.{Bool}
use mathlib.Core.Option.{Option, none, some}
use mathlib.Core.List.{List, [], ◌∷◌}
use native.Mathlib.Omega.{arith}
use microagency.Base.Tests.{if◌then◌else◌}
use microagency.Base.Lists.{length}
use microagency.Base.Strings.{Text, text_eq, text_eq_iff}

abbrev pub Map {ℓ} : Type ℓ → Type ℓ
Map V = List (Text × V)

-- The value kept by a test, or none.
abbrev pub sift {ℓ} : {V : Type ℓ} → (V → Bool) → Option V → Option V
sift p none = none
sift p (some v) = if p v then some v else none

module _ {ℓ} {V : Type ℓ} where
  unfoldable pub get : Text → Map V → Option V
  get k [] = none
  get k ((j, v) ∷ m) = if text_eq j k then some v else get k m

  unfoldable pub put : Text → V → Map V → Map V
  put k v [] = (k, v) ∷ []
  put k v ((j, w) ∷ m) = if text_eq j k then (k, v) ∷ m else (j, w) ∷ put k v m

  unfoldable pub remove : Text → Map V → Map V
  remove k [] = []
  remove k ((j, v) ∷ m) = let rest = remove k m in if text_eq j k then rest else (j, v) ∷ rest

  -- `for k, v := range m { if !p(v) { delete(m, k) } }`
  unfoldable pub retain : (V → Bool) → Map V → Map V
  retain p [] = []
  retain p ((j, v) ∷ m) = let rest = retain p m in if p v then (j, v) ∷ rest else rest

  abbrev pub IsMap : Map V → Type ℓ
  IsMap [] = Unit
  IsMap ((j, v) ∷ m) = (get j m ≡ none) × IsMap m

  pub get-put :
      (k j : Text) (v : V) (m : Map V)
      → get j (put k v m) ≡ (if text_eq k j then some v else get j m)
  unfolding get put
  get-put k j v [] = refl
  get-put k j v ((i, w) ∷ m) =
      ground (arith, text_eq_iff k j, text_eq_iff i k, text_eq_iff i j, get-put k j v m)

  pub get-remove :
      (k j : Text) (m : Map V) → get j (remove k m) ≡ (if text_eq k j then none else get j m)
  unfolding get remove
  get-remove k j [] = ground arith
  get-remove k j ((i, w) ∷ m) =
      ground (arith, text_eq_iff k j, text_eq_iff i k, text_eq_iff i j, get-remove k j m)

  pub get-retain-none :
      (p : V → Bool) (j : Text) (m : Map V) → get j m ≡ none → get j (retain p m) ≡ none
  unfolding get retain
  get-retain-none p j [] h = refl
  get-retain-none p j ((i, w) ∷ m) h = ground (arith, get-retain-none p j m)

  pub get-retain :
      (p : V → Bool) (j : Text) (m : Map V) → IsMap m → get j (retain p m) ≡ sift p (get j m)
  unfolding get retain
  get-retain p j [] h = refl
  get-retain p j ((i, w) ∷ m) h =
      ground (arith, text_eq_iff i j, get-retain p j m h.1, get-retain-none p j m)

  pub put-IsMap : (k : Text) (v : V) (m : Map V) → IsMap m → IsMap (put k v m)
  unfolding get put
  put-IsMap k v [] h = (refl, tt)
  put-IsMap k v ((i, w) ∷ m) h =
      ground (arith, text_eq_iff i k, text_eq_iff k i, get-put k i v m, put-IsMap k v m h.1)

  pub remove-IsMap : (k : Text) (m : Map V) → IsMap m → IsMap (remove k m)
  unfolding remove
  remove-IsMap k [] h = tt
  remove-IsMap k ((i, w) ∷ m) h = ground (arith, get-remove k i m, remove-IsMap k m h.1)

  pub retain-IsMap : (p : V → Bool) (m : Map V) → IsMap m → IsMap (retain p m)
  unfolding retain
  retain-IsMap p [] h = tt
  retain-IsMap p ((i, w) ∷ m) h = ground (arith, get-retain-none p i m, retain-IsMap p m h.1)

  pub length-put-le : (k : Text) (v : V) (m : Map V) → length (put k v m) ≤ length m + 1
  unfolding put
  length-put-le k v [] = omega arith
  length-put-le k v ((i, w) ∷ m) = ground (arith, length-put-le k v m)

  -- A write to a key that is there keeps the size.
  pub length-put_old :
      (k : Text) (v w : V) (m : Map V) → get k m ≡ some w → length (put k v m) ≡ length m
  unfolding get put
  length-put_old k v w [] h = cc
  length-put_old k v w ((i, u) ∷ m) h = ground (arith, length-put_old k v w m)

  pub length-retain-le : (p : V → Bool) (m : Map V) → length (retain p m) ≤ length m
  unfolding retain
  length-retain-le p [] = omega arith
  length-retain-le p ((i, u) ∷ m) = ground (arith, length-retain-le p m)

  pub length-remove-le : (k : Text) (m : Map V) → length (remove k m) ≤ length m
  unfolding remove
  length-remove-le k [] = omega arith
  length-remove-le k ((i, u) ∷ m) = ground (arith, length-remove-le k m)

-- A predicate on every value of a map.
abbrev pub AllValues {ℓ κ} : {V : Type ℓ} → (V → Type κ) → Map V → Type κ
AllValues P [] = Unit
AllValues P ((_, v) ∷ m) = P v × AllValues P m

module _ {ℓ κ} {V : Type ℓ} (P : V → Type κ) where
  pub put-AllValues : (k : Text) (v : V) (m : Map V) → P v → AllValues P m → AllValues P (put k v m)
  unfolding put
  put-AllValues k v [] h hs = (h, tt)
  put-AllValues k v ((i, w) ∷ m) h hs = ground (arith, put-AllValues k v m h hs.1)

  pub retain-AllValues : (p : V → Bool) (m : Map V) → AllValues P m → AllValues P (retain p m)
  unfolding retain
  retain-AllValues p [] hs = tt
  retain-AllValues p ((i, w) ∷ m) hs = ground (arith, retain-AllValues p m hs.1)

  pub get-AllValues : (k : Text) (v : V) (m : Map V) → AllValues P m → get k m ≡ some v → P v
  unfolding get
  get-AllValues k v [] hs e = absurd (cc)
  get-AllValues k v ((i, w) ∷ m) hs e = ground (arith, get-AllValues k v m hs.1)
