-- ===== src/Mcp/Grant/Walk.antt =====
-- The walk of the arguments in internal/mcp/grant.go meets every scalar below a governed value.

use mathlib.Core.Path.{subst₂}
use microagency.Base.{
  ℕ, zero, suc, inl, inr, true, false, some, List, [], arith, Bool-cases, Text, text_eq, text_eq→eq,
  member, ◌+◌, ◌≡◌, ◌⊎◌,
}
use microagency.Mcp.Packages.{Packages}
use microagency.Mcp.Json.{
  Json, array, object, null, boolean, number, str, Items, Members, item, member_of, last_item,
  last_member, member_at, item_at,
}
use microagency.Mcp.Grant.Evaluate.{escape_token, child, visit, visit_items, visit_members}
use microagency.Mcp.Grant.Pointers.{Under, here, in_array, in_object}

-- Values that are neither objects nor arrays.
abbrev pub IsScalar : Json → Type 0
IsScalar (array _) = ⊥
IsScalar (object _) = ⊥
IsScalar _ = Unit

module _ (p : Packages) (allowed : List Text) where
  item-visited :
      (q : Text) (k i n : ℕ) (vs : Items) (w : Json)
      → n ≡ k + i
      → visit_items p allowed q k vs ≡ true
      → item_at i vs ≡ some w
      → visit p allowed (child q (p.itoa n)) w ≡ true
  unfolding visit item_at
  item-visited q k i n last_item w d h e = absurd (cc)
  item-visited q k zero n (item v vs) w d h e = ground arith
  item-visited q k (suc i) n (item v vs) w d h e = ground (arith, item-visited q (k + 1) i n vs w)

  member-visited :
      (q k : Text) (ms : Members) (w : Json)
      → visit_members p allowed q ms ≡ true
      → member_at k ms ≡ some w
      → visit p allowed (child q (escape_token k)) w ≡ true
  unfolding visit member_at
  member-visited q k last_member w h e = absurd (cc)
  member-visited q k (member_of j v ms) w h e = elim (Bool-cases (text_eq j k)) [
    | inl y ↦
        let same : v ≡ w = ground arith in
        let first : visit p allowed (child q (escape_token j)) v ≡ true = ground arith in
        subst₂ (λ (x : Text) (y : Json). visit p allowed (child q (escape_token x)) y ≡ true)
          (text_eq→eq j k y) same first
    | inr n ↦ member-visited q k ms w (ground arith) (ground arith)
  ]

  -- What the walk met: the walk of the value there, or a governed value above it.
  IsVisited : Json → Text → Json → Type 0
  IsVisited d q v =
      (visit p allowed q v ≡ true)
      ⊎ ((r : Text) × (w : Json) × (member r allowed ≡ true) × Under p [] d r w × Under p r w q v)

  stop_or_go :
      (d : Json) (q r : Text) (v w : Json)
      → Under p [] d q v
      → Under p q v r w
      → (member q allowed ≡ false → visit p allowed r w ≡ true)
      → IsVisited d r w
  unfolding IsVisited
  stop_or_go d q r v w u s f = elim (Bool-cases (member q allowed)) [
    | inl y ↦ inr (q, v, y, u, s)
    | inr n ↦ inl (f n)
  ]

  Under-IsVisited :
      (d : Json) {q : Text} {v : Json}
      → Under p [] d q v
      → visit p allowed [] d ≡ true
      → IsVisited d q v
  unfolding IsVisited visit
  Under-IsVisited d here h = inl h
  Under-IsVisited d (in_array {r} {vs} {w} i u e) h = elim (Under-IsVisited d u h) [
    | inl y ↦
        stop_or_go d r (child r (p.itoa i)) (array vs) w u (in_array i here e)
          (λ n. item-visited r 0 i i vs w (omega arith) (ground arith) e)
    | inr (x, z, m, a, b) ↦ inr (x, z, m, a, in_array i b e)
  ]
  Under-IsVisited d (in_object {r} {ms} {w} k u e) h = elim (Under-IsVisited d u h) [
    | inl y ↦
        stop_or_go d r (child r (escape_token k)) (object ms) w u (in_object k here e)
          (λ n. member-visited r k ms w (ground arith) e)
    | inr (x, z, m, a, b) ↦ inr (x, z, m, a, in_object k b e)
  ]

  scalar-member :
      (q : Text) (v : Json) → IsScalar v → visit p allowed q v ≡ true → member q allowed ≡ true
  unfolding visit
  scalar-member q (array vs) s h = absurd s
  scalar-member q (object ms) s h = absurd s
  scalar-member q null s h = h
  scalar-member q (boolean b) s h = h
  scalar-member q (number t) s h = h
  scalar-member q (str t) s h = h

  pub scalar-governed :
      (d : Json) (q : Text) (v : Json)
      → Under p [] d q v
      → IsScalar v
      → visit p allowed [] d ≡ true
      → ((r : Text) × (w : Json) × (member r allowed ≡ true) × Under p [] d r w × Under p r w q v)
  unfolding IsVisited
  scalar-governed d q v u s h = elim (Under-IsVisited d u h) [
    | inl y ↦ (q, v, scalar-member q v s y, u, here)
    | inr z ↦ z
  ]
