-- ===== src/Refstore/Gate.antt =====
-- internal/budget/budget.go: the gate that keeps large payloads out of the model's context.
use microagency.Base.{
  ℕ, sym, ap, inl, inr, Option, none, some, List, arith, leb, Bool-cases, Option-cases, length,
  Text, ◌-◌, ◌≤◌, ◌<◌, ◌≡◌, ◌⊎◌, ◌∙◌, if◌then◌else◌,
}
use microagency.Base.Map
use microagency.Base.Map.{Map, IsMap}
use microagency.Refstore.Mem.{Item, MemStore, put, get}
use microagency.Refstore.Mem.Sweep.{Visits}
use microagency.Refstore.Mem.Keeps

-- Inline, or a handle with the size.
pub data Outcome : Type 0 where
  inline : Text → Outcome
  reffed : Text → ℕ → Outcome

-- `Apply`, over the store in memory; `none` only where the store's draws run out.
unfoldable pub apply :
    ℕ
    → (Map Item → Map Item)
    → List Text
    → ℕ
    → ℕ
    → Text
    → Text
    → MemStore
    → Option (MemStore × Outcome)
unfolding put
apply max_bytes visit draws now later payload owner s =
    if leb (length payload) max_bytes
    then some (s, inline payload)
    else elim (put visit draws now later payload owner s) [
      | none ↦ none
      | some (t, ref) ↦ some (t, reffed ref (length payload))
    ]

-- What the model is shown of a payload within the budget is the payload; of a larger one it is a
-- handle and the size, and the handle then gives the payload with its owner, when the write came
-- after every other entry and the reading is inside the time to live.
pub apply-get :
    (max_bytes : ℕ) (visit : Map Item → Map Item) (draws : List Text) (now later : ℕ)
    → (payload owner : Text) (s t : MemStore) (out : Outcome) (when : ℕ) → Visits visit
    → IsMap s.items
    → ((r : Text) (it : Item) → Map.get r s.items ≡ some it → it.created < now)
    → (0 < s.ttl → (later - now ≤ s.ttl) × (when - now ≤ s.ttl))
    → apply max_bytes visit draws now later payload owner s ≡ some (t, out)
    → ((length payload ≤ max_bytes) × (out ≡ inline payload) × (t ≡ s))
      ⊎ ((max_bytes < length payload)
          × (ref : Text) × (out ≡ reffed ref (length payload))
          × ((get when ref t).1 ≡ some (payload, owner)))
unfolding apply
apply-get max_bytes visit draws now later payload owner s t out when vis v older inside h =
    elim (Bool-cases (leb (length payload) max_bytes)) [
      | inl e ↦ inl (ground arith, ground arith, ground arith)
      | inr e ↦ elim (Option-cases (put visit draws now later payload owner s)) [
        | inl f ↦ absurd (ground arith)
        | inr ((t', ref), f) ↦
            let same : t' ≡ t = ground arith in
            inr (
              ground arith,
              ref,
              ground arith,
              ap (λ (q : MemStore). (get when ref q).1) (sym same)
                  ∙ (Keeps.get-put_owner visit draws now later payload owner s t' ref when vis v
                      older inside f).0,
            )
      ]
    ]
