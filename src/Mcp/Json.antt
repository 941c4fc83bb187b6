-- ===== src/Mcp/Json.antt =====
-- JSON values as encoding/json reads them with UseNumber: a number keeps its text, and an object its
-- members in the order of the text. `no_duplicate_keys` is rejectDuplicateJSONKeys of
-- internal/mcp/grant.go.
use microagency.Base.{
  ℕ, zero, suc, Bool, true, not, Option, none, some, List, [], Text, text_eq, member, ◌&&◌, ◌∷◌,
  if◌then◌else◌,
}

mutual
  pub data Json : Type 0 where
    null : Json
    boolean : Bool → Json
    number : Text → Json
    str : Text → Json
    array : Items → Json
    object : Members → Json

  pub data Items : Type 0 where
    last_item : Items
    item : Json → Items → Items

  pub data Members : Type 0 where
    last_member : Members
    member_of : Text → Json → Members → Members

-- `value[key]`, and whether the key is there.
unfoldable pub member_at : Text → Members → Option Json
member_at key last_member = none
member_at key (member_of k v ms) = if text_eq k key then some v else member_at key ms

-- `value[i]` inside the bounds.
unfoldable pub item_at : ℕ → Items → Option Json
item_at i last_item = none
item_at zero (item v vs) = some v
item_at (suc i) (item v vs) = item_at i vs

-- The walk over the tokens: `seen` holds the keys of the object so far.
unfoldable mutual
  pub no_duplicate_keys : Json → Bool
  no_duplicate_keys (array vs) = no_duplicates_in vs
  no_duplicate_keys (object ms) = no_duplicate_members [] ms
  no_duplicate_keys _ = true

  pub no_duplicates_in : Items → Bool
  no_duplicates_in last_item = true
  no_duplicates_in (item v vs) = no_duplicate_keys v && no_duplicates_in vs

  pub no_duplicate_members : List Text → Members → Bool
  no_duplicate_members seen last_member = true
  no_duplicate_members seen (member_of k v ms) =
      not (member k seen) && no_duplicate_keys v && no_duplicate_members (k ∷ seen) ms
