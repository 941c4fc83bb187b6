-- ===== src/Mcp/Gateway/Tools.antt =====
-- internal/mcp/autoexpand.go: whether a tool writes; and the names of tools in the index.
use microagency.Base.{
  ℕ, Bool, true, false, not, Option, none, some, List, [], leb, keep, any, Text, codes, text_eq,
  is_empty, push_front, member, ◌&&◌, ◌||◌, ◌∷◌, if◌then◌else◌,
}
use microagency.Mcp.Packages.{Packages}
use microagency.Mcp.Gateway.{Tool}

unfoldable pub find_tool : List Tool → Text → Option Tool
find_tool [] name = none
find_tool (t ∷ ts) name = if text_eq t.name name then some t else find_tool ts name

abbrev pub read_verbs : List Text
read_verbs =
    codes "search"
    ∷ codes "query"
    ∷ codes "fetch"
    ∷ codes "get"
    ∷ codes "list"
    ∷ codes "read"
    ∷ codes "describe"
    ∷ codes "export"
    ∷ codes "find"
    ∷ codes "lookup"
    ∷ codes "count"
    ∷ codes "resolve"
    ∷ codes "check"
    ∷ codes "status"
    ∷ codes "view"
    ∷ []

abbrev pub write_verbs : List Text
write_verbs =
    codes "create"
    ∷ codes "update"
    ∷ codes "delete"
    ∷ codes "remove"
    ∷ codes "add"
    ∷ codes "set"
    ∷ codes "put"
    ∷ codes "patch"
    ∷ codes "move"
    ∷ codes "duplicate"
    ∷ codes "write"
    ∷ codes "insert"
    ∷ codes "upsert"
    ∷ codes "archive"
    ∷ codes "restore"
    ∷ codes "send"
    ∷ codes "post"
    ∷ codes "modify"
    ∷ codes "rename"
    ∷ codes "copy"
    ∷ []

abbrev is_token_byte : ℕ → Bool
is_token_byte c = (leb b'a' c && leb c b'z') || (leb b'0' c && leb c b'9')

-- The runs of such bytes, and an empty text between two other bytes.
unfoldable pub runs : Text → List Text
runs [] = [] ∷ []
runs (c ∷ s) = let rest = runs s in if is_token_byte c then push_front c rest else [] ∷ rest

module _ (p : Packages) where
  -- `tokenize` of internal/mcp/findtools.go.
  unfoldable pub tokenize : Text → List Text
  unfolding runs keep
  tokenize q = keep (λ (w : Text). not (is_empty w)) (runs (p.lower q))

  abbrev has_verb : List Text → Tool → Bool
  unfolding tokenize any member
  has_verb verbs t = any (λ w. member w verbs) (tokenize t.name)

  -- A write verb, or no verb at all.
  unfoldable pub is_write_name : Tool → Bool
  unfolding tokenize any member
  is_write_name t = if has_verb write_verbs t then true else not (has_verb read_verbs t)

  -- `isWriteTool`: the read-only hint decides, if there is one.
  unfoldable pub is_write_tool : Tool → Bool
  unfolding is_write_name
  is_write_tool t = elim t.annotations [
    | none ↦ is_write_name t
    | some a ↦ elim a.read_only_hint [ none ↦ is_write_name t | some hint ↦ not hint ]
  ]

  -- `isHighAssuranceWriteTool`: hints make a tool a write and never a read.
  unfoldable pub is_high_assurance_write_tool : Tool → Bool
  unfolding is_write_name
  is_high_assurance_write_tool t = elim t.annotations [
    | none ↦ is_write_name t
    | some a ↦
        if elim a.destructive_hint [ none ↦ false | some hint ↦ hint ]
        then true
        else if elim a.read_only_hint [ none ↦ false | some hint ↦ not hint ]
        then true
        else is_write_name t
  ]
