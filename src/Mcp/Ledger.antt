-- ===== src/Mcp/Ledger.antt =====
-- internal/mcp/decisionledger.go: the budgets of the grants, and the signed, chained log of
-- decisions that is written before a governed call crosses the gateway.
-- `Crypto` holds what the standard library and the keys provide; `Outcome` says what the file system
-- and the secret store did during a call.
pub mod Authorize
pub mod Cases
pub mod Load
pub mod Budgets
pub mod Windows
pub mod Accounts
pub mod Spent
pub mod Chain
pub mod Coverage
pub mod Recovery
pub mod Emptied
use microagency.Base.{
  ℕ, Bool, not, Option, none, some, List, [], Text, ◌+◌, ◌∷◌, ◌++◌, if◌then◌else◌,
}
use microagency.Base.Map.{Map}

pub data Decision : Type 0 where
  authorized refused : Decision

pub record DecisionRecord : Type 0 where
  pub timestamp : ℕ
  pub principal : Text
  pub campaign : Text
  pub grant_id : Text
  pub grant_digest : Text
  pub connection : Text
  pub operation : Text
  pub effect : Text
  pub decision : Decision
  pub reason : Text
  pub request_bytes : ℕ
  pub reserved_bytes : ℕ
  pub resource_ids : List Text
  pub shared_writable : List Text

pub record DecisionLine : Type 0 where
  pub sequence : ℕ
  pub entry : DecisionRecord
  pub prev : Text
  pub hash : Text
  pub sig : Text

pub record DecisionAnchor : Type 0 where
  pub sequence : ℕ
  pub head : Text
  pub sig : Text

pub record GrantUsage : Type 0 where
  pub requests : ℕ
  pub bytes : ℕ
  pub times : List ℕ

-- A line of the file that is JSON of a record, or one that is not.
pub data FileLine : Type 0 where
  line : DecisionLine → FileLine
  garbage : FileLine

-- The secret under the anchor's key.
pub data AnchorSlot : Type 0 where
  missing unreadable malformed : AnchorSlot
  stored : DecisionAnchor → AnchorSlot

-- SHA-256 in hexadecimal, the JSON of what is hashed and signed, the size of a line, and the signer, whose signatures
-- stand in hexadecimal. `verify` is false on what is not hexadecimal.
pub record Crypto : Type 0 where
  pub sha256 : Text → Text
  pub marshal_decision : ℕ → DecisionRecord → Text
  pub marshal_anchor : ℕ → Text → Text
  pub line_size : DecisionLine → ℕ
  pub sign : Text → Option Text
  pub verify : Text → Text → Bool

-- The parts of `Server` that the ledger uses. `path`, `signer` and `secrets` say whether a state
-- directory, a signer and a secret store are configured; `file` and `anchor` are what they hold.
pub record Ledger : Type 0 where
  pub path : Bool
  pub signer : Bool
  pub secrets : Bool
  pub usage : Map GrantUsage
  pub sequence : ℕ
  pub head : Text
  pub load_err : Bool
  pub file : Option (List FileLine)
  pub anchor : AnchorSlot

-- How the append and its fsync end: a failure leaves the file as it was, with part of the line, or
-- with the whole line that was not synced.
pub data Appended : Type 0 where
  synced untouched torn unsynced : Appended

pub record Outcome : Type 0 where
  pub append : Appended
  pub save : Bool

pub data Error : Type 0 where
  untrusted_ledger no_state_directory no_signer no_anchor_store sign_failed append_failed : Error
  anchor_sign_failed anchor_save_failed : Error
  refusal : Text → Error

pub data Result : Type 0 where
  ok : Result
  err : Error → Result

unfoldable pub lines_of : Option (List FileLine) → List FileLine
lines_of none = []
lines_of (some ls) = ls

-- The file after the append.
unfoldable pub append_line :
    Appended → DecisionLine → Option (List FileLine) → Option (List FileLine)
unfolding lines_of
append_line synced l file = some (lines_of file ++ line l ∷ [])
append_line untouched l file = file
append_line torn l file = some (lines_of file ++ garbage ∷ [])
append_line unsynced l file = some (lines_of file ++ line l ∷ [])

module _ (c : Crypto) where
  unfoldable pub decision_hash : Text → ℕ → DecisionRecord → Text
  decision_hash prev sequence entry = c.sha256 (prev ++ (0 ∷ c.marshal_decision sequence entry))

  -- The last part of `appendDecisionLocked`: the signed anchor goes to the secret store.
  unfoldable pub save_anchor : Bool → Ledger → Ledger × Result
  save_anchor saved s = elim (c.sign (c.marshal_anchor s.sequence s.head)) [
    | none ↦ (s, err anchor_sign_failed)
    | some sig ↦
        if saved
        then (
          record s { anchor = stored (record { sequence = s.sequence; head = s.head; sig = sig }) },
          ok,
        )
        else (s, err anchor_save_failed)
  ]

  -- The line that comes after the head.
  abbrev pub next_line : DecisionRecord → Ledger → Text → DecisionLine
  next_line entry s sig = record {
    sequence = s.sequence + 1;
    entry = entry;
    prev = s.head;
    hash = decision_hash s.head (s.sequence + 1) entry;
    sig = sig;
  }

  -- The line is written, and the chain moves on if it was synced.
  unfoldable pub write_line : Outcome → DecisionLine → Ledger → Ledger × Result
  unfolding save_anchor append_line
  write_line o l s =
      let written = record s { file = append_line o.append l s.file } in
      elim o.append [
        | synced ↦ save_anchor o.save (record written { sequence = l.sequence; head = l.hash })
        | _ ↦ (written, err append_failed)
      ]

  unfoldable pub append_decision_locked : Outcome → DecisionRecord → Ledger → Ledger × Result
  unfolding decision_hash write_line
  append_decision_locked o entry s =
      if s.load_err
      then (s, err untrusted_ledger)
      else if not s.path
      then (s, err no_state_directory)
      else if not s.signer
      then (s, err no_signer)
      else if not s.secrets
      then (s, err no_anchor_store)
      else elim (c.sign (decision_hash s.head (s.sequence + 1) entry)) [
        | none ↦ (s, err sign_failed)
        | some sig ↦ write_line o (next_line entry s sig) s
      ]
