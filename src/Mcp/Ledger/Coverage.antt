-- ===== src/Mcp/Ledger/Coverage.antt =====
-- The walk over a growing file, and the charges that it rebuilds.
use microagency.Base.{
  refl, inl, inr, Bool, false, Option, List, [], arith, Option-cases, Text, text_eq_iff, ◌+◌, ◌≤◌,
  ◌≡◌, ◌∷◌, ◌++◌,
}
use microagency.Base.Map
use microagency.Base.Map.{Map, get-put}
use microagency.Mcp.Ledger.{
  Ledger, Crypto, Outcome, DecisionRecord, DecisionLine, GrantUsage, FileLine, line, garbage,
  lines_of, append_line, Appended, synced, untouched, torn, unsynced, append_decision_locked,
  next_line, write_line, save_anchor,
}
use microagency.Mcp.Ledger.Authorize.{usage_of}
use microagency.Mcp.Ledger.Load.{
  Walk, start, Walked, done, fault, count_usage, check_line, advance, walk, scanned, scan_failed,
}
use microagency.Mcp.Ledger.Cases.{append_cases}

-- The second usage counts at least the requests and bytes of the first.
abbrev pub AtMost : GrantUsage → GrantUsage → Type 0
AtMost u v = (u.requests ≤ v.requests) × (u.bytes ≤ v.bytes)

-- The charges under a digest, of two usage tables.
abbrev pub Covers : Text → Map GrantUsage → Map GrantUsage → Type 0
Covers d small big = AtMost (usage_of (Map.get d small)) (usage_of (Map.get d big))

-- If the walk ends well, what it rebuilt covers the usage.
abbrev pub CoveredBy : Text → Map GrantUsage → Walked → Type 0
CoveredBy d usage (done w) = Covers d usage w.usage
CoveredBy d usage (fault w f) = Unit {0}

-- Recounting a record loses nothing.
count-Covers :
    (d : Text) (entry : DecisionRecord) (usage : Map GrantUsage)
    → Covers d usage (count_usage entry usage)
unfolding count_usage
count-Covers d entry usage = ground (
  arith,
  text_eq_iff entry.grant_digest d,
  get-put entry.grant_digest d
      (record {
        requests = (usage_of (Map.get entry.grant_digest usage)).requests + 1;
        bytes = (usage_of (Map.get entry.grant_digest usage)).bytes + entry.reserved_bytes;
        times = (usage_of (Map.get entry.grant_digest usage)).times ++ entry.timestamp ∷ [];
      })
      usage,
)

module _ (c : Crypto) where
  -- The walk over one more line.
  abbrev pub extend : Bool → Walked → FileLine → Walked
  extend signer (fault w f) l = fault w f
  extend signer (done w) l = walk c signer w (l ∷ [])

  pub walk-append :
      (signer : Bool) (w : Walk) (ls : List FileLine) (l : FileLine)
      → walk c signer w (ls ++ l ∷ []) ≡ extend signer (walk c signer w ls) l
  unfolding walk
  walk-append signer w [] l = refl
  walk-append signer w (garbage ∷ ls) l = refl
  walk-append signer w (line k ∷ ls) l = elim (Option-cases (check_line c signer w k)) [
    | inl e ↦ rw (e, walk) (walk-append signer (advance k w) ls l)
    | inr (f, e) ↦ rw (e, walk) refl
  ]

  -- A line that is added to the file takes nothing away.
  pub extend-CoveredBy :
      (d : Text) (usage : Map GrantUsage) (signer : Bool) (r : Walked) (l : FileLine)
      → CoveredBy d usage r
      → CoveredBy d usage (extend signer r l)
  unfolding walk
  extend-CoveredBy d usage signer (fault w f) l h = h
  extend-CoveredBy d usage signer (done w) garbage h = tt
  extend-CoveredBy d usage signer (done w) (line k) h =
      ground (arith, count-Covers d k.entry w.usage)

  -- The walk over the file of a ledger.
  abbrev pub walked : Ledger → Walked
  walked s = walk c s.signer start (lines_of s.file)

  append_line-CoveredBy :
      (d : Text) (usage : Map GrantUsage) (signer : Bool) (a : Appended) (l : DecisionLine)
      (file : Option (List FileLine))
      → CoveredBy d usage (walk c signer start (lines_of file))
      → CoveredBy d usage (walk c signer start (lines_of (append_line a l file)))
  unfolding append_line
  append_line-CoveredBy d usage signer synced l file h =
      rw walk-append (extend-CoveredBy d usage signer _ (line l) h)
  append_line-CoveredBy d usage signer untouched l file h = h
  append_line-CoveredBy d usage signer torn l file h =
      rw walk-append (extend-CoveredBy d usage signer _ garbage h)
  append_line-CoveredBy d usage signer unsynced l file h =
      rw walk-append (extend-CoveredBy d usage signer _ (line l) h)

  file-save_anchor :
      (saved : Bool) (s : Ledger)
      → ((save_anchor c saved s).0.file ≡ s.file) × ((save_anchor c saved s).0.signer ≡ s.signer)
  unfolding save_anchor
  file-save_anchor saved s = ground arith

  pub walked-write_line :
      (o : Outcome) (l : DecisionLine) (s : Ledger)
      → walked (write_line c o l s).0
        ≡ walk c s.signer start (lines_of (append_line o.append l s.file))
  unfolding write_line append_line
  walked-write_line o l s = ground arith

  -- Whatever an append does, what was covered stays covered.
  pub append-CoveredBy :
      (d : Text) (usage : Map GrantUsage) (o : Outcome) (entry : DecisionRecord) (s : Ledger)
      → CoveredBy d usage (walked s)
      → CoveredBy d usage (walked (append_decision_locked c o entry s).0)
  append-CoveredBy d usage o entry s h =
      append_cases c (λ r. CoveredBy d usage (walked r.0)) o entry s (λ e. h)
        λ sig _.
          rw (walked-write_line o (next_line c entry s sig) s)
            (append_line-CoveredBy d usage s.signer o.append (next_line c entry s sig) s.file h)

  -- Nothing is cut off a file whose lines fit.
  pub scanned-all : (ls : List FileLine) → scan_failed c ls ≡ false → scanned c ls ≡ ls
  unfolding scanned scan_failed
  scanned-all [] h = refl
  scanned-all (l ∷ ls) h = ground (arith, scanned-all ls)
