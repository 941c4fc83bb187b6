-- ===== src/Mcp/Ledger/Windows.antt =====
-- internal/mcp/decisionledger.go: the times of a grant's authorizations, and the window of its rate.
use microagency.Base.{
  ℕ, refl, List, [], arith, ltb, leb, length, keep, ◌+◌, ◌*◌, ◌≤◌, ◌≡◌, ◌&&◌, ◌∷◌, ◌++◌,
  if◌then◌else◌,
}
use microagency.Mcp.Grant.{RateGrant}
use microagency.Mcp.Ledger.Authorize.{recent}

-- An authorization: its time, and the bytes that it reserves.
abbrev pub Authorization : Type 0
Authorization = ℕ × ℕ

-- Newest first, the bytes of the authorizations.
unfoldable pub spent : List Authorization → ℕ
spent [] = 0
spent ((at, bytes) ∷ rest) = bytes + spent rest

-- How many of the authorizations fall into the window of this width that ends at the time.
unfoldable pub in_window : ℕ → ℕ → List Authorization → ℕ
in_window width now [] = 0
in_window width now ((at, bytes) ∷ rest) =
    (if leb at now && ltb now (at + width) then 1 else 0) + in_window width now rest

unfoldable pub live : ℕ → ℕ → List ℕ → ℕ
live width now [] = 0
live width now (at ∷ times) = (if ltb now (at + width) then 1 else 0) + live width now times

unfoldable pub live_among : ℕ → ℕ → List Authorization → ℕ
live_among width now [] = 0
live_among width now ((at, bytes) ∷ rest) =
    (if ltb now (at + width) then 1 else 0) + live_among width now rest

pub live-append :
    (width now : ℕ) (times : List ℕ) (at : ℕ)
    → live width now (times ++ at ∷ [])
      ≡ live width now times + (if ltb now (at + width) then 1 else 0)
unfolding live
live-append width now [] at = omega arith
live-append width now (t ∷ times) at = omega (arith, live-append width now times at)

kept-live :
    (width now later : ℕ) (times : List ℕ)
    → now ≤ later
    → live width later (keep (λ at. ltb now (at + width)) times) ≡ live width later times
unfolding live keep
kept-live width now later [] h = refl
kept-live width now later (t ∷ times) h = ground (arith, kept-live width now later times h)

-- Dropping the old times changes no later count.
pub recent-live :
    (now later : ℕ) (rate : RateGrant) (times : List ℕ)
    → now ≤ later
    → live (rate.window_s * 1000000000) later (recent now rate times)
      ≡ live (rate.window_s * 1000000000) later times
unfolding recent
recent-live now later rate times h = kept-live (rate.window_s * 1000000000) now later times h

kept-length :
    (width now : ℕ) (times : List ℕ)
    → length (keep (λ at. ltb now (at + width)) times) ≡ live width now times
unfolding live keep
kept-length width now [] = refl
kept-length width now (t ∷ times) = ground (arith, kept-length width now times)

-- What is kept is what counts now.
pub length-recent :
    (now : ℕ) (rate : RateGrant) (times : List ℕ)
    → length (recent now rate times) ≡ live (rate.window_s * 1000000000) now times
unfolding recent
length-recent now rate times = kept-length (rate.window_s * 1000000000) now times

pub in_window-le :
    (width now : ℕ) (t : List Authorization) → in_window width now t ≤ live_among width now t
unfolding in_window live_among
in_window-le width now [] = omega arith
in_window-le width now ((at, bytes) ∷ rest) = ground (arith, in_window-le width now rest)

pub live_among_mono :
    (width now later : ℕ) (t : List Authorization)
    → now ≤ later
    → live_among width later t ≤ live_among width now t
unfolding live_among
live_among_mono width now later [] h = omega arith
live_among_mono width now later ((at, bytes) ∷ rest) h =
    ground (arith, live_among_mono width now later rest h)
