-- ===== src/Auth/Registration/Rates.antt =====
-- internal/auth/clientregistration.go: the rate table and its total.
use microagency.Base.{Bool, none, some, [], arith, length, Text, ◌+◌, ◌≤◌, ◌≡◌, ◌∷◌}
use microagency.Base.Map
use microagency.Base.Map.{Map, length-put_old}
use microagency.Auth.Registration.{Window, total_count}

pub total-retain_le :
    (p : Window → Bool) (m : Map Window) → total_count (Map.retain p m) ≤ total_count m
unfolding total_count Map.retain
total-retain_le p [] = omega arith
total-retain_le p ((k, w) ∷ m) = ground (arith, total-retain_le p m)

pub total-put_new :
    (k : Text) (w : Window) (m : Map Window)
    → Map.get k m ≡ none
    → (total_count (Map.put k w m) ≡ total_count m + w.count)
      × (length (Map.put k w m) ≡ length m + 1)
unfolding total_count Map.put Map.get
total-put_new k w [] h = (omega arith, omega arith)
total-put_new k w ((j, v) ∷ m) h = ground (arith, total-put_new k w m)

pub total-put_old :
    (k : Text) (w v : Window) (m : Map Window)
    → Map.get k m ≡ some v
    → (total_count (Map.put k w m) + v.count ≡ total_count m + w.count)
      × (length (Map.put k w m) ≡ length m)
unfolding total_count Map.put Map.get
total-put_old k w v [] h = absurd (cc)
total-put_old k w v ((j, u) ∷ m) h = ground (arith, total-put_old k w v m)
