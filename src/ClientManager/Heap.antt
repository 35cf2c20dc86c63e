-- ===== src/ClientManager/Heap.antt =====
-- The sessions in memory, by address.
use easy_game_server.Prelude.{ℕ, zero, suc, ◌≡◌, ◌≢◌, refl, ap, Option, none, some, List, [], ◌∷◌}
use easy_game_server.ClientSession.{ClientSession}

abbrev pub Sessions : Type 0
Sessions = List (Option ClientSession)

abbrev pub lookup : Sessions → ℕ → Option ClientSession
lookup [] a = none
lookup (cell ∷ cells) zero = cell
lookup (cell ∷ cells) (suc a) = lookup cells a

abbrev pub store : Sessions → ℕ → Option ClientSession → Sessions
store [] a new = []
store (cell ∷ cells) zero new = new ∷ cells
store (cell ∷ cells) (suc a) new = cell ∷ store cells a new

pub lookup-store_same :
    (cells : Sessions) (a : ℕ) (s : ClientSession) (new : Option ClientSession)
    → lookup cells a ≡ some s
    → lookup (store cells a new) a ≡ new
lookup-store_same [] a s new h = absurd (cc h)
lookup-store_same (cell ∷ cells) zero s new h = refl
lookup-store_same (cell ∷ cells) (suc a) s new h = lookup-store_same cells a s new h

pub lookup-store_other :
    (cells : Sessions) (a b : ℕ) (new : Option ClientSession)
    → a ≢ b
    → lookup (store cells a new) b ≡ lookup cells b
lookup-store_other [] a b new h = refl
lookup-store_other (cell ∷ cells) zero zero new h = absurd (h refl)
lookup-store_other (cell ∷ cells) zero (suc b) new h = refl
lookup-store_other (cell ∷ cells) (suc a) zero new h = refl
lookup-store_other (cell ∷ cells) (suc a) (suc b) new h =
    lookup-store_other cells a b new (λ e. h (ap suc e))
