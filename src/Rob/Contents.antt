-- ===== src/Rob/Contents.antt =====
-- The reorder buffer as the queue of its entries, oldest first, and the well-formedness invariant
-- of superscalar/core/dispatch/ReOrderBuffer.hpp.
use cpu_cpp.Base.{ℕ, ◌-◌, ◌≤◌, ◌<◌, ◌≡◌, true, false, List, [], ◌∷◌, length, All}
use cpu_cpp.Ring.{next, place, window}
use cpu_cpp.Rob.Entry.{Entry, blank}
use cpu_cpp.Rob.Buffer.{Buffer}

abbrev pub contents : ℕ → Buffer → List Entry
contents cap rob = window cap rob.entries blank rob.head rob.count

-- The unused part of the ring, from the tail on.
abbrev pub unused : ℕ → Buffer → List Entry
unused cap rob = window cap rob.entries blank rob.tail (cap - rob.count)

abbrev pub IsClear : Entry → Type 0
IsClear e = e.valid ≡ false

-- Entries on consecutive places from `h` on, each valid and knowing its place.
abbrev pub Placed : ℕ → ℕ → List Entry → Type 0
Placed cap h [] = Unit
Placed cap h (e ∷ es) = (e.valid ≡ true) × (e.rob_index ≡ h) × Placed cap (next cap h) es

pub record IsValid (cap : ℕ) (rob : Buffer) : Type 0 where
  pub sized : length rob.entries ≡ cap
  pub head_in : rob.head < cap
  pub count_in : rob.count ≤ cap
  pub tail_at : rob.tail ≡ place cap rob.head rob.count
  pub live : Placed cap rob.head (contents cap rob)
  pub clear : All IsClear (unused cap rob)
