-- ===== src/Issue/Wakeup.antt =====
-- What `wakeup` of superscalar/core/issue/IssueQueue.hpp leaves waiting.
use cpu_cpp.Base.{
  ℕ, ◌≡◌, refl, ap, inl, inr, Bool, false, not, ◌&&◌, ◌||◌, List, [], ◌∷◌, map, arith, ◌==◌,
  if◌then◌else◌, ==_iff, Bool-cases, All, count,
}
use mathlib.Core.Path.{subst, ap₂}
use cpu_cpp.Issue.Queue
use cpu_cpp.Issue.Queue.{Entry, IssueQueue, wake}

-- A source of the entry still waits for the register.
abbrev pub waits_for : ℕ → Entry → Bool
waits_for r e =
    e.valid
    && ((not e.rs1_ready && e.physical_rs1 == r) || (not e.rs2_ready && e.physical_rs2 == r))

wake-waits : (r x : ℕ) (e : Entry) → waits_for r (wake r x e) ≡ false
wake-waits r x e = ground arith

wake_other : (r s x : ℕ) (e : Entry) → (r == s) ≡ false → waits_for s (wake r x e) ≡ waits_for s e
wake_other r s x e h = ground (arith, h)

count_none : (p : Entry → Bool) (es : List Entry) → All (λ e. p e ≡ false) es → count p es ≡ 0
count_none p [] a = refl
count_none p (e ∷ es) a = rw (a.0, count_none p es a.1) refl

all_map :
    (p : Entry → Bool) (f : Entry → Entry)
    → ((e : Entry) → p (f e) ≡ false)
    → (es : List Entry) → All (λ e. p e ≡ false) (map f es)
all_map p f h [] = tt
all_map p f h (e ∷ es) = (h e, all_map p f h es)

map_count :
    (p : Entry → Bool) (f : Entry → Entry)
    → ((e : Entry) → p (f e) ≡ p e)
    → (es : List Entry) → count p (map f es) ≡ count p es
map_count p f h [] = refl
map_count p f h (e ∷ es) = rw (h e, map_count p f h es) refl

wakeup_waits :
    (q : IssueQueue) (r x s : ℕ)
    → count (waits_for s) (Queue.wakeup q r x).entries
      ≡ (if r == s then 0 else count (waits_for s) q.entries)
unfolding Queue.wakeup
wakeup_waits q r x s = elim (Bool-cases (r == s)) [
  | inl h ↦ rw h (
      count_none (waits_for s) (map (wake r x) q.entries) (
        all_map (waits_for s) (wake r x)
          (λ e. subst (λ z. waits_for z (wake r x e) ≡ false) ((==_iff r s).0 h) (wake-waits r x e))
          q.entries))
  | inr h ↦ rw h (map_count (waits_for s) (wake r x) (λ e. wake_other r s x e h) q.entries)
]

-- What a broadcast of the value `x` for the register `r` makes of a slot: each source of a valid
-- entry that waits for the register has the value and is ready; nothing else changes.
abbrev pub waits1 : ℕ → Entry → Bool
waits1 r e = e.valid && not e.rs1_ready && e.physical_rs1 == r

abbrev pub waits2 : ℕ → Entry → Bool
waits2 r e = e.valid && not e.rs2_ready && e.physical_rs2 == r

abbrev pub informed : ℕ → ℕ → Entry → Entry
informed r x e = record e {
  rs1_ready = e.rs1_ready || waits1 r e;
  rs1_value = if waits1 r e then x else e.rs1_value;
  rs2_ready = e.rs2_ready || waits2 r e;
  rs2_value = if waits2 r e then x else e.rs2_value;
}

wake-informed : (r x : ℕ) (e : Entry) → wake r x e ≡ informed r x e
wake-informed r x e = ground arith

map_same :
    (f g : Entry → Entry) → ((e : Entry) → f e ≡ g e) → (es : List Entry) → map f es ≡ map g es
map_same f g h [] = refl
map_same f g h (e ∷ es) = ap₂ ◌∷◌ (h e) (map_same f g h es)

-- After a wakeup for a register with a value, each source that waited for it in a valid entry is
-- ready with this value, and nothing else of the queue has changed; so no valid entry waits for the
-- register any more, and just as many as before wait for any other.
pub wakeup_lem :
    (q : IssueQueue) (r x s : ℕ)
    → (Queue.wakeup q r x ≡ record q { entries = map (informed r x) q.entries })
      × (count (waits_for s) (Queue.wakeup q r x).entries
          ≡ (if r == s then 0 else count (waits_for s) q.entries))
unfolding Queue.wakeup
wakeup_lem q r x s = (
  ap (λ es. record q { entries = es })
      (map_same (wake r x) (informed r x) (wake-informed r x) q.entries),
  wakeup_waits q r x s,
)
