-- ===== src/Issue/Atomic.antt =====
-- What the two-wide call of superscalar/core/dispatch/DispatchUnit.hpp takes.
use cpu_cpp.Base.{
  ℕ, ◌+◌, ◌≡◌, refl, sym, ◌∙◌, ◌⊎◌, inl, inr, Bool, true, false, not, ◌||◌, none, arith, leb, ◌==◌,
  size_minus, ==_iff, Bool-cases, length,
}
use mathlib.Core.Path.{subst}
use cpu_cpp.Rename.Bundle.{RenameBundle}
use cpu_cpp.Issue.Counting.{live-le}
use cpu_cpp.Issue.Dispatch.{Dispatcher, dispatch, one_if, dispatch_lane1, dispatch_both}
use cpu_cpp.Issue.Accepted.{IsValid, Took, Room, dispatch_takes}
use cpu_cpp.Issue.Entered.{Enters, dispatch-Enters}

-- One instruction after the other entered, or was a bubble.
abbrev pub Both : ℕ → RenameBundle → RenameBundle → Dispatcher → Dispatcher → Type 0
Both cap input0 input1 d d' =
    (middle : Dispatcher) × Enters cap input0 d middle × Enters cap input1 middle d'

both_none :
    (cap : ℕ) (d : Dispatcher) (input0 input1 : RenameBundle)
    → (one_if input0.valid + one_if input1.valid == 0) ≡ true
    → dispatch_both cap d input0 input1 ≡ (true, d)
unfolding dispatch_both
both_none cap d input0 input1 h = rw h refl

-- The check for room, as the code makes it.
abbrev pub lacks_room : ℕ → ℕ → Dispatcher → Bool
lacks_room cap n d =
    not (leb n (size_minus cap d.rob.count))
    || not (leb n (size_minus (length d.issue_queue.entries) d.issue_queue.count))

both_refused :
    (cap : ℕ) (d : Dispatcher) (input0 input1 : RenameBundle)
    → (one_if input0.valid + one_if input1.valid == 0) ≡ false
    → lacks_room cap (one_if input0.valid + one_if input1.valid) d ≡ true
    → dispatch_both cap d input0 input1 ≡ (false, d)
unfolding dispatch_both
both_refused cap d input0 input1 h k = rw (h, k) refl

both_run :
    (cap : ℕ) (d : Dispatcher) (input0 input1 : RenameBundle)
    → (one_if input0.valid + one_if input1.valid == 0) ≡ false
    → lacks_room cap (one_if input0.valid + one_if input1.valid) d ≡ false
    → dispatch_both cap d input0 input1 ≡ dispatch_lane1 cap input1 (dispatch cap d input0 none)
unfolding dispatch_both
both_run cap d input0 input1 h k = rw (h, k) refl

lane1_run :
    (cap : ℕ) (input1 : RenameBundle) (r : Bool × Dispatcher)
    → r.0 ≡ true
    → dispatch_lane1 cap input1 r ≡ dispatch cap r.1 input1 none
unfolding dispatch_lane1
lane1_run cap input1 r h = rw h refl

Room-holds :
    (cap n : ℕ) (d : Dispatcher) → IsValid cap d → lacks_room cap n d ≡ false → Room cap n d
Room-holds cap n d v h = (
  let k = v.rob_valid.count_in in ground (arith, k),
  (let k = live-le d.issue_queue.entries in let m = v.queue_valid.counted in ground (arith, k, m)),
)

Room-lacks :
    (cap n : ℕ) (d : Dispatcher) → (n == 0) ≡ false → lacks_room cap n d ≡ true → Room cap n d → ⊥
Room-lacks cap n d z h r = let a = r.0 in let b = r.1 in ground (arith, a, b)

Room-zero :
    (cap n : ℕ) (d : Dispatcher) → IsValid cap d → n ≡ 0 → Room cap n d × Took cap n d (true, d)
Room-zero cap n d v z =
    let k = live-le d.issue_queue.entries in
    let m = v.queue_valid.counted in
    let c = v.rob_valid.count_in in
    (
      (omega (arith, c, z), omega (arith, k, m, z)),
      record {
        accepted = refl;
        rob_count = omega (arith, z);
        queue_count = omega (arith, z);
        queue_length = refl;
      },
    )

two_taken :
    (cap : ℕ) (d : Dispatcher) (input0 input1 : RenameBundle)
    → IsValid cap d
    → Room cap (one_if input0.valid + one_if input1.valid) d
    → let r = dispatch_lane1 cap input1 (dispatch cap d input0 none) in
      (Took cap (one_if input0.valid + one_if input1.valid) d r × Both cap input0 input1 d r.1)
      × IsValid cap r.1
two_taken cap d input0 input1 v room =
    let (t, w) =
      dispatch_takes cap d input0 none v
        ((let b = room.0 in omega (arith, b)), (let b = room.1 in omega (arith, b))) in
    let d' = (dispatch cap d input0 none).1 in
    let room' : Room cap (one_if input1.valid) d' = (
      (let a = t.rob_count in let b = room.0 in omega (arith, a, b)),
      (let a = t.queue_count in let b = room.1 in let c = t.queue_length in omega (arith, a, b, c)),
    ) in
    let (t', w') = dispatch_takes cap d' input1 none w room' in
    let entered =
      dispatch-Enters cap d input0 v
        ((let b = room.0 in omega (arith, b)), (let b = room.1 in omega (arith, b))) in
    subst
      (λ r.
        (Took cap (one_if input0.valid + one_if input1.valid) d r × Both cap input0 input1 d r.1)
        × IsValid cap r.1)
      (sym (lane1_run cap input1 (dispatch cap d input0 none) t.accepted))
      (
        (
          record {
            accepted = t'.accepted;
            rob_count = (let a = t.rob_count in let b = t'.rob_count in omega (arith, a, b));
            queue_count = (let a = t.queue_count in let b = t'.queue_count in omega (arith, a, b));
            queue_length = t'.queue_length ∙ t.queue_length;
          },
          (d', entered, dispatch-Enters cap d' input1 w room'),
        ),
        w',
      )

Both-bubbles :
    (cap : ℕ) (d : Dispatcher) (input0 input1 : RenameBundle)
    → one_if input0.valid + one_if input1.valid ≡ 0
    → Both cap input0 input1 d d
Both-bubbles cap d input0 input1 z =
    (d, inr (ground (arith, z), refl), inr (ground (arith, z), refl))

-- From a valid state, a two-wide call takes all its valid instructions, and it does so exactly where
-- both structures have the room, or refuses and changes nothing; both structures stay valid. A taken
-- instruction stands, with what its bundle has, as the youngest in the reorder buffer and in a slot
-- of the issue queue that was free, with the index of the first and with each source that is a
-- register as the register file has it; lane 0 enters before lane 1.
pub dispatch_both_atomic :
    (cap : ℕ) (d : Dispatcher) (input0 input1 : RenameBundle)
    → IsValid cap d
    → let n = one_if input0.valid + one_if input1.valid in
      let r = dispatch_both cap d input0 input1 in
      IsValid cap r.1
      × ((Room cap n d × Took cap n d r × Both cap input0 input1 d r.1)
          ⊎ ((Room cap n d → ⊥) × (r ≡ (false, d))))
dispatch_both_atomic cap d input0 input1 v =
    let n = one_if input0.valid + one_if input1.valid in
    let P : Bool × Dispatcher → Type 0 = (λ r.
      IsValid cap r.1
      × ((Room cap n d × Took cap n d r × Both cap input0 input1 d r.1)
          ⊎ ((Room cap n d → ⊥) × (r ≡ (false, d))))) in
    elim (Bool-cases (n == 0)) [
      | inl z ↦ subst P (sym (both_none cap d input0 input1 z)) (
          let none_due = (==_iff n 0).0 z in
          let (room, took) = Room-zero cap n d v none_due in
          (v, inl (room, took, Both-bubbles cap d input0 input1 none_due)))
      | inr z ↦ elim (Bool-cases (lacks_room cap n d)) [
        | inl k ↦
            subst P (sym (both_refused cap d input0 input1 z k))
              (v, inr (Room-lacks cap n d z k, refl))
        | inr k ↦
            let room = Room-holds cap n d v k in
            let (t, w) = two_taken cap d input0 input1 v room in
            subst P (sym (both_run cap d input0 input1 z k)) (w, inl (room, t.0, t.1))
      ]
    ]
