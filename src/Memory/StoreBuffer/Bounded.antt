-- ===== src/Memory/StoreBuffer/Bounded.antt =====
-- The length of the store buffer under its operations.
use cpu_cpp.Base.{
  ℕ, ◌≤◌, ◌≡◌, refl, true, not, ◌&&◌, List, [], ◌∷◌, arith, ◌==◌, length, length-append,
  length-keep,
}
use cpu_cpp.Memory.StoreBuffer
use cpu_cpp.Memory.StoreBuffer.{StoreBuffer}

pub length-update :
    (es : StoreBuffer) (i a w : ℕ) → length (StoreBuffer.update es i a w).1 ≡ length es
unfolding StoreBuffer.update
length-update [] i a w = refl
length-update (e ∷ es) i a w = let ih = length-update es i a w in ground (arith, ih)

pub length-mark_committed :
    (es : StoreBuffer) (i : ℕ) → length (StoreBuffer.mark_committed es i).1 ≡ length es
unfolding StoreBuffer.mark_committed
length-mark_committed [] i = refl
length-mark_committed (e ∷ es) i = let ih = length-mark_committed es i in ground (arith, ih)

pub length-pop_committed : (es : StoreBuffer) → length (StoreBuffer.pop_committed es).1 ≤ length es
unfolding StoreBuffer.pop_committed
length-pop_committed [] = omega arith
length-pop_committed (e ∷ es) = ground arith

pub length-squash : (es : StoreBuffer) (is : List ℕ) → length (StoreBuffer.squash es is) ≤ length es
unfolding StoreBuffer.squash StoreBuffer.squash_one
length-squash es [] = omega arith
length-squash es (i ∷ is) =
    let ih = length-squash (StoreBuffer.squash_one i es) is in
    let k = length-keep (λ e. not (e.valid && not e.committed && e.rob_index == i)) es in
    omega (arith, ih, k)

pub length-allocate :
    (cap : ℕ) (es : StoreBuffer) (i pc : ℕ)
    → length es ≤ cap
    → length (StoreBuffer.allocate cap es i pc).1 ≤ cap
unfolding StoreBuffer.allocate
length-allocate cap es i pc h =
    let e : StoreBuffer.Entry = record (StoreBuffer.blank) {
      valid = true;
      rob_index = i;
      pc = pc;
    } in
    let k = length-append es (e ∷ []) in ground (arith, k)
