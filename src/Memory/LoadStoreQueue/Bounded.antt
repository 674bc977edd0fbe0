-- ===== src/Memory/LoadStoreQueue/Bounded.antt =====
-- The length of the load/store queue under its operations.
use cpu_cpp.Base.{
  ℕ, ◌≤◌, ◌≡◌, refl, Bool, not, List, [], ◌∷◌, arith, length, length-append, length-keep,
}
use cpu_cpp.Memory.LoadStoreQueue
use cpu_cpp.Memory.LoadStoreQueue.{LoadStoreQueue, OpType, modify}

length-modify :
    (p : LoadStoreQueue.Entry → Bool) (f : LoadStoreQueue.Entry → LoadStoreQueue.Entry)
    (es : LoadStoreQueue) (i : ℕ)
    → length (modify p f es i).1 ≡ length es
unfolding modify
length-modify p f [] i = refl
length-modify p f (e ∷ es) i = let ih = length-modify p f es i in ground (arith, ih)

pub length-set_address :
    (es : LoadStoreQueue) (i a : ℕ) → length (LoadStoreQueue.set_address es i a).1 ≡ length es
unfolding LoadStoreQueue.set_address
length-set_address es i a = search length-modify

pub length-set_store_data :
    (es : LoadStoreQueue) (i w : ℕ) → length (LoadStoreQueue.set_store_data es i w).1 ≡ length es
unfolding LoadStoreQueue.set_store_data
length-set_store_data es i w = search length-modify

pub length-complete_load :
    (es : LoadStoreQueue) (i w : ℕ) → length (LoadStoreQueue.complete_load es i w).1 ≡ length es
unfolding LoadStoreQueue.complete_load
length-complete_load es i w = search length-modify

pub length-mark_executed :
    (es : LoadStoreQueue) (i : ℕ) → length (LoadStoreQueue.mark_executed es i).1 ≡ length es
unfolding LoadStoreQueue.mark_executed
length-mark_executed es i = search length-modify

pub length-remove :
    (es : LoadStoreQueue) (i : ℕ) → length (LoadStoreQueue.remove es i).1 ≤ length es
unfolding LoadStoreQueue.remove
length-remove [] i = omega arith
length-remove (e ∷ es) i = let ih = length-remove es i in ground (arith, ih)

pub length-squash :
    (es : LoadStoreQueue) (is : List ℕ) → length (LoadStoreQueue.squash es is) ≤ length es
unfolding LoadStoreQueue.squash LoadStoreQueue.squash_one
length-squash es [] = omega arith
length-squash es (i ∷ is) =
    let ih = length-squash (LoadStoreQueue.squash_one i es) is in
    let k = length-keep (λ e. not (LoadStoreQueue.is_of i e)) es in omega (arith, ih, k)

pub length-allocate :
    (cap : ℕ) (es : LoadStoreQueue) (op : OpType) (i pc rd : ℕ)
    → length es ≤ cap
    → length (LoadStoreQueue.allocate cap es op i pc rd).1 ≤ cap
unfolding LoadStoreQueue.allocate
length-allocate cap es op i pc rd h =
    let k = length-append es (LoadStoreQueue.new_entry op i pc rd ∷ []) in ground (arith, k)
