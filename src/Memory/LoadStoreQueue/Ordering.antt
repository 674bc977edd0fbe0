-- ===== src/Memory/LoadStoreQueue/Ordering.antt =====
-- Loads against the older stores and stores against the younger loads, in
-- superscalar/core/memory/LoadStoreQueue.hpp.
use cpu_cpp.Base.{
  ℕ, ◌≡◌, refl, sym, ap, ◌∙◌, ◌⊎◌, inl, inr, Bool, true, false, not, ◌&&◌, ◌||◌, some, List, [],
  ◌∷◌, arith, ◌==◌, if◌then◌else◌, Bool-cases, All,
}
use mathlib.Core.Path.{subst}
use mathlib.Core.Option.{none-ne-some, some-injective}
use cpu_cpp.First.{IsFirst, IsFirst-cases_at}
use cpu_cpp.Memory.LoadStoreQueue.{
  Entry, LoadResult, ViolationCheck, LoadStoreQueue, is_load, is_store, is_of, find, split_at,
  no_result, scan_older, load_from, execute_load, no_violation, scan_younger, violation_from,
  check_order_violation,
}

-- The older entries, youngest first, put back before the rest of the queue.
abbrev pub put_back : List Entry → LoadStoreQueue → LoadStoreQueue
put_back [] rest = rest
put_back (e ∷ older) rest = put_back older (e ∷ rest)

-- Where the first entry of an index stands, with its neighbours in both directions.
pub record Position (entries : LoadStoreQueue) (rob_index : ℕ) (e : Entry) : Type 0 where
  pub older : List Entry
  pub younger : List Entry
  pub order : entries ≡ put_back older (e ∷ younger)
  pub found : is_of rob_index e ≡ true
  pub fresh : All (λ x. is_of rob_index x ≡ false) older

-- A store that a load of this address may not pass: its address is unknown or the same.
abbrev pub conflicts : ℕ → Entry → Bool
conflicts address e = e.valid && is_store e && (not e.address_valid || e.address == address)

-- What such a store makes of the load.
abbrev pub answer_of : Entry → LoadResult
answer_of e =
    if e.address_valid && e.data_valid
    then record { hit = true; must_wait = false; data_word = e.data_word }
    else record { hit = false; must_wait = true; data_word = 0 }

-- A load that ran before a store to its address.
abbrev pub premature : ℕ → Entry → Bool
premature address e = e.valid && is_load e && e.executed && e.address_valid && e.address == address

abbrev pub violation_of : Entry → ViolationCheck
violation_of e = record {
  violation = true;
  violating_load_rob_index = e.rob_index;
  violating_load_pc = e.pc;
}

-- The loop's position is that of the entry that `find` returns.
split_at-find :
    (entries older : LoadStoreQueue) (i : ℕ) (e : Entry)
    → find entries i ≡ some e
    → All (λ x. is_of i x ≡ false) older
    → (o : List Entry) × (y : List Entry) × (split_at older entries i ≡ some (o, e, y))
      × (put_back older entries ≡ put_back o (e ∷ y))
      × (is_of i e ≡ true)
      × All (λ x. is_of i x ≡ false) o
unfolding split_at find
split_at-find [] older i e f a = absurd (none-ne-some e f)
split_at-find (x ∷ es) older i e f a = elim (Bool-cases (is_of i x)) [
  | inl h ↦
      let q : x ≡ e = some-injective _ _ (sym (ap (λ b. if b then some x else find es i) h) ∙ f) in
      (
        older,
        es,
        ap (λ b. if b then some (older, x, es) else split_at (x ∷ older) es i) h
            ∙ ap (λ z. some (older, z, es)) q,
        ap (λ z. put_back older (z ∷ es)) q,
        subst (λ z. is_of i z ≡ true) q h,
        a,
      )
  | inr h ↦ rw h (
      split_at-find es (x ∷ older) i e (sym (ap (λ b. if b then some x else find es i) h) ∙ f)
        (h, a))
]

scan_older-step :
    (a : ℕ) (x : Entry) (xs : List Entry)
    → scan_older (x ∷ xs) a ≡ (if conflicts a x then answer_of x else scan_older xs a)
unfolding scan_older
scan_older-step a x xs = ground arith

scan_younger-step :
    (a : ℕ) (x : Entry) (xs : List Entry)
    → scan_younger (x ∷ xs) a ≡ (if premature a x then violation_of x else scan_younger xs a)
unfolding scan_younger
scan_younger-step a x xs = ground arith

scan_older-nil : (a : ℕ) → scan_older [] a ≡ no_result
unfolding scan_older
scan_older-nil a = refl

scan_younger-nil : (a : ℕ) → scan_younger [] a ≡ no_violation
unfolding scan_younger
scan_younger-nil a = refl

execute_load-at :
    (entries : LoadStoreQueue) (i : ℕ) (e : Entry) (o y : List Entry)
    → split_at [] entries i ≡ some (o, e, y)
    → e.address_valid ≡ true
    → execute_load entries i ≡ scan_older o e.address
unfolding execute_load load_from
execute_load-at entries i e o y at v =
    ap load_from at ∙ ap (λ b. if b then scan_older o e.address else no_result) v

check-at :
    (entries : LoadStoreQueue) (i : ℕ) (e : Entry) (o y : List Entry)
    → split_at [] entries i ≡ some (o, e, y)
    → e.address_valid ≡ true
    → check_order_violation entries i ≡ scan_younger y e.address
unfolding check_order_violation violation_from
check-at entries i e o y at v =
    ap violation_from at ∙ ap (λ b. if b then scan_younger y e.address else no_violation) v

position :
    (entries : LoadStoreQueue) (i : ℕ) (e : Entry)
    → find entries i ≡ some e
    → (p : Position entries i e) × (split_at [] entries i ≡ some (p.older, e, p.younger))
position entries i e f =
    let (o, y, at, order, found, fresh) = split_at-find entries [] i e f tt in
    (record { older = o; younger = y; order = order; found = found; fresh = fresh }, at)

-- A load whose entry has its address gets the answer of the youngest older store that conflicts
-- with it, and nothing to wait for where no older store conflicts.
pub execute_load_lem :
    (entries : LoadStoreQueue) (i : ℕ) (e : Entry)
    → find entries i ≡ some e
    → e.address_valid ≡ true
    → (p : Position entries i e) × (((store : Entry) × IsFirst (conflicts e.address) p.older store
          × (execute_load entries i ≡ answer_of store))
        ⊎ (All (λ s. conflicts e.address s ≡ false) p.older × (execute_load entries i ≡ no_result)))
execute_load_lem entries i e f v =
    let (p, at) = position entries i e f in
    let run : execute_load entries i ≡ scan_older p.older e.address =
      execute_load-at entries i e p.older p.younger at v in
    (
      p,
      IsFirst-cases_at (conflicts e.address) answer_of no_result (λ l. scan_older l e.address)
          (scan_older-nil e.address) (scan_older-step e.address) p.older run,
    )

-- The check of a store whose entry has its address reports the oldest younger load that ran
-- before it at this address, and reports no violation where there is no such load.
pub check_order_violation_lem :
    (entries : LoadStoreQueue) (i : ℕ) (e : Entry)
    → find entries i ≡ some e
    → e.address_valid ≡ true
    → (p : Position entries i e) × (((l : Entry) × IsFirst (premature e.address) p.younger l
          × (check_order_violation entries i ≡ violation_of l))
        ⊎ (All (λ l. premature e.address l ≡ false) p.younger
            × (check_order_violation entries i ≡ no_violation)))
check_order_violation_lem entries i e f v =
    let (p, at) = position entries i e f in
    let run : check_order_violation entries i ≡ scan_younger p.younger e.address =
      check-at entries i e p.older p.younger at v in
    (
      p,
      IsFirst-cases_at (premature e.address) violation_of no_violation
          (λ l. scan_younger l e.address) (scan_younger-nil e.address) (scan_younger-step e.address)
          p.younger run,
    )
