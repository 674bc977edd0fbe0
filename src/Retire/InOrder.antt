-- ===== src/Retire/InOrder.antt =====
-- What `step` of superscalar/core/commit/CommitUnit.hpp retires.
use cpu_cpp.Base.{
  ℕ, zero, suc, ◌+◌, ◌≤◌, ◌≡◌, refl, sym, ap, ◌∙◌, ◌⊎◌, inl, inr, Bool, true, false, not, ◌&&◌,
  ◌||◌, Option, none, some, List, [], ◌∷◌, ◌++◌, map, arith, ◌==◌, if◌then◌else◌, suc_not_zero,
  Bool-cases, length, get_or, All,
}
use mathlib.Core.Path.{ap₂, subst}
use mathlib.Core.Option.{none-ne-some, some-injective}
use mathlib.Core.List.{append-nil, append_assoc}
use cpu_cpp.Ring.{next}
use cpu_cpp.Isa.{invalid_register}
use cpu_cpp.Rename.FreeList
use cpu_cpp.Rename.FreeList.{FreeList}
use cpu_cpp.Rename.RegisterFile
use cpu_cpp.Rename.RegisterFile.{RegisterFile}
use cpu_cpp.Rob.Entry.{Entry, blank}
use cpu_cpp.Rob.Buffer
use cpu_cpp.Rob.Buffer.{Buffer}
use cpu_cpp.Rob.Contents
use cpu_cpp.Rob.Contents.{contents}
use cpu_cpp.Rob.Queue
use cpu_cpp.Rob.Queue.{Queue, view, commit_items}
use cpu_cpp.Rob.Commit.{commit-IsValid, commit_refines}
use cpu_cpp.Retire.Unit
use cpu_cpp.Retire.Unit.{
  CommitEvent, Committer, event_of, free_old, retire, head_completed, finish_round,
}
use cpu_cpp.Retire.Told.{freed, told, written, write-set, told_same, Stuck}

module _ (cap : ℕ) where
  pub record Retired (n : ℕ) (u : Committer) (r : List CommitEvent × Committer) : Type 0 where
    pub entries : List Entry
    pub valid : Contents.IsValid cap r.1.rob
    pub order : contents cap u.rob ≡ entries ++ contents cap r.1.rob
    pub events : r.0 ≡ map (told u.prf) entries
    pub registers : r.1.arf ≡ written u.prf entries u.arf
    pub completed : All (λ e. e.completed ≡ true) entries
    pub within : length entries ≤ n
    pub counted : r.1.committed_instruction_count ≡ u.committed_instruction_count + length entries
    pub released : r.1.free_list ≡ u.free_list ++ freed entries
    pub stopped : (length entries ≡ n) ⊎ ((r.1.halted ≡ true) ⊎ Stuck (contents cap r.1.rob))

  -- The result of a commit by the flag of the oldest entry.
  abbrev outcome : ℕ → Entry → List Entry → Bool → Option Entry × Queue
  outcome f e es b =
      if b
      then (some e, record { first = next cap f; items = es })
      else (none, record { first = f; items = e ∷ es })

  items_none :
      (f : ℕ) (es : List Entry) (q : Queue)
      → commit_items cap f es ≡ (none, q)
      → (es ≡ q.items) × Stuck q.items
  unfolding commit_items
  items_none f [] q h = (ap (λ p. p.1.items) h, subst Stuck (ap (λ p. p.1.items) h) tt)
  items_none f (e ∷ es) q h = elim (Bool-cases e.completed) [
    | inl c ↦ absurd (none-ne-some e (sym (ap (λ p. p.0) h) ∙ ap (λ b. (outcome f e es b).0) c))
    | inr c ↦
        let q' : e ∷ es ≡ q.items =
          sym (ap (λ b. (outcome f e es b).1.items) c) ∙ ap (λ p. p.1.items) h in
        (q', subst Stuck q' c)
  ]

  items_some :
      (f : ℕ) (es : List Entry) (x : Entry) (q : Queue)
      → commit_items cap f es ≡ (some x, q)
      → (es ≡ x ∷ q.items) × (x.completed ≡ true)
  unfolding commit_items
  items_some f [] x q h = absurd (none-ne-some x (ap (λ p. p.0) h))
  items_some f (e ∷ es) x q h = elim (Bool-cases e.completed) [
    | inl c ↦
        let t = sym (ap (outcome f e es) c) ∙ h in
        let q' : e ≡ x = some-injective e x (ap (λ p. p.0) t) in
        (ap₂ (λ y l. y ∷ l) q' (ap (λ p. p.1.items) t), subst (λ y. y.completed ≡ true) q' c)
    | inr c ↦ absurd (none-ne-some x (sym (ap (λ b. (outcome f e es b).0) c) ∙ ap (λ p. p.0) h))
  ]

  head_open :
      (es : List Entry) (h m : ℕ)
      → (get_or es h blank).valid ≡ true
      → ((suc m == 0)
          || not (head_completed (if suc m == 0 then none else some (get_or es h blank))))
        ≡ true
      → (get_or es h blank).completed ≡ false
  unfolding head_completed
  head_open es h m v p =
      let q : not ((get_or es h blank).valid && (get_or es h blank).completed) ≡ true =
        subst
          (λ b. (b || not (head_completed (if b then none else some (get_or es h blank)))) ≡ true)
          (suc_not_zero m) p in
      ground (arith, v, q)

  -- Where the check of the head fails, no entry can be committed next.
  head-Stuck :
      (es : List Entry) (h t c : ℕ)
      → (let rob : Buffer = record { entries = es; head = h; tail = t; count = c } in
          Contents.IsValid cap rob
          → (Buffer.is_empty rob || not (head_completed (Buffer.head_entry rob))) ≡ true
          → Stuck (contents cap rob))
  unfolding head_completed Buffer.head_entry
  head-Stuck es h t zero v p = tt
  head-Stuck es h t (suc m) v p = head_open es h m v.live.0 p

  -- A commit takes the oldest entry, which is completed, or nothing.
  none_same :
      (rob : Buffer)
      → Contents.IsValid cap rob
      → (Buffer.commit cap rob).0 ≡ none
      → (contents cap rob ≡ contents cap (Buffer.commit cap rob).1)
        × Stuck (contents cap (Buffer.commit cap rob).1)
  unfolding Queue.commit
  none_same rob v h =
      items_none rob.head (contents cap rob) (view cap (Buffer.commit cap rob).1)
        (sym (commit_refines cap rob v) ∙ ap (λ o. (o, view cap (Buffer.commit cap rob).1)) h)

  oldest :
      (rob : Buffer) (e : Entry)
      → Contents.IsValid cap rob
      → (Buffer.commit cap rob).0 ≡ some e
      → (contents cap rob ≡ e ∷ contents cap (Buffer.commit cap rob).1) × (e.completed ≡ true)
  unfolding Queue.commit
  oldest rob e v h =
      items_some rob.head (contents cap rob) e (view cap (Buffer.commit cap rob).1)
        (sym (commit_refines cap rob v) ∙ ap (λ o. (o, view cap (Buffer.commit cap rob).1)) h)

  nothing :
      (n : ℕ) (u : Committer) (rob : Buffer)
      → Contents.IsValid cap rob
      → contents cap u.rob ≡ contents cap rob
      → (0 ≡ n) ⊎ ((u.halted ≡ true) ⊎ Stuck (contents cap rob))
      → Retired n u ([], record u { rob = rob })
  nothing n u rob v same why = record {
    stopped = why;
    entries = [];
    valid = v;
    order = same;
    events = refl;
    registers = refl;
    completed = tt;
    within = omega arith;
    counted = omega arith;
    released = sym (append-nil u.free_list);
  }

  free_old-append :
      (e : Entry) (free xs : List ℕ)
      → free_old e free ++ xs
        ≡ free
          ++ (if e.register_write && not (e.old_physical_rd == invalid_register)
              then e.old_physical_rd ∷ xs
              else xs)
  unfolding free_old FreeList.release_back
  free_old-append e free xs =
      elim (Bool-cases (e.register_write && not (e.old_physical_rd == invalid_register))) [
        | inl h ↦
            let k : (e.old_physical_rd == invalid_register) ≡ false = ground arith in
            rw (h, k) (append_assoc free (e.old_physical_rd ∷ []) xs)
        | inr h ↦ rw h refl
      ]

  -- The entry `e` before what the rounds after it retire.
  one_more :
      (n : ℕ) (u : Committer) (e : Entry) (rob : Buffer) (r : List CommitEvent × Committer)
      → contents cap u.rob ≡ e ∷ contents cap rob
      → e.completed ≡ true
      → Retired n (retire (record u { rob = rob }) e) r
      → Retired (suc n) u (event_of u.prf e ∷ r.0, r.1)
  unfolding retire
  one_more n u e rob r o c t = record {
    entries = e ∷ t.entries;
    valid = t.valid;
    order = o ∙ ap (λ l. e ∷ l) t.order;
    events = ap₂ ◌∷◌ (told_same u.prf e) t.events;
    registers =
        t.registers
        ∙ ap (λ a. written u.prf t.entries (if e.register_write then a else u.arf))
            (write-set u.arf e.architectural_rd (RegisterFile.read u.prf e.physical_rd));
    completed = (c, t.completed);
    within = (let a = t.within in omega (arith, a));
    counted = (let a = t.counted in omega (arith, a));
    released = t.released ∙ free_old-append e u.free_list (freed t.entries);
    stopped = elim t.stopped [ inl a ↦ inl (ap suc a) | inr a ↦ inr a ];
  }

  retired_rob :
      (u : Committer) (e : Entry)
      → Contents.IsValid cap u.rob
      → Contents.IsValid cap (retire u e).rob
  unfolding retire
  retired_rob u e v = v

  round :
      (n : ℕ) (u : Committer) (o : Option Entry) (rob : Buffer)
      → Contents.IsValid cap rob
      → (o ≡ none → (contents cap u.rob ≡ contents cap rob) × Stuck (contents cap rob))
      → ((e : Entry)
          → o ≡ some e
          → (contents cap u.rob ≡ e ∷ contents cap rob) × (e.completed ≡ true))
      → ((u' : Committer) → Contents.IsValid cap u'.rob → Retired n u' (Unit.step cap n u'))
      → Retired (suc n) u (finish_round (Unit.step cap n) u (o, rob))
  unfolding finish_round
  round n u none rob v s k ih = nothing (suc n) u rob v (s refl).0 (inr (inr (s refl).1))
  round n u (some e) rob v s k ih =
      let u' = retire (record u { rob = rob }) e in
      let w : Contents.IsValid cap u'.rob = retired_rob (record u { rob = rob }) e v in
      let stop = λ (h : u'.halted ≡ true).
        one_more n u e rob ([], u') (k e refl).0 (k e refl).1
          (nothing n u' u'.rob w refl (inr (inl h))) in
      let on = one_more n u e rob (Unit.step cap n u') (k e refl).0 (k e refl).1 (ih u' w) in
      elim (Bool-cases u'.halted) [
        | inl h ↦
            subst
              (λ b. Retired (suc n) u (
                if b
                then (event_of u.prf e ∷ [], u')
                else (event_of u.prf e ∷ (Unit.step cap n u').0, (Unit.step cap n u').1)))
              (sym h) (stop h)
        | inr h ↦
            subst
              (λ b. Retired (suc n) u (
                if b
                then (event_of u.prf e ∷ [], u')
                else (event_of u.prf e ∷ (Unit.step cap n u').0, (Unit.step cap n u').1)))
              (sym h) on
      ]

  -- From a valid reorder buffer, the entries that a cycle commits are at most the width's number of
  -- the oldest ones, in program order and all completed; there is one event for each, with
  -- its fields and its destination's value, they have written these values to the architectural
  -- registers in order, they are counted, the registers that they displaced are appended to the free list in the same order, and
  -- the buffer is valid. They are fewer than the width only where the unit has halted or the oldest
  -- entry that is left, if any, is not completed.
  pub step_in_order :
      (n : ℕ) (u : Committer) → Contents.IsValid cap u.rob → Retired n u (Unit.step cap n u)
  unfolding Unit.step
  step_in_order zero u v = nothing 0 u u.rob v refl (inl refl)
  step_in_order (suc n) u v =
      let go = finish_round (Unit.step cap n) u (Buffer.commit cap u.rob) in
      elim (Bool-cases (Buffer.is_empty u.rob || not (head_completed (Buffer.head_entry u.rob)))) [
        | inl h ↦
            subst (λ b. Retired (suc n) u (if b then ([], u) else go)) (sym h)
              (nothing (suc n) u u.rob v refl
                (inr (inr (head-Stuck u.rob.entries u.rob.head u.rob.tail u.rob.count v h))))
        | inr h ↦
            subst (λ b. Retired (suc n) u (if b then ([], u) else go)) (sym h)
              (round n u (Buffer.commit cap u.rob).0 (Buffer.commit cap u.rob).1
                (commit-IsValid cap u.rob v) (none_same u.rob v) (λ e. oldest u.rob e v)
                (step_in_order n))
      ]
