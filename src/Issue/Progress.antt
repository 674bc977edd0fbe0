-- ===== src/Issue/Progress.antt =====
-- What a cycle of superscalar/core/issue/IssueUnit.hpp achieves.
use cpu_cpp.Base.{
  ℕ, zero, suc, ◌+◌, ◌≤◌, ◌<◌, ◌≡◌, refl, sym, ap, ◌∙◌, ◌⊎◌, inl, inr, true, false, not, ◌||◌, none,
  some, List, [], ◌∷◌, arith, leb, if◌then◌else◌, Option-cases, length, get_or, set, length-set,
  get_or-set_self, set_twice,
}
use mathlib.Core.Path.{subst, ap₂}
use cpu_cpp.Issue.Queue
use cpu_cpp.Issue.Queue.{Entry, IssueQueue, is_ready, select_from, select_ready, mark_issued}
use cpu_cpp.Issue.Unit.{ExecutionRequest, take_out, issue, issue_round, request_of}
use cpu_cpp.Issue.Counting.{IsValid, remove_counts, mark_issued_counts}
use cpu_cpp.Issue.Ready.{
  IsReady, Taken, request_of-Carries, is_ready-IsReady, select_ready_slot, select_ready-none,
}

-- The slot that is taken out is blank afterwards, and no other slot changes.
taken_entries :
    (q : IssueQueue) (i : ℕ)
    → i < length q.entries
    → (get_or q.entries i Queue.blank).valid ≡ true
    → (take_out q i).entries ≡ set q.entries i Queue.blank
unfolding take_out mark_issued Queue.remove
taken_entries q i h v =
    let e = record (get_or q.entries i Queue.blank) { issued = true } in
    let t : (leb (length q.entries) i || not (get_or q.entries i Queue.blank).valid) ≡ false =
      ground (arith, v) in
    let there : (get_or (set q.entries i e) i Queue.blank).valid ≡ true =
      ap (λ x. x.valid) (get_or-set_self q.entries i e Queue.blank h) ∙ v in
    let u : (leb (length (set q.entries i e)) i
          || not (get_or (set q.entries i e) i Queue.blank).valid)
        ≡ false =
      ap₂ (λ n b. leb n i || not b) (length-set q.entries i e) there ∙ ground arith in
    rw (t, u) (set_twice q.entries i e Queue.blank)

-- The slot stays valid when it is marked.
marked_valid :
    (q : IssueQueue) (i : ℕ)
    → i < length q.entries
    → (get_or q.entries i Queue.blank).valid ≡ true
    → ((get_or (mark_issued q i).entries i Queue.blank).valid ≡ true)
      × ((mark_issued q i).count ≡ q.count)
unfolding mark_issued
marked_valid q i h v =
    let t : (leb (length q.entries) i || not (get_or q.entries i Queue.blank).valid) ≡ false =
      ground (arith, v) in
    rw t (ap (λ e. e.valid) (get_or-set_self q.entries i _ Queue.blank h) ∙ v, refl)

take_out_counts :
    (q : IssueQueue) (i : ℕ)
    → IsValid q
    → i < length q.entries
    → (get_or q.entries i Queue.blank).valid ≡ true
    → IsValid (take_out q i) × ((take_out q i).count + 1 ≡ q.count)
unfolding take_out
take_out_counts q i v h p =
    let (a, b) = marked_valid q i h p in
    let (w, c) = remove_counts (mark_issued q i) i (mark_issued_counts q i v) in
    (w, ap (λ t. (Queue.remove (mark_issued q i) i).count + (if t then 1 else 0)) (sym a) ∙ c ∙ b)

-- What the queue and the requests satisfy after `n` rounds.
pub record Issued (n : ℕ) (q : IssueQueue) (r : List ExecutionRequest × IssueQueue) : Type 0 where
  pub valid : IsValid r.1
  pub within : length r.0 ≤ n
  pub counted : length r.0 + r.1.count ≡ q.count
  pub taken : Taken q.entries r.0 r.1.entries
  pub exhausted : (length r.0 ≡ n) ⊎ ((m : ℕ) → IsReady (get_or r.1.entries m Queue.blank) → ⊥)

issue-none : (n : ℕ) (q : IssueQueue) → select_ready q ≡ none → issue (suc n) q ≡ ([], q)
unfolding issue issue_round
issue-none n q h = ap (issue_round (issue n) q) h

issue-some :
    (n : ℕ) (q : IssueQueue) (i : ℕ)
    → select_ready q ≡ some i
    → issue (suc n) q ≡ (
      request_of (get_or q.entries i Queue.blank) ∷ (issue n (take_out q i)).0,
      (issue n (take_out q i)).1,
    )
unfolding issue issue_round
issue-some n q i h = ap (issue_round (issue n) q) h

issue_zero : (q : IssueQueue) → issue 0 q ≡ ([], q)
unfolding issue issue_round
issue_zero q = refl

-- From a queue with a right count, a cycle issues at most as many instructions as the width. One
-- after the other, each comes from the first slot whose entry is valid, not issued and has both
-- sources ready, its request has what the entry has, and the slot is blank afterwards; no other slot
-- changes. The count stays right, and the cycle issues fewer than the width only if no such entry is
-- left.
pub issue_lem : (n : ℕ) (q : IssueQueue) → IsValid q → Issued n q (issue n q)
issue_lem zero q v = subst (Issued 0 q) (sym (issue_zero q)) (record {
  valid = v;
  within = omega arith;
  counted = omega arith;
  taken = Taken.stop q.entries;
  exhausted = inl refl;
})
issue_lem (suc n) q v = elim (Option-cases (select_ready q)) [
  | inl h ↦ subst (Issued (suc n) q) (sym (issue-none n q h)) (record {
    valid = v;
    within = omega arith;
    counted = omega arith;
    taken = Taken.stop q.entries;
    exhausted = inr (select_ready-none q h);
  })
  | inr (i, h) ↦
      let (k, r, before) = select_ready_slot q i h in
      let (w, c) = take_out_counts q i v k (ground (arith, r)) in
      let t = issue_lem n (take_out q i) w in
      subst (Issued (suc n) q) (sym (issue-some n q i h)) (record {
        valid = t.valid;
        within = (let a = t.within in omega (arith, a));
        counted = (let a = t.counted in omega (arith, a, c));
        taken =
            Taken.take q.entries _ _ _ i k (is_ready-IsReady _ r) before
              (request_of-Carries (get_or q.entries i Queue.blank))
              (subst (λ es. Taken es (issue n (take_out q i)).0 (issue n (take_out q i)).1.entries)
                (taken_entries q i k (ground (arith, r))) t.taken);
        exhausted = elim t.exhausted [ inl a ↦ inl (ap suc a) | inr a ↦ inr a ];
      })
]
