-- ===== src/Issue/Counting.antt =====
-- `count_` of superscalar/core/issue/IssueQueue.hpp beside the number of valid entries.
use cpu_cpp.Base.{
  ℕ, zero, suc, ◌+◌, ◌≤◌, ◌<◌, ◌≡◌, refl, sym, ap, ◌∙◌, inl, inr, Bool, true, false, not, ◌&&◌,
  ◌||◌, List, [], ◌∷◌, map, arith, ltb, leb, if◌then◌else◌, Bool-cases, length, get_or, set,
  get_or_out, count, contains,
}
use mathlib.Core.Path.{ap₂}
use cpu_cpp.Issue.Queue
use cpu_cpp.Issue.Queue.{Entry, IssueQueue, blank, decrement, put, wake, squash_from, mark_issued}

abbrev pub is_valid : Entry → Bool
is_valid e = e.valid

abbrev pub live : List Entry → ℕ
live es = count is_valid es

pub record IsValid (q : IssueQueue) : Type 0 where
  pub counted : q.count ≡ live q.entries

pub live-le : (es : List Entry) → live es ≤ length es
live-le [] = omega arith
live-le (e ∷ es) = let h = live-le es in ground (arith, h)

put_lem :
    (es : List Entry) (e : Entry)
    → e.valid ≡ true
    → ((put es e).0 ≡ ltb (live es) (length es))
      × (length (put es e).1 ≡ length es)
      × (live (put es e).1 ≡ live es + (if (put es e).0 then 1 else 0))
unfolding put
put_lem [] e h = (ground arith, refl, omega arith)
put_lem (x ∷ es) e h =
    let ih = put_lem es e h in
    let l = live-le es in
    elim (Bool-cases x.valid) [
      | inl a ↦ rw a (ih.0 ∙ ground arith, ap suc ih.1, (let k = ih.2 in omega (arith, k)))
      | inr a ↦ rw (a, h) (ground (arith, l), refl, omega arith)
    ]

-- From a queue with a right count, an insertion succeeds exactly where a slot is free, keeps the
-- count right and the array's length, and counts one more where it succeeds.
pub insert_counts :
    (q : IssueQueue) (e : Entry)
    → IsValid q
    → ((Queue.insert q e).0 ≡ ltb q.count (length q.entries))
      × IsValid (Queue.insert q e).1
      × (length (Queue.insert q e).1.entries ≡ length q.entries)
      × ((Queue.insert q e).1.count ≡ q.count + (if (Queue.insert q e).0 then 1 else 0))
unfolding Queue.insert
insert_counts q e v =
    let f : Entry = record e { valid = true } in
    let (ok, len, n) = put_lem q.entries f refl in
    let l = live-le q.entries in
    elim (Bool-cases (Queue.is_full q)) [
      | inl a ↦ rw a ((let m = v.counted in ground (arith, m, l)), v, refl, omega arith)
      | inr a ↦
          let yes : (put q.entries f).0 ≡ true = ok ∙ ground (arith, v.counted, l) in
          rw (a, yes)
            (
              (let m = v.counted in ground (arith, m, l)),
              record {
                counted =
                    (let m = v.counted in
                      let n' : live (put q.entries f).1 ≡ live q.entries + 1 =
                        n ∙ ap (λ b. live q.entries + (if b then 1 else 0)) yes in
                      omega (arith, m, n'));
              },
              len,
              refl,
            )
    ]

decrement-suc : {c n : ℕ} → c ≡ suc n → decrement c ≡ n
unfolding decrement
decrement-suc e = ap decrement e

wake_valid : (r x : ℕ) (e : Entry) → (wake r x e).valid ≡ e.valid
wake_valid r x e = ground arith

live-map :
    (f : Entry → Entry)
    → ((e : Entry) → (f e).valid ≡ e.valid)
    → (es : List Entry) → live (map f es) ≡ live es
live-map f h [] = refl
live-map f h (e ∷ es) = rw (h e, live-map f h es) refl

live-set :
    (es : List Entry) (i : ℕ) (e : Entry)
    → i < length es
    → live (set es i e) + (if (get_or es i blank).valid then 1 else 0)
      ≡ live es + (if e.valid then 1 else 0)
live-set [] i e h = absurd (omega arith)
live-set (x ∷ es) zero e h = ground arith
live-set (x ∷ es) (suc i) e h = let ih = live-set es i e (omega arith) in ground (arith, ih)

out_invalid : (es : List Entry) (i : ℕ) → length es ≤ i → (get_or es i blank).valid ≡ false
out_invalid es i h = ap (λ e. e.valid) (get_or_out es i blank h)

-- From a queue with a right count, removing a slot keeps the count right and counts one less
-- where the slot was valid.
pub remove_counts :
    (q : IssueQueue) (i : ℕ)
    → IsValid q
    → IsValid (Queue.remove q i)
      × ((Queue.remove q i).count + (if (get_or q.entries i blank).valid then 1 else 0) ≡ q.count)
unfolding Queue.remove
remove_counts q i v = elim (Bool-cases (leb (length q.entries) i)) [
  | inl a ↦ rw a (v, (let o = out_invalid q.entries i (ground arith) in ground (arith, o)))
  | inr a ↦ elim (Bool-cases (get_or q.entries i blank).valid) [
    | inl b ↦
        let k = live-set q.entries i blank (ground arith) in
        let n : q.count ≡ suc (live (set q.entries i blank)) = ground (arith, k, v.counted) in
        rw (a, b, decrement-suc n) (record { counted = refl }, omega (arith, n))
    | inr b ↦ rw (a, b) (v, omega arith)
  ]
]

pub mark_issued_counts : (q : IssueQueue) (i : ℕ) → IsValid q → IsValid (mark_issued q i)
unfolding mark_issued
mark_issued_counts q i v =
    elim (Bool-cases (leb (length q.entries) i || not (get_or q.entries i blank).valid)) [
      | inl a ↦ rw a v
      | inr a ↦
          let k =
            live-set q.entries i (record (get_or q.entries i blank) { issued = true })
              (ground arith) in
          rw a (record { counted = v.counted ∙ omega (arith, k) })
    ]

pub wakeup_counts : (q : IssueQueue) (r x : ℕ) → IsValid q → IsValid (Queue.wakeup q r x)
unfolding Queue.wakeup
wakeup_counts q r x v = record {
  counted = v.counted ∙ sym (live-map (wake r x) (wake_valid r x) q.entries);
}

-- An entry after a squash.
abbrev pub clear_listed : List ℕ → Entry → Entry
clear_listed is e = if e.valid && contains e.rob_index is then blank else e

record Squashed (es : List Entry) (is : List ℕ) (extra : ℕ) (r : ℕ × ℕ × List Entry) : Type 0 where
  counted : r.1 ≡ live r.2 + extra
  gone : r.0 + live r.2 ≡ live es
  cleared : r.2 ≡ map (clear_listed is) es

squash_from_lem :
    (es : List Entry) (is : List ℕ) (extra c : ℕ)
    → c ≡ live es + extra
    → Squashed es is extra (squash_from es is c)
unfolding squash_from
squash_from_lem [] is extra c h = record { counted = h; gone = omega arith; cleared = refl }
squash_from_lem (e ∷ es) is extra c h = elim (Bool-cases (e.valid && contains e.rob_index is)) [
  | inl g ↦
      let w : e.valid ≡ true = ground arith in
      let s = squash_from_lem es is extra (decrement c) (decrement-suc (h ∙ ground (arith, w))) in
      rw g (record {
        counted = s.counted;
        gone = (let k = s.gone in ground (arith, k, w));
        cleared = ap₂ (λ x l. x ∷ l) (sym (ap (λ b. if b then blank else e) g)) s.cleared;
      })
  | inr g ↦
      let s = squash_from_lem es is (extra + (if e.valid then 1 else 0)) c (h ∙ ground arith) in
      rw g (record {
        counted = (let k = s.counted in ground (arith, k));
        gone = (let k = s.gone in ground (arith, k));
        cleared = ap₂ (λ x l. x ∷ l) (sym (ap (λ b. if b then blank else e) g)) s.cleared;
      })
]

-- From a queue with a right count, a squash clears exactly the valid entries whose index it
-- lists, returns how many those are, and keeps the count right.
pub squash_counts :
    (q : IssueQueue) (is : List ℕ)
    → IsValid q
    → IsValid (Queue.squash q is).1
      × ((Queue.squash q is).0 + (Queue.squash q is).1.count ≡ q.count)
      × ((Queue.squash q is).1.entries ≡ map (clear_listed is) q.entries)
unfolding Queue.squash
squash_counts q is v =
    let s = squash_from_lem q.entries is 0 q.count (v.counted ∙ omega arith) in
    (
      record { counted = s.counted ∙ omega arith },
      (let a = s.counted in let b = s.gone in let c = v.counted in omega (arith, a, b, c)),
      s.cleared,
    )
