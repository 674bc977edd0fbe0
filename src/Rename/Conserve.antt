-- ===== src/Rename/Conserve.antt =====
-- Where the physical registers stand before and after a rename of
-- superscalar/core/rename/RenameUnit.hpp.
use cpu_cpp.Base.{
  ℕ, zero, suc, ◌+◌, ◌≤◌, ◌<◌, ◌≡◌, refl, sym, ap, ◌∙◌, inl, inr, Bool, true, false, not, ◌&&◌,
  Option, List, [], ◌∷◌, map, arith, leb, ◌==◌, if◌then◌else◌, ==_iff, Bool-cases, length, get_or,
  set, length-set, get_or-set_self, get_or-set_ne, get_or_out, All, count,
}
use cpu_cpp.Base
use mathlib.Core.Bool.{false≢true}
use mathlib.Core.Path.{subst}
use cpu_cpp.Isa.{register_count, invalid_register}
use cpu_cpp.Rename.FreeList
use cpu_cpp.Rename.FreeList.{FreeList}
use mathlib.Core.Option
use cpu_cpp.Rename.RegisterFile
use cpu_cpp.Rename.AliasTable
use cpu_cpp.Rename.AliasTable.{AliasTable}
use cpu_cpp.Rename.Bundle.{DecodeBundle, RenameBundle, blank_rename}
use cpu_cpp.Rename.Renamer
use cpu_cpp.Rename.Renamer.{
  Renamer, translate, claim, can_rename, can_rename_both, rename_lane1, rename_both, needs_register,
}

-- The table is whole, and the free registers are numbers that the table accepts.
pub record IsValid (u : Renamer) : Type 0 where
  pub whole : length u.rat.table ≡ register_count
  pub small : u.rat.physical_reg_count ≤ invalid_register
  pub accepted : All (λ r. r < u.rat.physical_reg_count) u.free_list

abbrev pub one_if : Bool → ℕ
one_if b = if b then 1 else 0

-- How often a register is mapped or free.
abbrev pub uses : ℕ → Renamer → ℕ
uses p u = count (λ r. r == p) u.rat.table + count (λ r. r == p) u.free_list

abbrev pub writes : DecodeBundle → Bool
writes input = input.valid && input.register_write

count-set :
    (p : ℕ) (xs : List ℕ) (i v : ℕ)
    → i < length xs
    → count (λ r. r == p) (Base.set xs i v) + one_if (get_or xs i 0 == p)
      ≡ count (λ r. r == p) xs + one_if (v == p)
count-set p [] i v h = absurd (omega arith)
count-set p (x ∷ xs) zero v h = ground arith
count-set p (x ∷ xs) (suc i) v h = let e = count-set p xs i v (omega arith) in ground (arith, e)

-- What a rename promises, with the register that leaves the table.
pub record Renamed (u : Renamer) (input : DecodeBundle) (r : RenameBundle × Renamer) : Type 0 where
  pub valid : IsValid r.1
  pub kept : r.0.valid ≡ input.valid
  pub running : r.1.stalled ≡ u.stalled
  pub conserved :
      (p : ℕ)
      → uses p r.1 + (if writes input then one_if (r.0.old_physical_rd == p) else 0) ≡ uses p u
  pub spent : length r.1.free_list + needs_register input ≡ length u.free_list
  pub mapped :
      (a : ℕ)
      → AliasTable.lookup r.1.rat a
        ≡ (if writes input && input.rd == a then r.0.physical_rd else AliasTable.lookup u.rat a)
  pub source1 : r.0.physical_rs1 ≡ (if input.valid then AliasTable.lookup u.rat input.rs1 else 0)
  pub source2 : r.0.physical_rs2 ≡ (if input.valid then AliasTable.lookup u.rat input.rs2 else 0)

set_in :
    (rat : AliasTable) (index new : ℕ)
    → index < register_count
    → new < rat.physical_reg_count
    → AliasTable.set rat index new ≡ record rat { table = Base.set rat.table index new }
unfolding AliasTable.set
set_in rat index new h k = ground arith

lookup_in :
    (rat : AliasTable) (a : ℕ)
    → length rat.table ≡ register_count
    → AliasTable.lookup rat a ≡ get_or rat.table a 0
unfolding AliasTable.lookup
lookup_in rat a h = elim (Bool-cases (leb register_count a)) [
  | inl e ↦ rw e (sym (get_or_out rat.table a 0 (ground (arith, h))))
  | inr e ↦ rw e refl
]

get_or-set :
    (xs : List ℕ) (i j v : ℕ)
    → i < length xs
    → get_or (Base.set xs i v) j 0 ≡ (if i == j then v else get_or xs j 0)
get_or-set xs i j v h = elim (Bool-cases (i == j)) [
  | inl e ↦ rw e (
      subst (λ k. get_or (Base.set xs i v) k 0 ≡ v) ((==_iff i j).0 e) (get_or-set_self xs i v 0 h))
  | inr e ↦ rw e (get_or-set_ne xs i j v 0 (ground arith))
]

-- What `claim` does with a register that the table accepts.
claim-ok :
    (u : Renamer) (output : RenameBundle) (new : ℕ) (free : FreeList)
    → output.rd < register_count
    → new < u.rat.physical_reg_count
    → u.rat.physical_reg_count ≤ invalid_register
    → claim u output (new, free) ≡ (
      record output { physical_rd = new },
      record u {
        free_list = free;
        prf = Option.map (λ prf. RegisterFile.allocate prf new) u.prf;
        rat = record (u.rat) { table = Base.set u.rat.table output.rd new };
      },
    )
unfolding claim
claim-ok u output new free h k q =
    let d : (new == invalid_register) ≡ false = ground arith in
    rw (d, set_in u.rat output.rd new h k) refl

both_true : {a b : Bool} → (a && b) ≡ true → (a ≡ true) × (b ≡ true)
both_true {a = true} {b} h = (refl, h)
both_true {a = false} {b} h = absurd (false≢true h)

choose :
    (t c : Bool) (new : ℕ) {x y : ℕ}
    → t ≡ true
    → x ≡ y
    → (if c then new else x) ≡ (if t && c then new else y)
choose true c new h e = ap (λ z. if c then new else z) e
choose false c new h e = absurd (false≢true h)

conserve :
    (u : Renamer) (rd new : ℕ) (free : FreeList) (p : ℕ) (t : Bool)
    → t ≡ true
    → rd < length u.rat.table
    → length u.rat.table ≡ register_count
    → u.free_list ≡ new ∷ free
    → count (λ r. r == p) (Base.set u.rat.table rd new)
        + count (λ r. r == p) free
        + (if t then one_if (AliasTable.lookup u.rat rd == p) else 0)
      ≡ uses p u
conserve u rd new free p t w h k e =
    rw (w, lookup_in u.rat rd k, e) (let q = count-set p u.rat.table rd new h in ground (arith, q))

nonempty : (xs : List ℕ) → not (length xs == 0) ≡ true → (x : ℕ) × (ys : List ℕ) × (xs ≡ x ∷ ys)
nonempty [] h = absurd (false≢true h)
nonempty (x ∷ ys) h = (x, ys, refl)

claimed :
    (u : Renamer) (input : DecodeBundle) (new : ℕ) (free : FreeList)
    → IsValid u
    → input.rd < register_count
    → writes input ≡ true
    → u.free_list ≡ new ∷ free
    → Renamed u input (
        claim u
          (record (translate u.rat input) { old_physical_rd = AliasTable.lookup u.rat input.rd })
          (new, free))
unfolding translate
claimed u input new free v h w e =
    let ok : All (λ r. r < u.rat.physical_reg_count) (new ∷ free) =
      subst (All (λ r. r < u.rat.physical_reg_count)) e v.accepted in
    subst (Renamed u input) (sym (claim-ok u _ new free h ok.0 v.small)) (record {
      valid = record {
        whole = length-set u.rat.table input.rd new ∙ v.whole;
        small = v.small;
        accepted = ok.1;
      };
      kept = sym (both_true w).0;
      running = refl;
      conserved = λ p.
          conserve u input.rd new free p (writes input) w
            (subst (λ l. input.rd < l) (sym v.whole) h) v.whole e;
      spent = rw (w, e) (omega arith);
      mapped = λ a.
          lookup_in _ a (length-set u.rat.table input.rd new ∙ v.whole)
          ∙ get_or-set u.rat.table input.rd a new (subst (λ l. input.rd < l) (sym v.whole) h)
          ∙ choose (writes input) (input.rd == a) new w (sym (lookup_in u.rat a v.whole));
      source1 = sym (ap (λ b. if b then AliasTable.lookup u.rat input.rs1 else 0) (both_true w).0);
      source2 = sym (ap (λ b. if b then AliasTable.lookup u.rat input.rs2 else 0) (both_true w).0);
    })

kept_as_is :
    (u : Renamer) (input : DecodeBundle) (output : RenameBundle)
    → IsValid u
    → writes input ≡ false
    → output.valid ≡ input.valid
    → output.physical_rs1 ≡ (if input.valid then AliasTable.lookup u.rat input.rs1 else 0)
    → output.physical_rs2 ≡ (if input.valid then AliasTable.lookup u.rat input.rs2 else 0)
    → Renamed u input (output, u)
kept_as_is u input output v w k s1 s2 = record {
  valid = v;
  kept = k;
  running = refl;
  conserved = λ p. rw w (omega arith);
  spent = rw w (omega arith);
  mapped = λ a. rw w refl;
  source1 = s1;
  source2 = s2;
}

rename_skip :
    (u : Renamer) (input : DecodeBundle)
    → input.valid ≡ false
    → Renamer.rename u input ≡ (blank_rename, u)
unfolding Renamer.rename
rename_skip u input h = rw h refl

rename_read :
    (u : Renamer) (input : DecodeBundle)
    → input.valid ≡ true
    → input.register_write ≡ false
    → Renamer.rename u input ≡ (translate u.rat input, u)
unfolding Renamer.rename
rename_read u input h k = rw (h, k) refl

rename_write :
    (u : Renamer) (input : DecodeBundle)
    → writes input ≡ true
    → (new : ℕ) (free : FreeList) → u.free_list ≡ new ∷ free
    → Renamer.rename u input
      ≡ claim u
          (record (translate u.rat input) { old_physical_rd = AliasTable.lookup u.rat input.rd })
          (new, free)
unfolding Renamer.rename FreeList.allocate
rename_write u input w new free e =
    let p : input.valid ≡ true = (both_true w).0 in
    let q : input.register_write ≡ true = (both_true w).1 in rw (p, q, e) refl

has_register :
    (u : Renamer) (input : DecodeBundle)
    → writes input ≡ true
    → can_rename u input ≡ true
    → (x : ℕ) × (ys : List ℕ) × (u.free_list ≡ x ∷ ys)
unfolding can_rename
has_register u input w c =
    let p : input.valid ≡ true = (both_true w).0 in
    let q : input.register_write ≡ true = (both_true {a = input.valid} w).1 in
    nonempty u.free_list (ground arith)

-- A valid renamer that has a register for the instruction, whose destination is in range, renames
-- it without a stall: it stays valid, every physical register is afterwards mapped, free or the
-- displaced one exactly as often as it was mapped or free before, the destination alone is mapped
-- anew, and the sources come from the old table.
pub rename_conserves :
    (u : Renamer) (input : DecodeBundle)
    → IsValid u
    → input.rd < register_count
    → can_rename u input ≡ true
    → Renamed u input (Renamer.rename u input)
unfolding translate
rename_conserves u input v h c = elim (Bool-cases (writes input)) [
  | inl w ↦
      let (new, free, e) = has_register u input w c in
      subst (Renamed u input) (sym (rename_write u input w new free e))
        (claimed u input new free v h w e)
  | inr w ↦ elim (Bool-cases input.valid) [
    | inl a ↦ subst (Renamed u input) (sym (rename_read u input a (ground arith))) (
        kept_as_is u input (translate u.rat input) v w (sym a)
          (sym (ap (λ b. if b then AliasTable.lookup u.rat input.rs1 else 0) a))
          (sym (ap (λ b. if b then AliasTable.lookup u.rat input.rs2 else 0) a)))
    | inr a ↦ subst (Renamed u input) (sym (rename_skip u input a)) (
        kept_as_is u input blank_rename v w (sym a)
          (sym (ap (λ b. if b then AliasTable.lookup u.rat input.rs1 else 0) a))
          (sym (ap (λ b. if b then AliasTable.lookup u.rat input.rs2 else 0) a)))
  ]
]
