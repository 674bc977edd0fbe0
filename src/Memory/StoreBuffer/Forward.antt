-- ===== src/Memory/StoreBuffer/Forward.antt =====
-- Forwarding from and squashing of superscalar/core/commit/StoreBuffer.hpp.
use cpu_cpp.Base.{
  ℕ, ◌≡◌, refl, sym, ◌∙◌, ◌⊎◌, Bool, false, not, ◌&&◌, Option, none, some, List, [], ◌∷◌, arith,
  ◌==◌, if◌then◌else◌, All, keep, contains,
}
use mathlib.Core.List.{reverse}
use cpu_cpp.First.{IsFirst, IsFirst-cases, keep-keep, keep_all}
use cpu_cpp.Memory.StoreBuffer
use cpu_cpp.Memory.StoreBuffer.{Entry, StoreBuffer, forward_from, forward, squash_one}

-- An entry that holds the address.
abbrev pub is_match : ℕ → Entry → Bool
is_match address e = e.valid && e.address_ready && e.address == address

abbrev pub word_of : Entry → Option ℕ
word_of e = if e.data_ready then some e.data_word else none

forward_from-step :
    (a : ℕ) (x : Entry) (xs : List Entry)
    → forward_from (x ∷ xs) a ≡ (if is_match a x then word_of x else forward_from xs a)
unfolding forward_from
forward_from-step a x xs = ground arith

-- A forward gives the word of the youngest valid entry that holds the address, nothing if that
-- entry's word is not ready, and nothing if no entry holds the address.
pub forward_lem :
    (entries : StoreBuffer) (address : ℕ)
    → ((e : Entry) × IsFirst (is_match address) (reverse entries) e
        × (forward entries address ≡ word_of e))
      ⊎ (All (λ e. is_match address e ≡ false) (reverse entries) × (forward entries address ≡ none))
unfolding forward forward_from
forward_lem entries a =
    IsFirst-cases (is_match a) word_of none (λ l. forward_from l a) refl (forward_from-step a)
      (reverse entries)

-- A squash leaves, in order, the committed entries, those that are not valid and those whose index
-- it does not list.
pub squash_keeps_committed :
    (is : List ℕ) (entries : StoreBuffer)
    → StoreBuffer.squash entries is
      ≡ keep (λ e. not (e.valid && not e.committed && contains e.rob_index is)) entries
unfolding StoreBuffer.squash squash_one
squash_keeps_committed [] entries = sym (keep_all _ entries (λ e. ground arith))
squash_keeps_committed (i ∷ is) entries =
    squash_keeps_committed is (squash_one i entries) ∙ keep-keep _ _ _ (λ e. ground arith) entries
