-- ===== src/Heap/Find.antt =====
-- The search of `kmalloc` in kernel/memory.c over the chain of blocks.
use v.Common.{
  ℕ, ◌≤◌, ◌≡◌, refl, ◌⊎◌, inl, List, [], ◌∷◌, Option, none, some, arith, Bool, true, false, ◌&&◌,
  leb,
}
use v.Heap.{Block, better, find_best}

-- A free block that holds `size` bytes.
abbrev pub fits : ℕ → Block → Bool
fits size b = b.free && leb size b.size

-- `b` is one of the blocks.
abbrev pub Has : Block → List Block → Type 0
Has b [] = ⊥
Has b (c ∷ cs) = (c ≡ b) ⊎ Has b cs

-- No block that fits is smaller than `n` bytes.
abbrev pub NoneBelow : ℕ → ℕ → List Block → Type 0
NoneBelow size n [] = Unit
NoneBelow size n (b ∷ bs) = (fits size b ≡ true → n ≤ b.size) × NoneBelow size n bs

-- No block fits.
abbrev pub NoneFits : ℕ → List Block → Type 0
NoneFits size [] = Unit
NoneFits size (b ∷ bs) = (fits size b ≡ false) × NoneFits size bs

-- What the search returns from the block `best` found so far.
abbrev pub Found : ℕ → List Block → Option Block → Option Block → Type 0
Found size bs none none = NoneFits size bs
Found size bs (some c) none = ⊥
Found size bs none (some b) = Has b bs × (fits size b ≡ true) × NoneBelow size b.size bs
Found size bs (some c) (some b) =
    ((c ≡ b) ⊎ (Has b bs × (fits size b ≡ true))) × (b.size ≤ c.size) × NoneBelow size b.size bs

-- One more block in front of a search.
Found-cons :
    (size : ℕ) (b : Block) (bs : List Block) (best r : Option Block)
    → Found size bs (better size b best) r
    → Found size (b ∷ bs) best r
unfolding better
Found-cons size b bs none none h = ground arith
Found-cons size b bs none (some r) h = ground arith
Found-cons size b bs (some c) none h = ground arith
Found-cons size b bs (some c) (some r) h = ground arith

find_best-Found :
    (size : ℕ) (bs : List Block) (best : Option Block) → Found size bs best (find_best size bs best)
unfolding find_best
find_best-Found size [] none = tt
find_best-Found size [] (some c) = (inl refl, omega arith, tt)
find_best-Found size (b ∷ bs) best =
    Found-cons size b bs best (find_best size bs (better size b best))
      (find_best-Found size bs (better size b best))

-- What the search finds is a free block of the chain that holds `size` bytes, and no such block is
-- smaller; where it finds none, no block is free and holds them.
pub find_best_best : (size : ℕ) (bs : List Block) → Found size bs none (find_best size bs none)
find_best_best size bs = find_best-Found size bs none
