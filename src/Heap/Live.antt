-- ===== src/Heap/Live.antt =====
-- The live allocations of the heap: the used blocks by address, and what the changes of the chain do
-- to them.
use v.Common.{
  ℕ, ◌+◌, ◌^◌, ◌≤◌, ◌<◌, ◌≡◌, refl, ◌∙◌, ap, inl, inr, List, [], ◌∷◌, ◌++◌, Option, none, some,
  arith, true, leb, ◌==◌, if◌then◌else◌, Bool-cases,
}
use v.Heap.{Block, carve, place, header_size, new_block, merge_next, release, coalesce_prev}
use v.Heap.Chain.{Chain, Chain-le}
use v.Heap.Find.{Has}

-- The size of the used block with its header at an address.
abbrev pub live : List Block → ℕ → Option ℕ
live [] a = none
live (b ∷ bs) a = if b.addr == a then (if b.free then none else some b.size) else live bs a

-- No block stands below the start of a chain.
pub live_below : (bs : List Block) (a e y : ℕ) → Chain a bs e → y < a → live bs y ≡ none
live_below [] a e y h lt = refl
live_below (b ∷ bs) a e y h lt = ground (arith, live_below bs (a + header_size + b.size) e y h.1)

pub live_above :
    (bs : List Block) (a e y k : ℕ)
    → Chain a bs e
    → live bs y ≡ some k
    → (a ≤ y) × (y + header_size + k ≤ e)
live_above [] a e y k h q = cc
live_above (b ∷ bs) a e y k h q = ground (
  arith,
  live_above bs (a + header_size + b.size) e y k h.1,
  Chain-le (a + header_size + b.size) bs e h.1,
)

-- Two used blocks never share a byte: the one behind starts after the end of the other.
pub live_disjoint :
    (bs : List Block) (a e x y n k : ℕ)
    → Chain a bs e
    → live bs x ≡ some n
    → live bs y ≡ some k
    → x < y
    → (x + header_size + n ≤ y) × (y + header_size + k ≤ e)
live_disjoint [] a e x y n k h p q lt = cc
live_disjoint (b ∷ bs) a e x y n k h p q lt = ground (
  arith,
  live_disjoint bs (a + header_size + b.size) e x y n k h.1,
  live_below bs (a + header_size + b.size) e x h.1,
  live_above bs (a + header_size + b.size) e y k h.1,
)

pub Has-ge : (b : Block) (bs : List Block) (a e : ℕ) → Chain a bs e → Has b bs → a ≤ b.addr
Has-ge b [] a e h i = absurd i
Has-ge b (c ∷ cs) a e h (inl p) = ground arith
Has-ge b (c ∷ cs) a e h (inr i) = ground (arith, Has-ge b cs (a + header_size + c.size) e h.1 i)

pub Has-le :
    (b : Block) (bs : List Block) (a e : ℕ)
    → Chain a bs e
    → Has b bs
    → b.addr + header_size + b.size ≤ e
Has-le b [] a e h i = absurd i
Has-le b (c ∷ cs) a e h (inl p) = ground (
  arith,
  Chain-le (a + header_size + c.size) cs e h.1,
  ap (λ (z : Block). z.addr) p,
  ap (λ (z : Block). z.size) p,
)
Has-le b (c ∷ cs) a e h (inr i) = Has-le b cs (a + header_size + c.size) e h.1 i

-- How many bytes the block gets that `place` takes for `size` bytes.
abbrev pub granted : ℕ → Block → ℕ
granted size b = if leb b.size (size + header_size + 16) then b.size else size

carve-live :
    (size : ℕ) (b : Block) (bs : List Block) (a e y : ℕ)
    → size + 40 < 2 ^ 64
    → b.free ≡ true
    → Chain a (b ∷ bs) e
    → live (carve size b bs) y ≡ (if b.addr == y then some (granted size b) else live (b ∷ bs) y)
unfolding carve
carve-live size b bs a e y hs f h = ground (arith, live_below bs (a + header_size + b.size) e y h.1)

-- `place` at a free block of the chain makes that one block live, and no other changes.
pub place-live :
    (size : ℕ) (b : Block) (bs : List Block) (a e y : ℕ)
    → size + 40 < 2 ^ 64
    → b.free ≡ true
    → Chain a bs e
    → Has b bs
    → live (place size b.addr bs) y ≡ (if b.addr == y then some (granted size b) else live bs y)
unfolding place
place-live size b [] a e y hs f h i = absurd i
place-live size b (c ∷ cs) a e y hs f h (inl p) = ground (
  arith,
  carve-live size c cs a e y hs (ap (λ (z : Block). z.free) p ∙ f) h,
  ap (λ (z : Block). z.addr) p,
  ap (λ (z : Block). granted size z) p,
)
place-live size b (c ∷ cs) a e y hs f h (inr i) = ground (
  arith,
  Has-ge b cs (a + header_size + c.size) e h.1 i,
  place-live size b cs (a + header_size + c.size) e y hs f h.1 i,
)

-- A block put behind the chain.
pub append-live :
    (bs : List Block) (a e n y : ℕ) → Chain a bs e → live (bs ++ (new_block e n ∷ [])) y ≡ live bs y
unfolding new_block
append-live [] a e n y h = ground arith
append-live (b ∷ bs) a e n y h = ground (arith, append-live bs (a + header_size + b.size) e n y h.1)

pub Has-append : (bs : List Block) (b : Block) → Has b (bs ++ (b ∷ []))
Has-append [] b = inl refl
Has-append (c ∷ bs) b = inr (Has-append bs b)

merge_next-live :
    (b : Block) (bs : List Block) (a e y : ℕ)
    → Chain a (b ∷ bs) e
    → live (merge_next b bs) y ≡ (if b.addr == y then none else live (b ∷ bs) y)
unfolding merge_next
merge_next-live b [] a e y h = ground arith
merge_next-live b (c ∷ bs) a e y h =
    ground (arith, live_below bs (a + header_size + b.size + header_size + c.size) e y h.1.1)

-- `release` at a live block of the chain succeeds, frees that block, and no other changes.
pub release-live :
    (x n : ℕ) (bs : List Block) (a e : ℕ)
    → Chain a bs e
    → live bs x ≡ some n
    → (bs' : List Block) × (release x bs ≡ some bs')
      × ((y : ℕ) → live bs' y ≡ (if x == y then none else live bs y))
unfolding release
release-live x n [] a e h q = cc
release-live x n (b ∷ bs) a e h q = elim (Bool-cases (b.addr == x)) [
  | inl here ↦ (merge_next b bs, ground arith, λ y. ground (arith, merge_next-live b bs a e y h))
  | inr there ↦
      let (bs', p, keeps) = release-live x n bs (a + header_size + b.size) e h.1 (ground arith) in
      (
        b ∷ bs',
        ground (arith, p),
        λ y. ground (arith, keeps y, live_above bs (a + header_size + b.size) e x n h.1),
      )
]

-- The merge with the previous block changes no live block, where the block at `x` is free.
pub coalesce_prev-live :
    (x : ℕ) (bs : List Block) (a e y : ℕ)
    → Chain a bs e
    → live bs x ≡ none
    → live (coalesce_prev x bs) y ≡ live bs y
unfolding coalesce_prev
coalesce_prev-live x [] a e y h q = refl
coalesce_prev-live x (c ∷ []) a e y h q = refl
coalesce_prev-live x (c ∷ b ∷ bs) a e y h q = ground (
  arith,
  coalesce_prev-live x (b ∷ bs) (a + header_size + c.size) e y h.1,
  live_below bs (a + header_size + c.size + header_size + b.size) e y h.1.1,
  live_below (b ∷ bs) (a + header_size + c.size) e x h.1,
)

-- The block `b` of the chain is what `live` sees at its address.
pub Has-live :
    (b : Block) (bs : List Block) (a e : ℕ)
    → Chain a bs e
    → Has b bs
    → live bs b.addr ≡ (if b.free then none else some b.size)
Has-live b [] a e h i = absurd i
Has-live b (c ∷ cs) a e h (inl p) = ground (
  arith,
  ap (λ (z : Block). z.addr) p,
  ap (λ (z : Block). z.free) p,
  ap (λ (z : Block). z.size) p,
)
Has-live b (c ∷ cs) a e h (inr i) = ground (
  arith,
  Has-ge b cs (a + header_size + c.size) e h.1 i,
  Has-live b cs (a + header_size + c.size) e h.1 i,
)

pub live_end : (bs : List Block) (a e : ℕ) → Chain a bs e → live bs e ≡ none
live_end [] a e h = refl
live_end (b ∷ bs) a e h = ground (
  arith,
  live_end bs (a + header_size + b.size) e h.1,
  Chain-le (a + header_size + b.size) bs e h.1,
)
