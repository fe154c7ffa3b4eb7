-- ===== src/Heap/Chain.antt =====
-- Chains of heap blocks of kernel/memory.c that lie end to end, and the changes of the chain.
use v.Common.{
  ℕ, ◌+◌, ◌^◌, ◌≤◌, ◌<◌, ◌≡◌, List, [], ◌∷◌, ◌++◌, some, arith, subst, u64, ◌-◌, Option-cases, inl,
  inr,
}
use v.Heap.{Block, carve, place, new_block, header_size, merge_next, release, coalesce_prev}

-- The blocks `bs` fill the addresses from `a` up to `e`, each behind the one before it.
abbrev pub Chain : ℕ → List Block → ℕ → Type 0
Chain a [] e = a ≡ e
Chain a (b ∷ bs) e = (b.addr ≡ a) × Chain (a + header_size + b.size) bs e

pub Chain-le : (a : ℕ) (bs : List Block) (e : ℕ) → Chain a bs e → a ≤ e
Chain-le a [] e h = omega arith
Chain-le a (b ∷ bs) e h = omega (arith, Chain-le (a + header_size + b.size) bs e h.1)

pub Chain-cast : (a a' : ℕ) (bs : List Block) (e : ℕ) → a ≡ a' → Chain a bs e → Chain a' bs e
Chain-cast a a' bs e p h = subst (λ x. Chain x bs e) p h

pub carve-Chain :
    (size : ℕ) (b : Block) (bs : List Block) (a e : ℕ)
    → e < 2 ^ 64
    → size + 40 < 2 ^ 64
    → Chain a (b ∷ bs) e
    → Chain a (carve size b bs) e
unfolding carve
carve-Chain size b bs a e he hs h = ground (
  arith,
  Chain-le (a + header_size + b.size) bs e h.1,
  Chain-cast (a + header_size + b.size)
      (a + header_size + size + header_size + u64 (b.size + 2 ^ 64 - size - header_size)) bs e,
)

pub place-Chain :
    (size x : ℕ) (bs : List Block) (a e : ℕ)
    → e < 2 ^ 64
    → size + 40 < 2 ^ 64
    → Chain a bs e
    → Chain a (place size x bs) e
unfolding place
place-Chain size x [] a e he hs h = h
place-Chain size x (b ∷ bs) a e he hs h = ground (
  arith,
  carve-Chain size b bs a e he hs h,
  place-Chain size x bs (a + header_size + b.size) e he hs h.1,
)

pub append-Chain :
    (a : ℕ) (bs : List Block) (e n f : ℕ)
    → Chain a bs e
    → f ≡ e + header_size + (new_block e n).size
    → Chain a (bs ++ (new_block e n ∷ [])) f
unfolding new_block
append-Chain a [] e n f h p = ground arith
append-Chain a (b ∷ bs) e n f h p = (h.0, append-Chain (a + header_size + b.size) bs e n f h.1 p)

merge_next-Chain :
    (b : Block) (bs : List Block) (a e : ℕ)
    → e < 2 ^ 64
    → Chain a (b ∷ bs) e
    → Chain a (merge_next b bs) e
unfolding merge_next
merge_next-Chain b [] a e he h = h
merge_next-Chain b (c ∷ bs) a e he h = ground (
  arith,
  Chain-le (a + header_size + b.size + header_size + c.size) bs e h.1.1,
  Chain-cast (a + header_size + b.size + header_size + c.size)
      (a + header_size + u64 (b.size + (header_size + c.size))) bs e,
)

pub release-Chain :
    (x : ℕ) (bs : List Block) {bs' : List Block} (a e : ℕ)
    → e < 2 ^ 64
    → Chain a bs e
    → release x bs ≡ some bs'
    → Chain a bs' e
unfolding release
release-Chain x [] a e he h r = ground arith
release-Chain x (b ∷ bs) a e he h r = elim (Option-cases (release x bs)) [
  | inl missing ↦ ground (arith, merge_next-Chain b bs a e he h)
  | inr (s, q) ↦ ground (
    arith,
    merge_next-Chain b bs a e he h,
    release-Chain x bs {bs' = s} (a + header_size + b.size) e he h.1 q,
  )
]

pub coalesce_prev-Chain :
    (x : ℕ) (bs : List Block) (a e : ℕ) → e < 2 ^ 64 → Chain a bs e → Chain a (coalesce_prev x bs) e
unfolding coalesce_prev
coalesce_prev-Chain x [] a e he h = h
coalesce_prev-Chain x (c ∷ []) a e he h = h
coalesce_prev-Chain x (c ∷ b ∷ bs) a e he h = ground (
  arith,
  coalesce_prev-Chain x (b ∷ bs) (a + header_size + c.size) e he h.1,
  Chain-le (a + header_size + c.size + header_size + b.size) bs e h.1.1,
  Chain-cast (a + header_size + c.size + header_size + b.size)
      (a + header_size + u64 (c.size + (header_size + b.size))) bs e,
)
