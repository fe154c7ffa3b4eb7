-- ===== src/Heap/Settled.antt =====
-- No two neighbours of the chain are both free: what `kfree` establishes and `kmalloc` keeps.
use v.Common.{
  ℕ, ◌+◌, ◌<◌, ◌≡◌, refl, ap, ◌∙◌, inl, inr, List, [], ◌∷◌, ◌++◌, some, arith, Bool, true, false,
  ◌&&◌, ◌==◌, Bool-cases, Option-cases, ==→eq, subst, u64, sym,
}
use v.Heap.{Block, carve, place, header_size, merge_next, release, coalesce_prev}
use v.Heap.Chain.{Chain, Chain-le}
use v.Heap.Find.{Has}
use v.Heap.Live.{Has-ge}

abbrev pub head_free : List Block → Bool
head_free [] = false
head_free (b ∷ bs) = b.free

-- No two neighbours are both free.
abbrev pub Settled : List Block → Type 0
Settled [] = Unit
Settled (b ∷ bs) = ((b.free && head_free bs) ≡ false) × Settled bs

abbrev head_at : ℕ → List Block → Bool
head_at x [] = false
head_at x (b ∷ bs) = b.addr == x

carve-Settled :
    (size : ℕ) (b : Block) (bs : List Block)
    → b.free ≡ true
    → Settled (b ∷ bs)
    → Settled (carve size b bs)
unfolding carve
carve-Settled size b bs f s = ground arith

head_free-place :
    (size x : ℕ) (bs : List Block) → head_free bs ≡ false → head_free (place size x bs) ≡ false
unfolding place carve
head_free-place size x [] s = s
head_free-place size x (b ∷ bs) s = ground arith

-- Taking a free block of the chain leaves no two free neighbours.
pub place-Settled :
    (size : ℕ) (b : Block) (bs : List Block) (a e : ℕ)
    → b.free ≡ true
    → Chain a bs e
    → Has b bs
    → Settled bs
    → Settled (place size b.addr bs)
unfolding place
place-Settled size b [] a e f h i s = tt
place-Settled size b (c ∷ cs) a e f h (inl p) s = ground (
  arith,
  carve-Settled size c cs (ap (λ (z : Block). z.free) p ∙ f) s,
  ap (λ (z : Block). z.addr) p,
)
place-Settled size b (c ∷ cs) a e f h (inr i) s = ground (
  arith,
  Has-ge b cs (a + header_size + c.size) e h.1 i,
  head_free-place size b.addr cs,
  place-Settled size b cs (a + header_size + c.size) e f h.1 i s.1,
)

-- A block behind the chain, taken at once.
pub place-append :
    (size : ℕ) (b : Block) (bs : List Block) (a : ℕ)
    → Chain a bs b.addr
    → place size b.addr (bs ++ (b ∷ [])) ≡ bs ++ carve size b []
unfolding place
place-append size b [] a h = ground arith
place-append size b (c ∷ cs) a h = ground (
  arith,
  Chain-le (a + header_size + c.size) cs b.addr h.1,
  place-append size b cs (a + header_size + c.size) h.1,
)

pub append-carve-Settled :
    (size : ℕ) (b : Block) (bs : List Block) → Settled bs → Settled (bs ++ carve size b [])
unfolding carve
append-carve-Settled size b [] s = ground arith
append-carve-Settled size b (c ∷ []) s = ground arith
append-carve-Settled size b (c ∷ d ∷ cs) s = (s.0, append-carve-Settled size b (d ∷ cs) s.1)

merge_next-Settled : (b : Block) (bs : List Block) → Settled (b ∷ bs) → Settled (merge_next b bs)
unfolding merge_next
merge_next-Settled b [] s = (refl, tt)
merge_next-Settled b (c ∷ bs) s = ground arith

head_free-merge_next : (b : Block) (bs : List Block) → head_free (merge_next b bs) ≡ true
unfolding merge_next
head_free-merge_next b [] = refl
head_free-merge_next b (c ∷ bs) = ground arith

head_at-merge_next :
    (x : ℕ) (b : Block) (bs : List Block) → head_at x (merge_next b bs) ≡ (b.addr == x)
unfolding merge_next
head_at-merge_next x b [] = refl
head_at-merge_next x b (c ∷ bs) = ground arith

head_free-coalesce_prev :
    (x : ℕ) (b : Block) (bs : List Block) → head_free (coalesce_prev x (b ∷ bs)) ≡ b.free
unfolding coalesce_prev
head_free-coalesce_prev x b [] = refl
head_free-coalesce_prev x b (c ∷ bs) = ground arith

-- A block below the rest of the chain has no previous block in it.
pub coalesce_prev_absent :
    (x : ℕ) (b : Block) (bs : List Block) (a e : ℕ)
    → Chain a bs e
    → x < a
    → coalesce_prev x (b ∷ bs) ≡ b ∷ bs
unfolding coalesce_prev
coalesce_prev_absent x b [] a e h lt = refl
coalesce_prev_absent x b (c ∷ cs) a e h lt =
    ground (arith, coalesce_prev_absent x c cs (a + header_size + c.size) e h.1)

-- The block that is freed first in the chain has no previous block.
merge_next_alone :
    (x : ℕ) (b : Block) (bs : List Block) (a e : ℕ)
    → Chain a (b ∷ bs) e
    → b.addr ≡ x
    → coalesce_prev x (merge_next b bs) ≡ merge_next b bs
unfolding merge_next
merge_next_alone x b [] a e h p =
    coalesce_prev_absent x (record b { free = true }) [] (a + header_size + b.size) e h.1
      (ground arith)
merge_next_alone x b (c ∷ bs) a e h p = ground (
  arith,
  coalesce_prev_absent x (record b { free = true }) (c ∷ bs) (a + header_size + b.size) e h.1,
  coalesce_prev_absent x (record b { size = u64 (b.size + (header_size + c.size)); free = true }) bs
      (a + header_size + b.size + header_size + c.size) e h.1.1,
)

-- The block at `x` heads the rest, and is free.
coalesce_here :
    (x : ℕ) (b : Block) (r : List Block)
    → head_at x r ≡ true
    → head_free r ≡ true
    → Settled r
    → Settled (coalesce_prev x (b ∷ r))
unfolding coalesce_prev
coalesce_here x b [] i f s = (ground arith, tt)
coalesce_here x b (c ∷ []) i f s = ground arith
coalesce_here x b (c ∷ d ∷ r) i f s = ground arith

release_here :
    (x : ℕ) (b : Block) (bs : List Block) {bs' : List Block}
    → (b.addr == x) ≡ true
    → release x (b ∷ bs) ≡ some bs'
    → merge_next b bs ≡ bs'
unfolding release
release_here x b bs t q = ground arith

release_there :
    (x : ℕ) (b : Block) (bs : List Block) {bs' : List Block}
    → (b.addr == x) ≡ false
    → release x (b ∷ bs) ≡ some bs'
    → (r : List Block) × (release x bs ≡ some r) × (b ∷ r ≡ bs')
unfolding release
release_there x b bs t q = elim (Option-cases (release x bs)) [
  | inl missing ↦ ground arith
  | inr (r, found) ↦ (r, found, ground arith)
]

release_nil : (x : ℕ) {bs' : List Block} → release x [] ≡ some bs' → ⊥
unfolding release
release_nil x q = cc

-- After `release` further on, the rest still starts with the same block, unless that is the one.
release_head :
    (x : ℕ) (c : Block) (bs : List Block) (r : List Block)
    → (c.addr == x) ≡ false
    → release x (c ∷ bs) ≡ some r
    → (t : List Block) × (r ≡ c ∷ t)
release_head x c bs r t q = let (s, found, e) = release_there x c bs t q in (s, sym e)

pub coalesce_prev_skip :
    (x : ℕ) (b c : Block) (t : List Block)
    → (c.addr == x) ≡ false
    → coalesce_prev x (b ∷ c ∷ t) ≡ b ∷ coalesce_prev x (c ∷ t)
unfolding coalesce_prev
coalesce_prev_skip x b c t i = rw i

coalesce_there :
    (x : ℕ) (b c : Block) (t : List Block)
    → (c.addr == x) ≡ false
    → (b.free && c.free) ≡ false
    → Settled (coalesce_prev x (c ∷ t))
    → Settled (coalesce_prev x (b ∷ c ∷ t))
coalesce_there x b c t i f s =
    subst Settled (sym (coalesce_prev_skip x b c t i)) (rw (head_free-coalesce_prev x c t) f, s)

-- A release behind `b`, merged with what stands before it.
behind :
    (x : ℕ) (b : Block) (bs r : List Block)
    → Settled (b ∷ bs)
    → release x bs ≡ some r
    → Settled (coalesce_prev x r)
    → Settled (coalesce_prev x (b ∷ r))
behind x b [] r s q k = absurd (release_nil x q)
behind x b (c ∷ bs) r s q k = elim (Bool-cases (c.addr == x)) [
  | inl here ↦
      subst (λ r. Settled (coalesce_prev x (b ∷ r))) (release_here x c bs here q)
        (coalesce_here x b (merge_next c bs) (head_at-merge_next x c bs ∙ here)
          (head_free-merge_next c bs) (merge_next-Settled c bs s.1))
  | inr there ↦
      let (t, e) = release_head x c bs r there q in
      subst (λ r. Settled (coalesce_prev x (b ∷ r))) (sym e)
        (coalesce_there x b c t there s.0 (subst (λ r. Settled (coalesce_prev x r)) e k))
]

-- `kfree` on a chain with no two free neighbours leaves none: it merges the block that it frees with
-- both neighbours, where they are free.
pub release-Settled :
    (x : ℕ) (bs : List Block) {bs' : List Block} (a e : ℕ)
    → Chain a bs e
    → Settled bs
    → release x bs ≡ some bs'
    → Settled (coalesce_prev x bs')
release-Settled x [] a e h s q = absurd (release_nil x q)
release-Settled x (b ∷ bs) {bs'} a e h s q = elim (Bool-cases (b.addr == x)) [
  | inl here ↦
      subst (λ r. Settled (coalesce_prev x r)) (release_here x b bs here q)
        (rw (merge_next_alone x b bs a e h (==→eq b.addr x here)) (merge_next-Settled b bs s))
  | inr there ↦
      let (r, found, e') = release_there x b bs there q in
      subst (λ r. Settled (coalesce_prev x r)) e'
        (behind x b bs r s found (release-Settled x bs (a + header_size + b.size) e h.1 s.1 found))
]
