-- ===== src/Keyboard/Ring.antt =====
-- The keyboard ring of kernel/drivers/keyboard.c against a queue of at most 255 characters.
use v.Common.{
  ℕ, zero, suc, ◌+◌, ◌-◌, ◌%◌, ◌<◌, ◌≡◌, ◌≢◌, refl, ap, ap₂, List, [], ◌∷◌, ◌++◌, Bool-cases, inl,
  inr, sym, true, false, ltb, ◌==◌, if◌then◌else◌, update, u32, length, arith,
}
use v.Keyboard.{
  Keyboard, keyboard_has_input, keyboard_getchar, add_to_buffer, decode, keyboard_handler,
  keyboard_buffer_size, Event, key, turn, main_turn, echoed,
}

-- Both indices lie inside the storage.
pub record IsValid (k : Keyboard) : Type 0 where
  pub head_in : k.buffer_head < keyboard_buffer_size
  pub tail_in : k.buffer_tail < keyboard_buffer_size

-- The `n` characters from index `i` on, going round the storage.
abbrev pub span : (ℕ → ℕ) → ℕ → ℕ → List ℕ
span f i zero = []
span f i (suc n) = f i ∷ span f ((i + 1) % 256) n

abbrev pub pending : Keyboard → ℕ
pending k = (k.buffer_head + 256 - k.buffer_tail) % 256

-- The characters that wait, oldest first.
abbrev pub contents : Keyboard → List ℕ
contents k = span k.keyboard_buffer k.buffer_tail (pending k)

length-span : (f : ℕ → ℕ) (i n : ℕ) → length (span f i n) ≡ n
length-span f i zero = refl
length-span f i (suc n) = ap suc (length-span f ((i + 1) % 256) n)

-- A write just behind a span extends it.
span-update :
    (f : ℕ → ℕ) (c n i h : ℕ)
    → i < 256
    → n < 256
    → h ≡ (i + n) % 256
    → span (update f h c) i (suc n) ≡ span f i n ++ (c ∷ [])
span-update f c zero i h hi hn e = ground arith
span-update f c (suc n) i h hi hn e =
    ap₂ ◌∷◌ (ground arith)
      (span-update f c n ((i + 1) % 256) h (omega arith) (omega arith) (omega arith))

span-grow :
    (f : ℕ → ℕ) (c n i h m : ℕ)
    → i < 256
    → n < 256
    → h ≡ (i + n) % 256
    → m ≡ suc n
    → span (update f h c) i m ≡ span f i n ++ (c ∷ [])
span-grow f c n i h m hi hn e e' = rw e' (span-update f c n i h hi hn e)

span-uncons : (f : ℕ → ℕ) (i n : ℕ) → n ≢ 0 → span f i n ≡ f i ∷ span f ((i + 1) % 256) (n - 1)
span-uncons f i zero h = absurd (h refl)
span-uncons f i (suc n) h = ap (λ k. span f i (suc k)) (omega arith)

-- The abstract queue: at most 255 characters, a further one is dropped.
pub enqueue : List ℕ → ℕ → List ℕ
enqueue q c = if ltb (length q) 255 then q ++ (c ∷ []) else q

-- What the handler does to the queue: nothing for a scancode with no character.
pub press : List ℕ → ℕ → List ℕ
press q scancode = let c = decode scancode in if c == 0 then q else enqueue q c

-- 0 from an empty queue.
pub dequeue : List ℕ → ℕ × List ℕ
dequeue [] = (0, [])
dequeue (c ∷ q) = (c, q)

-- Some character waits exactly when `keyboard_has_input` says so.
pub has_input-pending :
    {k : Keyboard} → IsValid k → keyboard_has_input k ≡ (if pending k == 0 then false else true)
unfolding keyboard_has_input
has_input-pending v = ground arith

pub keyboard_handler-IsValid : {k : Keyboard} (s : ℕ) → IsValid k → IsValid (keyboard_handler k s)
unfolding keyboard_handler add_to_buffer
keyboard_handler-IsValid s v = ground arith

pub keyboard_getchar-IsValid : {k : Keyboard} → IsValid k → IsValid (keyboard_getchar k).1
unfolding keyboard_getchar
keyboard_getchar-IsValid v = ground arith

add_to_buffer_full :
    (k : Keyboard) (c : ℕ)
    → (u32 (k.buffer_head + 1) % 256 == k.buffer_tail) ≡ true
    → add_to_buffer k c ≡ k
unfolding add_to_buffer
add_to_buffer_full k c e = rw e

add_to_buffer_room :
    (k : Keyboard) (c : ℕ)
    → (u32 (k.buffer_head + 1) % 256 == k.buffer_tail) ≡ false
    → add_to_buffer k c ≡ record k {
      keyboard_buffer = update k.keyboard_buffer k.buffer_head c;
      buffer_head = u32 (k.buffer_head + 1) % 256;
    }
unfolding add_to_buffer
add_to_buffer_room k c e = rw e

enqueue_full : (q : List ℕ) (c : ℕ) → length q ≡ 255 → enqueue q c ≡ q
unfolding enqueue
enqueue_full q c e = ground arith

enqueue_room : (q : List ℕ) (c : ℕ) → length q < 255 → enqueue q c ≡ q ++ (c ∷ [])
unfolding enqueue
enqueue_room q c h = ground arith

length-contents : (k : Keyboard) → length (contents k) ≡ pending k
length-contents k = length-span k.keyboard_buffer k.buffer_tail (pending k)

add_to_buffer-enqueue :
    {k : Keyboard} (c : ℕ) → IsValid k → contents (add_to_buffer k c) ≡ enqueue (contents k) c
add_to_buffer-enqueue {k} c v = elim (Bool-cases (u32 (k.buffer_head + 1) % 256 == k.buffer_tail)) [
  | inl full ↦
      rw (add_to_buffer_full k c full)
        (sym (enqueue_full (contents k) c (ground (arith, length-contents k))))
  | inr room ↦
      rw
        (
          add_to_buffer_room k c room,
          enqueue_room (contents k) c (ground (arith, length-contents k)),
        )
        (span-grow k.keyboard_buffer c (pending k) k.buffer_tail k.buffer_head _ (omega arith)
          (omega arith) (omega arith) (ground arith))
]

pub keyboard_handler_refines :
    {k : Keyboard} (s : ℕ) → IsValid k → contents (keyboard_handler k s) ≡ press (contents k) s
unfolding keyboard_handler press
keyboard_handler_refines {k} s v = ground (arith, add_to_buffer-enqueue (decode s) v)

pub keyboard_getchar_refines :
    {k : Keyboard}
    → IsValid k
    → let (c, k') = keyboard_getchar k in (c, contents k') ≡ dequeue (contents k)
unfolding keyboard_getchar dequeue
keyboard_getchar_refines {k} v =
    ground (arith, span-uncons k.keyboard_buffer k.buffer_tail (pending k))

-- One turn of the main loop on the queue: the oldest character, if there is one.
pub turn_of : List ℕ → List ℕ × List ℕ
turn_of [] = ([], [])
turn_of (c ∷ q) = (c ∷ [], q)

-- What a queue of at most 255 characters echoes.
pub echoed_from : List ℕ → List Event → List ℕ
echoed_from q [] = []
echoed_from q (key s ∷ es) = echoed_from (press q s) es
echoed_from q (turn ∷ es) = let (cs, q') = turn_of q in cs ++ echoed_from q' es

main_turn_refines :
    {k : Keyboard}
    → IsValid k
    → let (cs, k') = main_turn k in (cs, contents k') ≡ turn_of (contents k)
unfolding main_turn turn_of keyboard_getchar keyboard_has_input
main_turn_refines {k} v = ground (arith, span-uncons k.keyboard_buffer k.buffer_tail (pending k))

pub main_turn-IsValid : {k : Keyboard} → IsValid k → IsValid (main_turn k).1
unfolding main_turn keyboard_getchar keyboard_has_input
main_turn-IsValid v = ground arith

-- From indices inside the storage, the characters that the main loop echoes over any history of
-- key interrupts and turns are those of a queue of at most 255 characters that drops what comes
-- while it is full: none is lost otherwise, made up or put out of order.
pub echoed_refines :
    (es : List Event) {k : Keyboard} → IsValid k → echoed k es ≡ echoed_from (contents k) es
unfolding echoed echoed_from
echoed_refines [] v = refl
echoed_refines (key s ∷ es) {k} v =
    rw (echoed_refines es (keyboard_handler-IsValid s v), keyboard_handler_refines s v)
echoed_refines (turn ∷ es) {k} v =
    rw (echoed_refines es (main_turn-IsValid v), ← main_turn_refines v)
