-- ===== src/Fat/Access/Seek.antt =====
-- Where `fat_seek` of kernel/fs/fat.c puts the position.
use v.Common.{ℕ, suc, ◌+◌, ◌-◌, ◌^◌, ◌≤◌, ◌<◌, ◌≡◌, refl, false, arith, min}
use v.Fat.{File}
use v.Fat.Access.{seek_target, clamp, fat_seek}

-- On a file of less than 2^32 bytes whose position is in the file, fat_seek forwards by an offset that
-- does not wrap goes to the target, and to the end of the file where the target is behind it: from the
-- start (whence 0), from the position (1) and from the end (2). Any other whence is refused and leaves
-- the file as it was.
pub fat_seek_lem :
    (f : File) (offset : ℕ)
    → f.position ≤ f.size
    → f.size + offset < 2 ^ 32
    → ((fat_seek f offset 0).1.position ≡ min offset f.size)
      × ((fat_seek f offset 1).1.position ≡ min (f.position + offset) f.size)
      × ((fat_seek f offset 2).1.position ≡ f.size)
      × ((whence : ℕ) → fat_seek f offset (suc (suc (suc whence))) ≡ (false, f))
unfolding fat_seek seek_target clamp
fat_seek_lem f offset p s = (ground arith, ground (arith, p), ground arith, λ whence. refl)

-- On a file of at most 2^31 bytes, a seek backwards from the position by more than the position (the
-- 32-bit pattern of a negative offset) puts the position at the end of the file, not at its start.
pub fat_seek_before_start :
    (f : File) (back : ℕ)
    → f.size ≤ 2 ^ 31
    → f.position < back
    → back ≤ 2 ^ 31
    → (fat_seek f (2 ^ 32 - back) 1).1.position ≡ f.size
unfolding fat_seek seek_target clamp
fat_seek_before_start f back s p b = ground arith
