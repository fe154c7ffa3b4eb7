-- ===== src/Fat/Access/Wanted.antt =====
-- `bytes_to_read` of `fat_read` in kernel/fs/fat.c from round to round.
use v.Common.{min, ℕ, ◌+◌, ◌-◌, ◌≤◌, ◌≡◌, arith}
use v.Fat.{File}
use v.Fat.Access.{bytes_wanted}

pub wanted_after :
    (f : File) (size total n : ℕ)
    → n ≤ bytes_wanted f size total
    → n + bytes_wanted (record f { position = f.position + n }) size (total + n)
      ≡ bytes_wanted f size total
unfolding bytes_wanted
wanted_after f size total n h = ground arith

pub wanted_moved :
    (f : File) (size total n cluster : ℕ)
    → n ≤ bytes_wanted f size total
    → n
        + bytes_wanted
            (record f { position = f.position + n; current_cluster = cluster })
            size
            (total + n)
      ≡ bytes_wanted f size total
unfolding bytes_wanted
wanted_moved f size total n cluster h = ground arith

pub wanted_all :
    (f : File) (size total n : ℕ)
    → n ≤ bytes_wanted f size total
    → f.size ≤ f.position + n
    → n ≡ bytes_wanted f size total
unfolding bytes_wanted
wanted_all f size total n h e = ground arith

pub wanted_min : (f : File) (size : ℕ) → bytes_wanted f size 0 ≡ min size (f.size - f.position)
unfolding bytes_wanted
wanted_min f size = ground arith
