-- ===== src/Kstring/Tests.antt =====
-- Runs of kernel/string.c, and the theorems at concrete strings.
use zerocopy_ringbuf.Common.{◌+◌, ◌-◌, ◌≡◌, refl, some, success, negsuc, pos, ◌==◌, if◌then◌else◌}
use zerocopy_ringbuf.Kstring.{
  Chars, Mem, memset, memmove, strncmp, strncpy, strlen, safestrcpy, memcmp,
}
use zerocopy_ringbuf.Kstring.Memory.{within, memmove-at}

-- "ab" and "ac", with other bytes behind the end.
abbrev ab : Chars
ab i = if i == 0 then b'a' else if i == 1 then b'b' else if i == 2 then 0 else 7

abbrev ac : Chars
ac i = if i == 0 then b'a' else if i == 1 then b'c' else 0

compares :
    (strncmp ab ac 1 ≡ success)
    × (strncmp ab ac 16 ≡ negsuc 0)
    × (memcmp ac ab 2 ≡ pos 1)
    × (strlen 16 ab ≡ some 2)
unfolding strncmp memcmp strlen
compares = (refl, refl, refl, refl)

-- The copy pads with 0, and the safe one ends what it cuts off.
copies : (strncpy ac ab 4 3 ≡ 0) × (strncpy ab ac 2 3 ≡ 7) × (safestrcpy ac ab 2 1 ≡ 0)
unfolding strncpy safestrcpy
copies = (refl, refl, refl)

-- The byte at an address is the address.
abbrev ramp : Mem
ramp a = a

moves :
    (memmove ramp 12 10 5 16 ≡ 14) × (memmove ramp 8 10 5 12 ≡ 14) × (memset ramp 10 0x105 4 13 ≡ 5)
unfolding memmove memset
moves = (refl, refl, refl)

memmove-at_example :
    memmove ramp 12 10 5 16 ≡ (if within 12 5 16 then ramp (10 + (16 - 12)) else ramp 16)
memmove-at_example = memmove-at ramp 12 10 5 16
