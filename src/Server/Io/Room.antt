-- ===== src/Server/Io/Room.antt =====
-- The numbers of the loops of server/common.c: the bytes moved, the length and the room between.
use operating_system_linux_t.Common.{ℕ, suc, ◌+◌, ◌-◌, ◌≤◌, ◌<◌, ◌≡◌, ◌⊎◌, false, ◌==◌, arith}

pub room_left : (n len sofar : ℕ) → suc n ≤ len - sofar → (sofar == len) ≡ false
room_left n len sofar h = ground arith

pub not_empty : (n : ℕ) → (suc n == 0) ≡ false
not_empty n = ground arith

pub sub_twice : (len sofar n : ℕ) → len - (sofar + n) ≡ (len - sofar) - n
sub_twice len sofar n = omega arith

pub sum_assoc : (sofar n s : ℕ) → (sofar + suc n) + s ≡ sofar + suc (n + s)
sum_assoc sofar n s = omega arith

pub in_range : (len sofar : ℕ) → sofar ≤ len → (sofar ≡ len) ⊎ (sofar < len)
in_range len sofar le = ground arith

pub no_room : (len sofar : ℕ) → sofar ≡ len → len - sofar ≡ 0
no_room len sofar h = omega (arith, h)

pub from_zero : (len : ℕ) → len - 0 ≡ len
from_zero len = omega arith

pub plus_zero : (n : ℕ) → n + 0 ≡ n
plus_zero n = omega arith

pub short : (len sofar : ℕ) → sofar < len → (sofar == len) ≡ false
short len sofar h = ground arith

pub zero_plus : (b : ℕ) → 0 + b ≡ b
zero_plus b = omega arith

pub suc_plus : (a b : ℕ) → suc a + b ≡ suc (a + b)
suc_plus a b = omega arith
