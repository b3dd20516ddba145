-- ===== src/Instructions/Op.antt =====
-- The operation codes of src/vm_instructions.h.
use unlambda.Base.{ℕ}

abbrev pub panic : ℕ
panic = 0

abbrev pub push : ℕ
push = 1

abbrev pub pop : ℕ
pop = 2

abbrev pub swap : ℕ
swap = 3

abbrev pub dup : ℕ
dup = 4

abbrev pub pcall : ℕ
pcall = 5

abbrev pub ret : ℕ
ret = 6

abbrev pub mkk : ℕ
mkk = 7

abbrev pub mks0 : ℕ
mks0 = 8

abbrev pub mks1 : ℕ
mks1 = 9

abbrev pub mks2 : ℕ
mks2 = 10

abbrev pub mkd : ℕ
mkd = 11

abbrev pub mkc : ℕ
mkc = 12

abbrev pub save : ℕ
save = 13

abbrev pub restore : ℕ
restore = 14

abbrev pub print : ℕ
print = 15

abbrev pub halt : ℕ
halt = 16
