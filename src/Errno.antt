-- ===== src/Errno.antt =====
-- The numbers of Python's `errno` module on Linux that the sources name.
use pyuring.Prelude.{ℕ}

abbrev pub eperm : ℕ
eperm = 1

abbrev pub enoent : ℕ
enoent = 2

abbrev pub eio : ℕ
eio = 5

abbrev pub eagain : ℕ
eagain = 11

abbrev pub enomem : ℕ
enomem = 12

abbrev pub eacces : ℕ
eacces = 13

abbrev pub enodev : ℕ
enodev = 19

abbrev pub einval : ℕ
einval = 22

abbrev pub enosys : ℕ
enosys = 38

abbrev pub etime : ℕ
etime = 62

abbrev pub eopnotsupp : ℕ
eopnotsupp = 95
