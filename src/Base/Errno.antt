-- ===== src/Base/Errno.antt =====
-- The negative error numbers that the functions return.
use Prim.Native.Nat.{zero, suc}
use mathlib.Core.Bool.{Bool, true, false}
use nodem_nrf.Base.Int.{ℤ, pos, negsuc}

abbrev pub ok : ℤ
ok = pos 0

abbrev pub enoent : ℤ
enoent = negsuc 1

abbrev pub eio : ℤ
eio = negsuc 4

abbrev pub eagain : ℤ
eagain = negsuc 10

abbrev pub enomem : ℤ
enomem = negsuc 11

abbrev pub eacces : ℤ
eacces = negsuc 12

abbrev pub enodev : ℤ
enodev = negsuc 18

abbrev pub einval : ℤ
einval = negsuc 21

abbrev pub enospc : ℤ
enospc = negsuc 27

abbrev pub enosys : ℤ
enosys = negsuc 87

abbrev pub enotconn : ℤ
enotconn = negsuc 127

-- `!err`
abbrev pub is_ok : ℤ → Bool
is_ok (pos zero) = true
is_ok (pos (suc n)) = false
is_ok (negsuc n) = false
