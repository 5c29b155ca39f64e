-- ===== src/Kernel/Tty/Cc.antt =====
-- The places of `c_cc` (crt/sys/termios.h).
use posnk.Base.{ℕ}

abbrev pub veof : ℕ
veof = 0

abbrev pub veol : ℕ
veol = 1

abbrev pub verase : ℕ
verase = 2

abbrev pub vintr : ℕ
vintr = 3

abbrev pub vkill : ℕ
vkill = 4

abbrev pub vquit : ℕ
vquit = 6

abbrev pub vsusp : ℕ
vsusp = 9
