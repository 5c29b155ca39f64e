-- ===== src/Kernel/Tty/Flag.antt =====
-- The flags of `termios` (crt/sys/termios.h) that kernel/tty.c looks at.
use posnk.Base.{ℕ}

abbrev pub icrnl : ℕ
icrnl = 2

abbrev pub ignbrk : ℕ
ignbrk = 4

abbrev pub igncr : ℕ
igncr = 8

abbrev pub ignpar : ℕ
ignpar = 16

abbrev pub inlcr : ℕ
inlcr = 32

abbrev pub istrip : ℕ
istrip = 128

abbrev pub brkint : ℕ
brkint = 1

abbrev pub ixon : ℕ
ixon = 2048

abbrev pub parmrk : ℕ
parmrk = 4096

abbrev pub opost : ℕ
opost = 1

abbrev pub onlcr : ℕ
onlcr = 4

abbrev pub ocrnl : ℕ
ocrnl = 8

abbrev pub echo : ℕ
echo = 1

abbrev pub echoe : ℕ
echoe = 2

abbrev pub echok : ℕ
echok = 4

abbrev pub echonl : ℕ
echonl = 8

abbrev pub icanon : ℕ
icanon = 16

abbrev pub isig : ℕ
isig = 64
