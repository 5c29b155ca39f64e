-- ===== src/Kernel/Signal/Number.antt =====
-- The signals (crt/signal.h) that the code names.
use posnk.Base.{ℕ}

abbrev pub sigkill : ℕ
sigkill = 9

abbrev pub sigcont : ℕ
sigcont = 19

abbrev pub sigstop : ℕ
sigstop = 23

abbrev pub sigtstp : ℕ
sigtstp = 24

abbrev pub sigttin : ℕ
sigttin = 26

abbrev pub sigttou : ℕ
sigttou = 27
