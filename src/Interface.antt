-- ===== src/Interface.antt =====
-- src/lkm/ums_interface.h and the states of kworker_thread.h.
use aosv_project.Base.{ℕ, ◌^◌}

-- WT_HTABLE_BITS
abbrev pub wt_htable_bits : ℕ
wt_htable_bits = 3

-- MAX_WT
abbrev pub max_wt : ℕ
max_wt = 2 ^ wt_htable_bits

-- WT_IDLE, WT_RUNNING, WT_EXITING
abbrev pub wt_idle : ℕ
wt_idle = 0

abbrev pub wt_running : ℕ
wt_running = 1

abbrev pub wt_exiting : ℕ
wt_exiting = 2
