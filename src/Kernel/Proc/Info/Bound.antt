-- ===== src/Kernel/Proc/Info/Bound.antt =====
-- What the files in /proc show fits into the buffers that src/lkm/ums_proc.c gives it.
use aosv_project.Base.{
  ℕ, ◌+◌, ◌-◌, ◌%◌, long_mod, ◌≤◌, Option, none, some, arith, ◌==◌, length, Bool-cases, inl, inr,
}
use aosv_project.Interface.{wt_running}
use aosv_project.Text.Digits.{length-append, length-print_int-le, length-print_long-le}
use aosv_project.Kernel.State.{Kwt, Kst}
use aosv_project.Kernel.Proc.Info.{
  Formats, procfilesz, info_head, info_time, info_state, info_text, running_time, worker_state,
  worker_text,
}

length-info_head-le : (k : Kst) → length (info_head k) ≤ 128
unfolding info_head
length-info_head-le k = simp length-append (
    omega (
      arith,
      length-print_int-le k.tid,
      length-print_int-le k.nswitches,
      length-print_int-le k.clc,
    ))

length-info_time-le : (ts : Option (ℕ × ℕ)) → length (info_time ts) ≤ 95
unfolding info_time
length-info_time-le none = omega arith
length-info_time-le (some (sec, nsec)) =
    simp length-append (omega (arith, length-print_long-le sec, length-print_long-le nsec))

length-info_state-le : (k : Kst) → length (info_state k) ≤ 60
unfolding info_state
length-info_state-le k = elim (Bool-cases (k.running == 1)) [
  | inl busy ↦ rw busy (simp length-append (omega (arith, length-print_int-le k.wt_running)))
  | inr idle ↦ rw idle (omega arith)
]

-- The text of a scheduler, with the byte that ends it, fits into the 300 bytes of the buffer,
-- whatever the scheduler's fields hold and however the time is split.
pub info_text-fits : (fs : Formats) (k : Kst) → length (info_text fs k) + 1 ≤ procfilesz
unfolding info_text
info_text-fits fs k = simp length-append (
    omega (
      arith,
      length-info_head-le k,
      length-info_time-le (fs.timespec k.elapsed_wt_running),
      length-info_state-le k,
    ))

length-running_time-le : (ts : Option (ℕ × ℕ)) → length (running_time ts) ≤ 85
unfolding running_time
length-running_time-le none = omega arith
length-running_time-le (some (sec, nsec)) =
    simp length-append (omega (arith, length-print_long-le sec, length-print_long-le nsec))

length-worker_state-le : (fs : Formats) (now : ℕ) (w : Kwt) → length (worker_state fs now w) ≤ 107
unfolding worker_state
length-worker_state-le fs now w =
    let run =
      fs.timespec (((now + long_mod - w.last_measured) % long_mod + w.total_measured) % long_mod) in
    elim (Bool-cases (w.state == wt_running)) [
      | inl busy ↦ rw busy (simp length-append (omega (arith, length-running_time-le run)))
      | inr idle ↦ rw idle (
          simp length-append (omega (arith, length-running_time-le (fs.timespec w.total_measured))))
    ]

-- The text of a worker, with the byte that ends it, fits into the 300 bytes of the buffer, whatever
-- the worker's fields hold and however the time is split.
pub worker_text-fits :
    (fs : Formats) (now : ℕ) (w : Kwt) → length (worker_text fs now w) + 1 ≤ procfilesz
unfolding worker_text
worker_text-fits fs now w = simp length-append (
    omega (
      arith,
      length-print_int-le w.tid,
      length-worker_state-le fs now w,
      length-print_int-le w.nswitches,
    ))
