-- ===== src/Kernel/Proc/Info.antt =====
-- The files in the module's tree in /proc: what reading them writes to the user's buffer.
pub mod Bound
use aosv_project.Base.{
  ℕ, ◌+◌, ◌-◌, ◌%◌, Bool, ◌||◌, Option, none, some, [], ◌++◌, if◌then◌else◌, ltb, ◌==◌, int_mod,
  long_mod, length,
}
use aosv_project.Hashtable.{Hashtable}
use aosv_project.Interface.{wt_running}
use aosv_project.Text.{Text, codes, print_int, print_long}
use aosv_project.Kernel.Outcome.{ok, fault, pure, ◌>>=◌}
use aosv_project.Kernel.State.{Kwt, Kst, M, folders, files, load}
use aosv_project.Kernel.Worker.{kworker_thread_copy}
use aosv_project.Kernel.Scheduler.{ksched_thread_copy}
use aosv_project.Kernel.Proc.Find.{get_scheduler, get_worker}

-- PROCFILESZ and BUFSIZE
abbrev pub procfilesz : ℕ
procfilesz = 300

abbrev pub bufsize : ℕ
bufsize = 21

-- -EINVAL and -EFAULT, as `ssize_t`
abbrev pub einval : ℕ
einval = long_mod - 22

abbrev pub efault : ℕ
efault = long_mod - 14

-- The kernel's functions that the files are read with: `kstrtoul` in base 10, which writes no number
-- on an error, and `ktime_to_timespec_cond`, whose seconds and nanoseconds are there if the time is
-- not zero.
pub record Formats : Type 0 where
  pub kstrtoul : Text → Option ℕ
  pub timespec : ℕ → Option (ℕ × ℕ)

-- What a read returns, what it copies to the user, and the new `*ppos`.
pub record Read : Type 0 where
  pub result : ℕ
  pub copied : Text
  pub ppos : ℕ

-- `sched_info_write` and `worker_write`
abbrev pub write_result : ℕ
write_result = einval

-- The three parts of `buf` in `sched_info_read`.
unfoldable pub info_head : Kst → Text
info_head k =
    codes "scheduler tid="
    ++ print_int k.tid
    ++ codes "\nnumber of times the scheduler switched to a worker thread="
    ++ print_int k.nswitches
    ++ codes "\nthe completion list="
    ++ print_int k.clc
    ++ codes "\n"

unfoldable pub info_time : Option (ℕ × ℕ) → Text
info_time none = []
info_time (some (sec, nsec)) =
    codes "the time needed for the last worker thread switch="
    ++ print_long sec
    ++ codes "s "
    ++ print_long nsec
    ++ codes "ns\n"

unfoldable pub info_state : Kst → Text
info_state k =
    if k.running == 1
    then codes "the current state=running\nworker thread running="
      ++ print_int k.wt_running
      ++ codes "\n"
    else codes "the current state=idle\n"

unfoldable pub info_text : Formats → Kst → Text
info_text fs k = info_head k ++ info_time (fs.timespec k.elapsed_wt_running) ++ info_state k

unfoldable pub running_time : Option (ℕ × ℕ) → Text
running_time none = []
running_time (some (sec, nsec)) =
    codes "total running time of the worker thread="
    ++ print_long sec
    ++ codes "s "
    ++ print_long nsec
    ++ codes "ns\n"

-- `now` is what `ktime_get` returns.
unfoldable pub worker_state : Formats → (now : ℕ) → Kwt → Text
worker_state fs now w =
    if w.state == wt_running
    then codes "current state=running\n"
      ++ running_time (
          fs.timespec
            (((now + long_mod - w.last_measured) % long_mod + w.total_measured) % long_mod))
    else running_time (fs.timespec w.total_measured) ++ codes "current state=idle\n"

unfoldable pub worker_text : Formats → (now : ℕ) → Kwt → Text
worker_text fs now w =
    codes "tid="
    ++ print_int w.tid
    ++ codes "\n"
    ++ worker_state fs now w
    ++ codes "number of switches="
    ++ print_int w.nswitches
    ++ codes "\n"

-- A name of a directory as a number: `sprintf` into a buffer of `bufsize` bytes, then `kstrtoul`.
-- On an error the number keeps its old bytes. The `int` of a callee takes the low half of it.
unfoldable pub read_id : {T : Type 0} → Formats → (old : ℕ) → Text → M T ℕ
read_id fs old name =
    if ltb (length name) bufsize
    then pure (elim (fs.kstrtoul name) [ none ↦ old % int_mod | some v ↦ v % int_mod ])
    else (λ _. fault)

-- The end of a read: `copy_to_user` fails or copies the text, and moves the position.
unfoldable pub copy_out : {T : Type 0} → (copy_fails : Bool) → (ppos : ℕ) → Text → M T Read
copy_out copy_fails ppos text =
    if ltb (length text) procfilesz
    then pure (
        if copy_fails
        then record { result = efault; copied = []; ppos = ppos }
        else record { result = length text; copied = text; ppos = length text })
    else (λ _. fault)

-- Nothing is read.
abbrev pub no_text : (ppos : ℕ) → Read
no_text ppos = record { result = 0; copied = []; ppos = ppos }

module _ ⦃ht : Hashtable⦄ where
  open ht use {Table}

  -- `d_sid` and `d_ppid` are the names of the directories above the file, `olds` the bytes of the
  -- two numbers on the stack.
  unfoldable pub sched_info_read :
      Formats → (d_sid d_ppid : Text) → (olds : ℕ × ℕ) → (count ppos : ℕ) → Bool → M Table Read
  unfolding read_id load copy_out
  sched_info_read fs d_sid d_ppid olds count ppos copy_fails =
      if ltb 0 ppos || ltb count procfilesz then pure (no_text ppos) else (do
        sched_id ← read_id fs (olds.0) d_sid
        parent_pid ← read_id fs (olds.1) d_ppid
        sched ← get_scheduler sched_id parent_pid
        elim sched [
          | none ↦ pure (no_text ppos)
          | some q ↦ (do
            f ← load folders (some q)
            kst ← ksched_thread_copy f.sched_pid
            elim kst [
              | none ↦ pure (no_text ppos)
              | some k ↦ copy_out copy_fails ppos (info_text fs k)
            ])
        ])

  unfoldable pub worker_read :
      Formats
      → (now : ℕ) → (d_wid d_sid d_ppid : Text) → (olds : ℕ × ℕ × ℕ) → (count ppos : ℕ) → Bool
      → M Table Read
  unfolding read_id load copy_out
  worker_read fs now d_wid d_sid d_ppid olds count ppos copy_fails =
      if ltb 0 ppos || ltb count procfilesz then pure (no_text ppos) else (do
        worker_id ← read_id fs (olds.0) d_wid
        sched_id ← read_id fs (olds.1) d_sid
        parent_pid ← read_id fs (olds.2) d_ppid
        w ← get_worker worker_id sched_id parent_pid
        elim w [
          | none ↦ pure (no_text ppos)
          | some q ↦ (do
            x ← load files (some q)
            kwt ← kworker_thread_copy x.wt_pid
            elim kwt [
              | none ↦ pure (no_text ppos)
              | some k ↦ copy_out copy_fails ppos (worker_text fs now k)
            ])
        ])
