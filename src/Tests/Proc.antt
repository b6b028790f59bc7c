-- ===== src/Tests/Proc.antt =====
-- The tree in /proc.
use aosv_project.Base.{
  Option, true, false, ◌&&◌, ◌^◌, ltb, arith, ℕ, ◌+◌, ◌≤◌, ◌≡◌, refl, some, none, if◌then◌else◌,
  length, ◌⊎◌,
}
use aosv_project.Hashtable.Chained.{chained}
use aosv_project.Text.{Text, print_int}
use aosv_project.Text.Digits.{value, all_digits}
use aosv_project.Kernel.Entries.{Folder, File}
use aosv_project.Kernel.Outcome.{ok, fault}
use aosv_project.Kernel.State.{Alloc}
use aosv_project.Kernel.Valid.{Ends, worker, scheduler}
use aosv_project.Kernel.Proc.{create_scheduler_folder, create_workers_file}
use aosv_project.Kernel.Proc.Find.{get_scheduler, get_worker}
use aosv_project.Kernel.Proc.Collide.{Opened, get_scheduler-bucket, create_scheduler_folder-opens}
use aosv_project.Kernel.Proc.Files.{Filed, create_workers_file-opens}
use aosv_project.Kernel.Proc.Info.{
  Formats, procfilesz, info_text, worker_text, read_id, sched_info_read, worker_read,
}
use aosv_project.Kernel.Proc.Read.{
  ReadsDigits, shown, read_id-print_int, worker_read-shows, create_scheduler_folder-shows,
}
use aosv_project.Kernel.Proc.Info.Bound.{info_text-fits}
use aosv_project.Tests.World.{
  Table, world, world-IsValid, process, own_folder, own_file, own_scheduler,
}

-- 8 is no scheduler of the process, and the lookup finds the directory of 0.
get_scheduler-bucket_example : get_scheduler 8 42 world ≡ get_scheduler 0 42 world
get_scheduler-bucket_example = get_scheduler-bucket 8 0 42 world refl

abbrev new_folder : Alloc (Folder Table)
new_folder = record { at = some 511; bytes = own_folder }

abbrev new_file : Alloc File
new_file = record { at = some 521; bytes = own_file }

create_scheduler_folder-opens_example :
    Ends (Opened world 511 500 9 42 process) (create_scheduler_folder new_folder 9 42 world)
create_scheduler_folder-opens_example =
    create_scheduler_folder-opens world new_folder 511 500 9 42 process refl refl refl

create_workers_file-opens_example :
    (own_folder.unlocked ≡ false) × (create_workers_file new_file 15 0 42 world ≡ fault)
    ⊎ (own_folder.unlocked ≡ true)
      × Ends (Filed world 521 510 15 0 42 own_folder) (create_workers_file new_file 15 0 42 world)
create_workers_file-opens_example =
    create_workers_file-opens world new_file 521 500 510 15 0 42 process own_folder refl refl refl
      refl refl

-- No text is a number and no time has seconds.
abbrev no_formats : Formats
no_formats = record { kstrtoul = λ name. none; timespec = λ time. none }

info_text-fits_example : length (info_text no_formats own_scheduler) + 1 ≤ procfilesz
info_text-fits_example = info_text-fits no_formats own_scheduler

-- `kstrtoul` as the kernel documents it for texts of digits; no time is split.
abbrev parse : Text → Option ℕ
parse ds =
    if all_digits ds && ltb 0 (length ds) && ltb (value 0 ds) (2 ^ 64)
    then some (value 0 ds)
    else none

abbrev formats : Formats
formats = record { kstrtoul = parse; timespec = λ time. none }

formats_read : ReadsDigits formats
formats_read ds digits_only full small =
    let e : (all_digits ds && ltb 0 (length ds) && ltb (value 0 ds) (2 ^ 64)) ≡ true =
      ground arith in
    rw e refl

read_id-print_int_example : read_id formats 9 (print_int 7041) world ≡ ok 7041 world
read_id-print_int_example = read_id-print_int formats 9 7041 world formats_read (omega arith)

found_scheduler : get_scheduler 0 42 world ≡ ok (some 510) world
unfolding get_scheduler
found_scheduler = refl

found_worker : get_worker 0 0 42 world ≡ ok (some 520) world
unfolding get_worker
found_worker = refl

worker_read-shows_example :
    worker_read formats 30 (print_int 0) (print_int 0) (print_int 42) (0, 0, 0) 300 0 false world
    ≡ ok (shown (worker_text formats 30) false (worker world 7)) world
worker_read-shows_example =
    worker_read-shows world formats 30 0 0 42 300 520 own_file (0, 0, 0) false world-IsValid
      formats_read (omega arith) (omega arith) (omega arith) found_worker refl (omega arith)

create_scheduler_folder-shows_example :
    Ends
      (λ id t.
        sched_info_read formats (print_int id) (print_int 42) (0, 0) 300 0 false t
        ≡ ok (shown (info_text formats) false (scheduler world 3)) t)
      (create_scheduler_folder new_folder 3 42 world)
create_scheduler_folder-shows_example =
    create_scheduler_folder-shows world new_folder 511 500 3 42 process formats 300 (0, 0) false
      world-IsValid formats_read (omega arith) (omega arith) (omega arith) refl refl refl
