-- ===== src/Kernel/Proc/Read.antt =====
-- The reads of the files in /proc in src/lkm/ums_proc.c: whose text they show.
use aosv_project.Base.{
  ℕ, ◌%◌, ◌+◌, [], ap, ◌∙◌, subst, sym, ◌∷◌, ◌≤◌, ◌<◌, ◌^◌, ◌≡◌, refl, Bool, true, false, Option,
  none, some, arith, ltb, length, int_mod, Option-cases, inl, inr,
}
use aosv_project.Hashtable.{Hashtable}
use aosv_project.Text.{Text, print_int, digits}
use aosv_project.Text.Digits.{
  print_int-small, value, all_digits, all_digits-digits, length-digits-positive, length-digits-le,
  value-digits,
}
use aosv_project.Kernel.Entries.{Pup, Folder, File}
use aosv_project.Kernel.Outcome.{ok}
use aosv_project.Kernel.State.{Kernel, Alloc}
use aosv_project.Kernel.Valid.{Ends, IsValid, worker, scheduler}
use aosv_project.Kernel.Valid.Set.{Ends-mono}
use aosv_project.Kernel.Valid.Keep.{IsValid-proc}
use aosv_project.Kernel.Proc.{create_scheduler_folder}
use aosv_project.Kernel.Proc.Collide.{reads_own, Opened, create_scheduler_folder-opens}
use aosv_project.Kernel.Worker.Registry.{kworker_thread_copy-reads}
use aosv_project.Kernel.Scheduler.Registry.{ksched_thread_copy-reads}
use aosv_project.Kernel.Proc.Find.{get_scheduler, get_worker}
use aosv_project.Kernel.Proc.Info.{
  Formats, Read, procfilesz, bufsize, efault, no_text, read_id, copy_out, info_text, worker_text,
  sched_info_read, worker_read,
}
use aosv_project.Kernel.Proc.Info.Bound.{info_text-fits, worker_text-fits}

-- `kstrtoul` in base 10 reads every text of digits whose number is an `unsigned long`.
abbrev pub ReadsDigits : Formats → Type 0
ReadsDigits fs =
    (ds : Text)
    → all_digits ds ≡ true
    → 0 < length ds
    → value 0 ds < 2 ^ 64
    → fs.kstrtoul ds ≡ some (value 0 ds)

read_id-some :
    {T : Type 0} (fs : Formats) (old v : ℕ) (name : Text) (s : Kernel T)
    → length name < bufsize
    → fs.kstrtoul name ≡ some v
    → read_id fs old name s ≡ ok (v % int_mod) s
unfolding read_id
read_id-some fs old v name s short e =
    let room : ltb (length name) bufsize ≡ true = ground arith in rw (room, e) refl

-- An identifier that was printed as the name of a directory or a file is read back from that name,
-- where `kstrtoul` reads every text of digits whose number fits an `unsigned long`, and the
-- identifier is not negative as an `int`.
pub read_id-print_int :
    {T : Type 0} (fs : Formats) (old n : ℕ) (s : Kernel T)
    → ReadsDigits fs
    → n < 2 ^ 31
    → read_id fs old (print_int n) s ≡ ok n s
read_id-print_int fs old n s reads h =
    let e = value-digits 10 n (omega arith) in
    let parsed : fs.kstrtoul (digits 10 n) ≡ some n =
      reads (digits 10 n) (all_digits-digits 10 n) (length-digits-positive 9 n) (omega (arith, e))
      ∙ ap some e in
    let same : n % int_mod ≡ n = omega arith in
    rw (print_int-small n h) (
      read_id-some fs old n (digits 10 n) s (omega (arith, length-digits-le 10 n)) parsed
      ∙ ap (λ m. ok m s) same)

-- What a read shows of an object: nothing where there is none.
abbrev pub shown : {A : Type 0} → (A → Text) → (copy_fails : Bool) → Option A → Read
shown text copy_fails none = no_text 0
shown text true (some a) = record { result = efault; copied = []; ppos = 0 }
shown text false (some a) = record {
  result = length (text a);
  copied = text a;
  ppos = length (text a);
}

copy_out-shown :
    {T A : Type 0} (text : A → Text) (copy_fails : Bool) (a : A) (s : Kernel T)
    → length (text a) + 1 ≤ procfilesz
    → copy_out copy_fails 0 (text a) s ≡ ok (shown text copy_fails (some a)) s
unfolding copy_out
copy_out-shown text true a s fits =
    let room : ltb (length (text a)) procfilesz ≡ true = ground arith in rw room refl
copy_out-shown text false a s fits =
    let room : ltb (length (text a)) procfilesz ≡ true = ground arith in rw room refl

module _ ⦃ht : Hashtable⦄ where
  open ht use {Table, bucket, possible}

  -- In a valid state, a read of the file of a scheduler, at the start of the file and with room for
  -- the whole text, shows the text of the scheduler whose pid the directory keeps, if that is
  -- still there, and else nothing. It changes no state. The names above the file are the printed
  -- identifiers, which are no negative numbers, and `kstrtoul` reads what is printed.
  pub sched_info_read-shows :
      (s : Kernel Table) (fs : Formats) (sched_id parent_pid count q : ℕ) (f : Folder Table)
      (olds : ℕ × ℕ) (copy_fails : Bool)
      → IsValid s
      → ReadsDigits fs
      → sched_id < 2 ^ 31
      → parent_pid < 2 ^ 31
      → get_scheduler sched_id parent_pid s ≡ ok (some q) s
      → s.proc.folders q ≡ some f
      → procfilesz ≤ count
      → sched_info_read fs (print_int sched_id) (print_int parent_pid) olds count 0 copy_fails s
        ≡ ok (shown (info_text fs) copy_fails (scheduler s f.sched_pid)) s
  unfolding sched_info_read
  sched_info_read-shows s fs sched_id parent_pid count q f olds copy_fails v reads h1 h2 found here
        room =
      let far : ltb count procfilesz ≡ false = ground arith in
      rw
        (
          far,
          read_id-print_int fs (olds.0) sched_id s reads h1,
          read_id-print_int fs (olds.1) parent_pid s reads h2,
          found,
          here,
          ksched_thread_copy-reads s f.sched_pid v,
        )
        (elim (Option-cases (scheduler s f.sched_pid)) [
          | inl gone ↦ rw gone refl
          | inr (k, there) ↦
              rw there (copy_out-shown (info_text fs) copy_fails k s (info_text-fits fs k))
        ])

  -- In a valid state, a read of the file of a worker, at the start of the file and with room for the
  -- whole text, shows the text of the worker whose pid the file keeps, if that is still there, and
  -- else nothing. It changes no state. The names of the file and above it are the printed
  -- identifiers, which are no negative numbers, and `kstrtoul` reads what is printed.
  pub worker_read-shows :
      (s : Kernel Table) (fs : Formats) (now wt_id sched_id parent_pid count w : ℕ) (x : File)
      (olds : ℕ × ℕ × ℕ) (copy_fails : Bool)
      → IsValid s
      → ReadsDigits fs
      → wt_id < 2 ^ 31
      → sched_id < 2 ^ 31
      → parent_pid < 2 ^ 31
      → get_worker wt_id sched_id parent_pid s ≡ ok (some w) s
      → s.proc.files w ≡ some x
      → procfilesz ≤ count
      → worker_read fs now
          (print_int wt_id)
          (print_int sched_id)
          (print_int parent_pid)
          olds
          count
          0
          copy_fails
          s
        ≡ ok (shown (worker_text fs now) copy_fails (worker s x.wt_pid)) s
  unfolding worker_read
  worker_read-shows s fs now wt_id sched_id parent_pid count w x olds copy_fails v reads h0 h1 h2
        found here room =
      let far : ltb count procfilesz ≡ false = ground arith in
      rw
        (
          far,
          read_id-print_int fs (olds.0) wt_id s reads h0,
          read_id-print_int fs (olds.1) sched_id s reads h1,
          read_id-print_int fs (olds.2) parent_pid s reads h2,
          found,
          here,
          kworker_thread_copy-reads s x.wt_pid v,
        )
        (elim (Option-cases (worker s x.wt_pid)) [
          | inl gone ↦ rw gone refl
          | inr (k, there) ↦
              rw there
                (copy_out-shown (worker_text fs now) copy_fails k s (worker_text-fits fs now k))
        ])

  -- In a valid state, where a process is alone in its bucket of the table of processes, the file
  -- of the identifier that a new scheduler's directory gets shows the text of that scheduler, if it
  -- is in the map, at the first read that has room for it. The identifiers are no negative numbers,
  -- and `kstrtoul` reads what is printed.
  pub create_scheduler_folder-shows :
      (s : Kernel Table) (a : Alloc (Folder Table)) (q p sched_pid parent_pid : ℕ) (u : Pup Table)
      (fs : Formats) (count : ℕ) (olds : ℕ × ℕ) (copy_fails : Bool)
      → IsValid s
      → ReadsDigits fs
      → u.last_sched_id < 2 ^ 31
      → parent_pid < 2 ^ 31
      → procfilesz ≤ count
      → a.at ≡ some q
      → possible s.proc.htable parent_pid ≡ p ∷ []
      → s.proc.pups p ≡ some u
      → Ends
          (λ id t.
            sched_info_read fs (print_int id) (print_int parent_pid) olds count 0 copy_fails t
            ≡ ok (shown (info_text fs) copy_fails (scheduler s sched_pid)) t)
          (create_scheduler_folder a sched_pid parent_pid s)
  create_scheduler_folder-shows s a q p sched_pid parent_pid u fs count olds copy_fails v reads h1
        h2 room at alone here =
      Ends-mono {P = Opened s q p sched_pid parent_pid u} _
        (create_scheduler_folder-opens s a q p sched_pid parent_pid u at alone here)
        λ id t o.
          let valid = subst IsValid (sym o.frame) (IsValid-proc v t.proc) in
          let found : get_scheduler id parent_pid t ≡ ok (some q) t =
            o.found id ∙ ap (λ r. ok r t) (reads_own (bucket id) _ _) in
          let same : scheduler t o.folder.sched_pid ≡ scheduler s sched_pid =
            ap (scheduler t) o.pid ∙ ap (λ (r : Kernel Table). scheduler r sched_pid) o.frame in
          sched_info_read-shows t fs id parent_pid count q o.folder olds copy_fails valid reads
            (subst (λ n. n < 2 ^ 31) (sym o.next) h1) h2 found o.there room
          ∙ ap (λ k. ok (shown (info_text fs) copy_fails k) t) same
