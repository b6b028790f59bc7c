-- ===== src/Library/Create/Handshake.antt =====
-- The two threads of `ums_create_worker_thread` in src/lib/ums.c do not miss each other.
use aosv_project.Base.{
  ℕ, suc, ◌+◌, ◌<◌, ◌≡◌, refl, Bool, true, false, ◌||◌, ◌&&◌, Option, none, some, arith,
  if◌then◌else◌, ◌==◌, minus_one,
}
use aosv_project.Library.Create.{
  Parent, Child, Create, locking, testing, waiting, woken, leaving, asking, created, entering,
  setting, signalling, unlocking, requesting, sleeping, begin, parent_at, child_at,
}

-- Who holds the mutex.
abbrev pub parent_holds : Parent → Bool
parent_holds testing = true
parent_holds leaving = true
parent_holds _ = false

abbrev pub child_holds : Child → Bool
child_holds setting = true
child_holds signalling = true
child_holds unlocking = true
child_holds _ = false

-- The new thread has written its tid.
abbrev has_tid : Child → Bool
has_tid entering = false
has_tid setting = false
has_tid _ = true

-- The parent is behind the loop.
abbrev pub is_past : Parent → Bool
is_past leaving = true
is_past asking = true
is_past created = true
is_past _ = false

-- Which places go together: the mutex is held once, who is behind the loop has seen the tid, who
-- sleeps will be signalled, and who is woken has been.
abbrev pub fits : Parent → Child → Bool
fits locking c = true
fits testing c = if child_holds c then false else true
fits waiting entering = true
fits waiting setting = true
fits waiting signalling = true
fits waiting _ = false
fits woken c = true
fits leaving c = has_tid c && (if child_holds c then false else true)
fits asking c = has_tid c && (if child_holds c then false else true)
fits created sleeping = true
fits created _ = false

-- The state at two places.
abbrev pub at_places : (me : ℕ) → Parent → Child → Create
at_places me p c = record {
  parent = p;
  child = c;
  locked = parent_holds p || child_holds c;
  tid = if has_tid c then me else minus_one;
}

pub record Fair (me : ℕ) (s : Create) : Type 0 where
  pub place : fits s.parent s.child ≡ true
  pub same : s ≡ at_places me s.parent s.child

-- How far the threads are from the end. A signal sends the parent back to the test once.
abbrev parent_cost : Parent → ℕ
parent_cost locking = 6
parent_cost testing = 5
parent_cost waiting = 4
parent_cost woken = 6
parent_cost leaving = 3
parent_cost asking = 2
parent_cost created = 0

abbrev child_cost : Child → ℕ
child_cost entering = 50
child_cost setting = 40
child_cost signalling = 30
child_cost unlocking = 20
child_cost requesting = 10
child_cost sleeping = 0

abbrev pub cost : Create → ℕ
cost s = parent_cost s.parent + child_cost s.child

-- What a thread's next step leaves, if it has one.
abbrev pub Next : (Create → Type 0) → Option Create → Type 0
Next P none = Unit
Next P (some t) = P t

abbrev pub Nearer : (me : ℕ) → Create → Create → Type 0
Nearer me s t = Fair me t × (cost t < cost s)

pub parent_at-Nearer :
    (me : ℕ) (p : Parent) (c : Child)
    → (me == minus_one) ≡ false
    → fits p c ≡ true
    → Next (Nearer me (at_places me p c)) (parent_at p (at_places me p c))
unfolding parent_at
parent_at-Nearer me locking setting n h = tt
parent_at-Nearer me locking signalling n h = tt
parent_at-Nearer me locking unlocking n h = tt
parent_at-Nearer me testing setting n h = absurd (ground arith)
parent_at-Nearer me testing signalling n h = absurd (ground arith)
parent_at-Nearer me testing unlocking n h = absurd (ground arith)
parent_at-Nearer me testing requesting n h =
    rw n (record { place = refl; same = refl }, omega arith)
parent_at-Nearer me testing sleeping n h = rw n (record { place = refl; same = refl }, omega arith)
parent_at-Nearer me waiting c n h = tt
parent_at-Nearer me woken setting n h = tt
parent_at-Nearer me woken signalling n h = tt
parent_at-Nearer me woken unlocking n h = tt
parent_at-Nearer me leaving entering n h = absurd (ground arith)
parent_at-Nearer me leaving setting n h = absurd (ground arith)
parent_at-Nearer me leaving signalling n h = absurd (ground arith)
parent_at-Nearer me leaving unlocking n h = absurd (ground arith)
parent_at-Nearer me asking entering n h = tt
parent_at-Nearer me asking setting n h = tt
parent_at-Nearer me asking signalling n h = tt
parent_at-Nearer me asking unlocking n h = tt
parent_at-Nearer me asking requesting n h = tt
parent_at-Nearer me created c n h = tt
parent_at-Nearer me p c n h = (record { place = refl; same = refl }, omega arith)

pub child_at-Nearer :
    (me : ℕ) (p : Parent) (c : Child)
    → fits p c ≡ true
    → Next (Nearer me (at_places me p c)) (child_at me c (at_places me p c))
unfolding child_at
child_at-Nearer me testing entering h = tt
child_at-Nearer me leaving entering h = absurd (ground arith)
child_at-Nearer me asking entering h = absurd (ground arith)
child_at-Nearer me created entering h = absurd (ground arith)
child_at-Nearer me testing setting h = absurd (ground arith)
child_at-Nearer me leaving setting h = absurd (ground arith)
child_at-Nearer me asking setting h = absurd (ground arith)
child_at-Nearer me created setting h = absurd (ground arith)
child_at-Nearer me testing signalling h = absurd (ground arith)
child_at-Nearer me leaving signalling h = absurd (ground arith)
child_at-Nearer me asking signalling h = absurd (ground arith)
child_at-Nearer me created signalling h = absurd (ground arith)
child_at-Nearer me testing unlocking h = absurd (ground arith)
child_at-Nearer me waiting unlocking h = absurd (ground arith)
child_at-Nearer me leaving unlocking h = absurd (ground arith)
child_at-Nearer me asking unlocking h = absurd (ground arith)
child_at-Nearer me created unlocking h = absurd (ground arith)
child_at-Nearer me waiting requesting h = absurd (ground arith)
child_at-Nearer me created requesting h = absurd (ground arith)
child_at-Nearer me p sleeping h = tt
child_at-Nearer me p c h = (record { place = refl; same = refl }, omega arith)

-- One thread goes on.
pub data Turn (me : ℕ) (s : Create) : Create → Type 0 where
  parent_turn : {t : Create} → parent_at s.parent s ≡ some t → Turn me s t
  child_turn : {t : Create} → child_at me s.child s ≡ some t → Turn me s t

-- The kernel may also wake the parent without a signal.
pub data Step (me : ℕ) (s : Create) : Create → Type 0 where
  turn : {t : Create} → Turn me s t → Step me s t
  spurious : s.parent ≡ waiting → Step me s (record s { parent = woken })

pub data Reach (me : ℕ) : Create → Type 0 where
  start : Reach me begin
  later : {s t : Create} → Reach me s → Step me s t → Reach me t

pub data Turns (me : ℕ) : ℕ → Create → Type 0 where
  start : Turns me 0 begin
  later : {n : ℕ} {s t : Create} → Turns me n s → Turn me s t → Turns me (suc n) t

-- Both threads are done, and the worker has its tid.
abbrev pub finished : (me : ℕ) → Create
finished me = record { parent = created; child = sleeping; locked = false; tid = me }
