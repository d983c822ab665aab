-- ===== src/Manager/Run.antt =====
-- Commands of hw3/personal/SThread/sthread.c: what they read and write, and the calls of the kernel that
-- they make. Each command runs alone: what the code does under list_lock is not interleaved.
use cs.Base.{ℕ, ◌≡◌, refl, Bool, Option, none, some, List, [], ◌∷◌, ◌++◌, ◌==◌, ◌||◌, if◌then◌else◌}
use cs.Base.Int.{ℤ}
use cs.Base.Family.{update}

-- `struct sthread_struct`; a pointer is an address, `none` for NULL.
pub record Thread : Type 0 where
  pub pid : ℤ
  pub main : ℕ
  pub running : Bool
  pub status : ℤ
  pub err : ℕ
  pub read_end : ℕ
  pub write_end : ℕ
  pub stacksize : ℕ
  pub stack : ℕ
  pub next : Option ℕ

-- The calls of the kernel and of free, with what they are about.
pub data Call : Type 0 where
  kill : ℤ → ℕ → Call
  wait : ℤ → Call
  unmap : ℕ → ℕ → Call
  close : ℕ → Call
  write : ℕ → Call
  read : ℕ → Call
  free : ℕ → Call
  exit : Call

-- The memory of thread structures, `list_hd`, and the calls made so far.
pub record Process : Type 0 where
  pub memory : ℕ → Option Thread
  pub list_hd : Option ℕ
  pub calls : List Call

-- A run ends, ends in abort(), runs into undefined behaviour, or is out of fuel.
pub data Run {ℓ} (A : Type ℓ) : Type ℓ where
  done : A → Process → Run A
  aborted : Process → Run A
  fault : Run A
  out_of_fuel : Run A

abbrev pub Cmd {ℓ} : Type ℓ → Type ℓ
Cmd A = Process → Run A

abbrev pub pure {ℓ} : {A : Type ℓ} → A → Cmd A
pure = done

abbrev pub and_then {ℓ κ} : {A : Type ℓ} {B : Type κ} → Run A → (A → Cmd B) → Run B
and_then (done a s) k = k a s
and_then (aborted s) k = aborted s
and_then fault k = fault
and_then out_of_fuel k = out_of_fuel

infixl 5 ◌>>=◌ ◌>>◌
abbrev pub ◌>>=◌ {ℓ κ} : {A : Type ℓ} {B : Type κ} → Cmd A → (A → Cmd B) → Cmd B
m >>= k = λ s. and_then (m s) k

abbrev pub ◌>>◌ {ℓ κ} : {A : Type ℓ} {B : Type κ} → Cmd A → Cmd B → Cmd B
m >> n = m >>= λ _. n

-- The static structures `manager_thread` and `main_thread`.
abbrev pub manager_thread : ℕ
manager_thread = 0

abbrev pub main_thread : ℕ
main_thread = 1

-- `*p`
unfoldable pub load : ℕ → Cmd Thread
load p s = elim (s.memory p) [ none ↦ fault | some t ↦ done t s ]

-- A write through `p`, which changes the structure there.
unfoldable pub modify : ℕ → (Thread → Thread) → Cmd (Unit {0})
modify p f s = elim (s.memory p) [
  | none ↦ fault
  | some t ↦ done tt (record s { memory = update s.memory p (some (f t)) })
]

unfoldable pub call : Call → Cmd (Unit {0})
call c s = done tt (record s { calls = s.calls ++ c ∷ [] })

-- `free` of a thread structure; the static ones and the freed ones are none of malloc's.
unfoldable pub free_thread : ℕ → Cmd (Unit {0})
free_thread p s = if (p == manager_thread) || (p == main_thread) then fault else elim (s.memory p) [
  | none ↦ fault
  | some t ↦ done tt (record s { memory = update s.memory p none; calls = s.calls ++ free p ∷ [] })
]

pub load-done : (p : ℕ) (s : Process) {t : Thread} → s.memory p ≡ some t → load p s ≡ done t s
unfolding load
load-done p s there = rw (load, there) refl

pub modify-done :
    (p : ℕ) (f : Thread → Thread) (s : Process) {t : Thread}
    → s.memory p ≡ some t
    → modify p f s ≡ done tt (record s { memory = update s.memory p (some (f t)) })
unfolding modify
modify-done p f s there = rw (modify, there) refl

pub load-fault : (p : ℕ) (s : Process) → s.memory p ≡ none → load p s ≡ fault
unfolding load
load-fault p s freed = rw (load, freed) refl
