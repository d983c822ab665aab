-- ===== src/Prinfo/Client/Rows.antt =====
-- What hw2/group/mysyscall/mysyscall.c prints for a process.
use cs.Base.{
  ℕ, suc, zero, ◌+◌, ◌-◌, ◌≤◌, ◌<◌, ◌≡◌, refl, ap, subst, ◌∙◌, Bool, true, false, Option, some,
  List, [], ◌∷◌, ◌++◌, ◌==◌, ltb, if◌then◌else◌, arith, All, All-replicate, length, replicate,
}
use cs.Base.Outcome.{ok}
use cs.Base.Text.{until_nul}
use cs.Prinfo.{Info, Task}
use cs.Prinfo.Family.{drop}
use cs.Prinfo.Call.{IsAnswer, cs2456_test_lem}
use cs.Prinfo.Client.{Printf, sentences, values, longest, print_rows, list_field2, table, client}

-- Rows in which every sentence ends at one column, with a value behind it.
pub data Aligned (column : ℕ) : List (List ℕ) → List (List ℕ) → List (List ℕ) → Type 0 where
  over : Aligned column [] [] []
  row :
      {ss vs rows : List (List ℕ)} (blanks s v : List ℕ)
      → All (λ c. c ≡ 32) blanks
      → length (blanks ++ s) ≡ column
      → Aligned column ss vs rows
      → Aligned column (s ∷ ss) (v ∷ vs) ((blanks ++ s ++ 32 ∷ v) ∷ rows)

longest-ge : (len : ℕ) (ss : List (List ℕ)) → len ≤ longest len ss
unfolding longest
longest-ge len [] = omega arith
longest-ge len (s ∷ ss) =
    ground (arith, longest-ge (if ltb len (length s) then length s else len) ss)

longest-All : (len : ℕ) (ss : List (List ℕ)) → All (λ s. length s ≤ longest len ss) ss
unfolding longest
longest-All len [] = tt
longest-All len (s ∷ ss) = (
  ground (arith, longest-ge (if ltb len (length s) then length s else len) ss),
  longest-All (if ltb len (length s) then length s else len) ss,
)

length-padded : (n : ℕ) (s : List ℕ) → length (replicate n 32 ++ s) ≡ n + length s
length-padded zero s = omega arith
length-padded (suc n) s = omega (arith, length-padded n s)

print_rows-Aligned :
    (column : ℕ) (ss vs : List (List ℕ))
    → All (λ s. length s ≤ column) ss
    → length ss ≡ length vs
    → Aligned column ss vs (print_rows column ss vs)
unfolding print_rows
print_rows-Aligned column [] [] fit same = over
print_rows-Aligned column [] (v ∷ vs) fit same = absurd (omega (arith, same))
print_rows-Aligned column (s ∷ ss) [] fit same = absurd (omega (arith, same))
print_rows-Aligned column (s ∷ ss) (v ∷ vs) fit same =
    row (replicate (column - length s) 32) s v
      (All-replicate (λ c. c ≡ 32) (column - length s) 32 refl)
      (length-padded (column - length s) s ∙ omega (arith, fit.0))
      (print_rows-Aligned column ss vs fit.1 (omega (arith, same)))

until_nul-name :
    (name rest : List ℕ) → All (λ c. (c == 0) ≡ false) name → until_nul (name ++ 0 ∷ rest) ≡ name
until_nul-name [] rest h = refl
until_nul-name (c ∷ name) rest h = rw h.0 (ap (λ l. c ∷ l) (until_nul-name name rest h.1))

-- The values that the table has for an answer in which the program's name is `name`.
abbrev pub answers : Printf → Info → List ℕ → List (List ℕ)
answers f r name =
    f.ld r.state
    ∷ f.ld r.nice
    ∷ f.d r.pid
    ∷ f.d r.parent_pid
    ∷ f.d r.youngest_child_pid
    ∷ f.d r.younger_sibling_pid
    ∷ f.d r.older_sibling_pid
    ∷ f.lu r.start_time
    ∷ f.ld r.user_time
    ∷ f.ld r.sys_time
    ∷ f.ld r.cutime
    ∷ f.ld r.cstime
    ∷ f.ld r.uid
    ∷ name
    ∷ []

list_field2-Aligned : (f : Printf) (r : Info) → Aligned 42 sentences (values f r) (list_field2 f r)
unfolding list_field2 longest
list_field2-Aligned f r = print_rows-Aligned 42 sentences (values f r) (ground arith) refl

values-answers :
    (f : Printf) (r : Info) (name rest : List ℕ)
    → r.comm ≡ name ++ 0 ∷ rest
    → All (λ c. (c == 0) ≡ false) name
    → values f r ≡ answers f r name
values-answers f r name rest named ends =
    rw (ap until_nul named ∙ until_nul-name name rest ends) refl

-- For the pid of a task that exists and that kill finds, whose name ends within both arrays and whose
-- walk over the siblings visits a pid, the program makes the call and prints fourteen rows, in which
-- all sentences end at column 42, each with blanks in front and one blank and its value behind it. The
-- values are those of an answer of the call: the fields of the task; as youngest child the smallest
-- pid of the children, and their times summed up modulo 2^32, or without children what the variable
-- held and times of 0; as oldest among the younger siblings the smallest visited pid above the own
-- one, if the first visited pid is above it, and else that first pid, be it of an older process; as
-- youngest among the older the largest visited pid below the own one, or 0; and last the name.
pub client_lem :
    (f : Printf) (atoi : List ℕ → ℕ) (exists : ℕ → Bool) (junk : ℕ)
    (find_task_by_pid : ℕ → Option Task) (before : Info) (arg : List ℕ) (t : Task)
    (name rest : List ℕ) (p : ℕ) (ps : List ℕ)
    → exists (atoi arg) ≡ true
    → find_task_by_pid (atoi arg) ≡ some t
    → t.comm ≡ name ++ 0 ∷ rest
    → All (λ c. (c == 0) ≡ false) name
    → length name < length before.comm
    → t.visited ≡ p ∷ ps
    → (r : Info) × (rows : List (List ℕ)) × (client f atoi exists junk find_task_by_pid before
          (some arg)
        ≡ ok (table rows))
      × IsAnswer junk (record before { pid = atoi arg }) t name p ps r
      × Aligned 42 sentences (answers f r name) rows
unfolding client
client_lem f atoi exists junk find_task_by_pid before arg t name rest p ps there found named ends
      fits ring =
    let info : Info = record before { pid = atoi arg } in
    let (r, call, answer) =
      cs2456_test_lem junk find_task_by_pid info t name rest p ps found named ends fits ring in
    (
      r,
      list_field2 f r,
      rw (there, call) refl,
      answer,
      subst (λ vs. Aligned 42 sentences vs (list_field2 f r))
          (values-answers f r name (drop (suc (length name)) info.comm) answer.named ends)
          (list_field2-Aligned f r),
    )
