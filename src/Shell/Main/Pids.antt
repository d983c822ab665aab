-- ===== src/Shell/Main/Pids.antt =====
-- The pids that main of hw1/part_two.c keeps of a line's children and waits for.
use cs.Base.{
  ℕ, zero, suc, ◌+◌, ◌<◌, ◌≤◌, ◌≡◌, refl, ap, ap₂, subst, ℕ_discrete, ◌∙◌, Option, List, [], ◌∷◌,
  arith, set, get_or, length, length-set, get_or-set_self, get_or-set_ne,
}
use cs.Base.Int.{ℤ, pos}
use cs.Shell.Jobs.{copy_first}
use cs.Shell.Main.{record_pids, pid_of, waited}

-- The first values of a function.
abbrev pub first_values : ℕ → (ℕ → ℤ) → List ℤ
first_values zero f = []
first_values (suc n) f = f 0 ∷ first_values n (λ j. f (suc j))

pub length-record_pids :
    (fork : ℕ → Option ℕ) (n i : ℕ) (pids : List ℤ)
    → length (record_pids fork n i pids) ≡ length pids
unfolding record_pids
length-record_pids fork zero i pids = refl
length-record_pids fork (suc n) i pids =
    length-record_pids fork n (i + 1) (set pids i (pid_of (fork i)))
    ∙ length-set pids i (pid_of (fork i))

record_pids-below :
    (fork : ℕ → Option ℕ) (n i j : ℕ) (pids : List ℤ)
    → j < i
    → get_or (record_pids fork n i pids) j (pos 0) ≡ get_or pids j (pos 0)
unfolding record_pids
record_pids-below fork zero i j pids lt = refl
record_pids-below fork (suc n) i j pids lt =
    record_pids-below fork n (i + 1) j (set pids i (pid_of (fork i))) (omega (arith, lt))
    ∙ get_or-set_ne pids (pid_of (fork i)) (pos 0) (λ e. omega (arith, e, lt))

pub record_pids-get :
    (fork : ℕ → Option ℕ) (n i j : ℕ) (pids : List ℤ)
    → i + n ≤ length pids
    → i ≤ j
    → j < i + n
    → get_or (record_pids fork n i pids) j (pos 0) ≡ pid_of (fork j)
unfolding record_pids
record_pids-get fork zero i j pids room le lt = absurd (omega (arith, le, lt))
record_pids-get fork (suc n) i j pids room le lt = elim (ℕ_discrete i j) [
  | yes e ↦
      record_pids-below fork n (i + 1) j (set pids i (pid_of (fork i))) (omega (arith, e))
      ∙ subst (λ k. get_or (set pids i (pid_of (fork i))) k (pos 0) ≡ pid_of (fork k)) e
          (get_or-set_self pids i (pid_of (fork i)) (pos 0) (omega (arith, room)))
  | no ne ↦
      record_pids-get fork n (i + 1) j (set pids i (pid_of (fork i)))
        (omega (arith, length-set pids i (pid_of (fork i)), room)) (omega (arith, ne, le))
        (omega (arith, lt))
]

pub waited_lem :
    (n : ℕ) (pids : List ℤ) (f : ℕ → ℤ)
    → n ≤ length pids
    → ((j : ℕ) → j < n → get_or pids j (pos 0) ≡ f j)
    → waited n pids ≡ first_values n f
unfolding waited
waited_lem zero pids f le h = refl
waited_lem (suc n) [] f le h = absurd (omega (arith, le))
waited_lem (suc n) (p ∷ pids) f le h =
    ap₂ (λ q qs. q ∷ qs) (h 0 (omega arith))
      (waited_lem n pids (λ j. f (suc j)) (omega (arith, le))
        (λ j lt. h (suc j) (omega (arith, lt))))

pub waited-copy_first :
    (n : ℕ) (from to : List ℤ)
    → n ≤ length from
    → n ≤ length to
    → waited n (copy_first n from to) ≡ waited n from
unfolding waited
waited-copy_first zero from to le le' = refl
waited-copy_first (suc n) [] to le le' = absurd (omega (arith, le))
waited-copy_first (suc n) (p ∷ from) [] le le' = absurd (omega (arith, le'))
waited-copy_first (suc n) (p ∷ from) (q ∷ to) le le' =
    ap (λ l. p ∷ l) (waited-copy_first n from to (omega (arith, le)) (omega (arith, le')))
