-- ===== src/Shell/Pipeline/Descriptors.antt =====
-- The descriptors of one child of eval_cmd of hw1/part_two.c.
use cs.Base.{
  ℕ, zero, suc, ◌+◌, ◌<◌, ◌≡◌, ◌≢◌, refl, sym, ap, ◌∙◌, false, Option, none, some, ◌==◌,
  if◌then◌else◌, arith, Bool-cases, inl, inr,
}
use cs.Base.Outcome.{ok}
use cs.Base.Family.{update}
use cs.Shell.Pipeline.{File, read_of, write_of, Table, close, dup_file, dup2, redirect}

-- What the kernel's pipe gives: two descriptors that are not open. 0 and 1 are, and so are the read
-- ends of the pipes of the rounds before.
pub record IsFresh (pipe : ℕ → ℕ × ℕ) : Type 0 where
  pub read_high : (i : ℕ) → 1 < (pipe i).0
  pub write_high : (i : ℕ) → 1 < (pipe i).1
  pub apart : (i : ℕ) → (pipe i).0 ≢ (pipe i).1
  pub read_new : (j i : ℕ) → j < i → (pipe j).0 ≢ (pipe i).0
  pub write_new : (j i : ℕ) → j < i → (pipe j).0 ≢ (pipe i).1

-- What the command at place `i` of `n` reads and writes.
abbrev pub source : Table → ℕ → Option File
source t zero = t 0
source t (suc i) = some (read_of i)

abbrev pub sink : Table → ℕ → ℕ → Option File
sink t n i = if i + 1 == n then t 1 else some (write_of i)

pub update_here : (t : Table) (fd : ℕ) (f : Option File) → update t fd f fd ≡ f
update_here t fd f = ground arith

pub update_other : (t : Table) (fd d : ℕ) (f : Option File) → fd ≢ d → update t fd f d ≡ t d
update_other t fd d f ne = ground (arith, ne)

-- `dup2(fd, to)` and then `close(fd)`.
moved :
    (t : Table) (fd to : ℕ) (f : File)
    → t fd ≡ some f
    → fd ≢ to
    → close fd (dup2 fd to t) to ≡ some f
moved t fd to f e ne =
    update_other (dup2 fd to t) fd to none ne
    ∙ ap (λ o. dup_file o to t to) e
    ∙ update_here t to (some f)

moved_other :
    (t : Table) (fd to d : ℕ) (f : File)
    → t fd ≡ some f
    → fd ≢ d
    → to ≢ d
    → close fd (dup2 fd to t) d ≡ t d
moved_other t fd to d f e ne ne' =
    update_other (dup2 fd to t) fd d none ne
    ∙ ap (λ o. dup_file o to t d) e
    ∙ update_other t to d (some f) ne'

-- The last two calls of a child.
redirect_out :
    (t : Table) (w i n : ℕ)
    → t w ≡ some (write_of i)
    → 1 < w
    → ((if i + 1 == n then t else close w (dup2 w 1 t)) 0 ≡ t 0)
      × ((if i + 1 == n then t else close w (dup2 w 1 t)) 1
          ≡ (if i + 1 == n then t 1 else some (write_of i)))
redirect_out t w i n opened high = elim (Bool-cases (i + 1 == n)) [
  | inl e ↦ rw e (refl, refl)
  | inr e ↦ rw e (
    moved_other t w 1 0 (write_of i) opened (λ e'. omega (arith, e', high))
        (λ e'. omega (arith, e')),
    moved t w 1 (write_of i) opened (λ e'. omega (arith, e', high)),
  )
]

-- The table of the shell, and of its child, after the call of pipe.
abbrev pub piped : ℕ × ℕ → ℕ → Table → Table
piped p i t = update (update t p.0 (some (read_of i))) p.1 (some (write_of i))

pub piped_other : (p : ℕ × ℕ) (i d : ℕ) (t : Table) → p.0 ≢ d → p.1 ≢ d → piped p i t d ≡ t d
piped_other p i d t ne ne' =
    update_other (update t p.0 (some (read_of i))) p.1 d (some (write_of i)) ne'
    ∙ update_other t p.0 d (some (read_of i)) ne

closed_other :
    (p : ℕ × ℕ) (i d : ℕ) (t : Table) → p.0 ≢ d → p.1 ≢ d → close p.0 (piped p i t) d ≡ t d
closed_other p i d t ne ne' = update_other (piped p i t) p.0 d none ne ∙ piped_other p i d t ne ne'

closed_write :
    (p : ℕ × ℕ) (i : ℕ) (t : Table) → p.0 ≢ p.1 → close p.0 (piped p i t) p.1 ≡ some (write_of i)
closed_write p i t ne =
    update_other (piped p i t) p.0 p.1 none ne
    ∙ update_here (update t p.0 (some (read_of i))) p.1 (some (write_of i))

-- `oldpipe[READ_END]` before round `i`.
abbrev pub last_read : (ℕ → ℕ × ℕ) → ℕ → Option ℕ
last_read pipe zero = none
last_read pipe (suc i) = some ((pipe i).0)

pub redirect_lem :
    (pipe : ℕ → ℕ × ℕ) (i n : ℕ) (t : Table)
    → IsFresh pipe
    → ((j : ℕ) → j < i → t ((pipe j).0) ≡ some (read_of j))
    → (t' : Table) × (redirect i n (last_read pipe i) (pipe i).0 (pipe i).1 (piped (pipe i) i t)
        ≡ ok t')
      × (t' 0 ≡ source t i)
      × (t' 1 ≡ sink t n i)
unfolding redirect
redirect_lem pipe zero n t fresh reads =
    let p = pipe zero in
    let high = fresh.read_high zero in
    let high' = fresh.write_high zero in
    let u : Table = close p.0 (piped p zero t) in
    let (at_0, at_1) = redirect_out u p.1 zero n (closed_write p zero t (fresh.apart zero)) high' in
    (
      if zero + 1 == n then u else close p.1 (dup2 p.1 1 u),
      refl,
      at_0 ∙ closed_other p zero 0 t (λ e. omega (arith, e, high)) (λ e. omega (arith, e, high')),
      at_1
          ∙ ap (λ o. if zero + 1 == n then o else some (write_of zero))
              (closed_other p zero 1 t (λ e. omega (arith, e, high))
                (λ e. omega (arith, e, high'))),
    )
redirect_lem pipe (suc j) n t fresh reads =
    let p = pipe (suc j) in
    let o = (pipe j).0 in
    let high = fresh.read_high (suc j) in
    let high' = fresh.write_high (suc j) in
    let high_o = fresh.read_high j in
    let before : j < suc j = omega arith in
    let later : (suc j == 0) ≡ false = ground arith in
    let v : Table = close p.0 (piped p (suc j) t) in
    let v_o : v o ≡ some (read_of j) =
      closed_other p (suc j) o t (λ e. fresh.read_new j (suc j) before (sym e))
        (λ e. fresh.write_new j (suc j) before (sym e))
      ∙ reads j before in
    let u : Table = close o (dup2 o 0 v) in
    let u_w : u p.1 ≡ some (write_of (suc j)) =
      moved_other v o 0 p.1 (read_of j) v_o (fresh.write_new j (suc j) before)
        (λ e. omega (arith, e, high'))
      ∙ closed_write p (suc j) t (fresh.apart (suc j)) in
    let u_1 : u 1 ≡ t 1 =
      moved_other v o 0 1 (read_of j) v_o (λ e. omega (arith, e, high_o)) (λ e. omega (arith, e))
      ∙ closed_other p (suc j) 1 t (λ e. omega (arith, e, high)) (λ e. omega (arith, e, high')) in
    let (at_0, at_1) = redirect_out u p.1 (suc j) n u_w high' in
    (
      if suc j + 1 == n then u else close p.1 (dup2 p.1 1 u),
      rw later refl,
      at_0 ∙ moved v o 0 (read_of j) v_o (λ e. omega (arith, e, high_o)),
      at_1 ∙ ap (λ f. if suc j + 1 == n then f else some (write_of (suc j))) u_1,
    )
