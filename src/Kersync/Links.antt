-- ===== src/Kersync/Links.antt =====
-- The list of hw3/group/TURNED_IN_Qiyuan_Qiguang/kersync/kersync.c and the processes that are about to
-- free an event or hold the list lock, at every moment, whatever becomes of the counts.
use cs.Base.{
  ℕ, ◌≡◌, Bool, true, false, List, [], ◌∷◌, ◌==◌, if◌then◌else◌, refl, arith, Bool-cases, inl, inr,
}
use cs.Kersync.{Kernel, list_del}
use cs.Kersync.Calls.{Pc, counting, closing, allocated}

abbrev pub occurs : ℕ → List ℕ → Bool
occurs a [] = false
occurs a (b ∷ l) = if b == a then true else occurs a l

abbrev pub Distinct : List ℕ → Type 0
Distinct [] = Unit
Distinct (a ∷ l) = (occurs a l ≡ false) × Distinct l

-- The process is between the read and the write of `count++`.
abbrev pub counts : ℕ → Pc → Bool
counts a (counting b d c) = d == a
counts a _ = false

pub record Links (k : Kernel) (pc : ℕ → Pc) : Type 0 where
  pub listed : (a : ℕ) → occurs a k.event_list ≡ true → allocated (k.heap a) ≡ true
  pub distinct : Distinct k.event_list
  pub live : (i a : ℕ) → pc i ≡ closing a → allocated (k.heap a) ≡ true
  pub unlisted : (i a : ℕ) → pc i ≡ closing a → occurs a k.event_list ≡ false
  pub closers : (i j a : ℕ) → pc i ≡ closing a → pc j ≡ closing a → i ≡ j
  pub locked : (i a : ℕ) → counts a (pc i) ≡ true → k.list_lock ≡ true
  pub counted_in : (i a : ℕ) → counts a (pc i) ≡ true → occurs a k.event_list ≡ true
  pub counters : (i j a b : ℕ) → counts a (pc i) ≡ true → counts b (pc j) ≡ true → i ≡ j

pub list_del-occurs : (a b : ℕ) (l : List ℕ) → occurs b (list_del a l) ≡ true → occurs b l ≡ true
unfolding list_del
list_del-occurs a b [] h = h
list_del-occurs a b (c ∷ l) h = ground (arith, list_del-occurs a b l)

pub list_del-gone : (a : ℕ) (l : List ℕ) → Distinct l → occurs a (list_del a l) ≡ false
unfolding list_del
list_del-gone a [] d = refl
list_del-gone a (c ∷ l) d = ground (arith, list_del-gone a l d.1, d.0)

pub list_del-Distinct : (a : ℕ) (l : List ℕ) → Distinct l → Distinct (list_del a l)
unfolding list_del
list_del-Distinct a [] d = tt
list_del-Distinct a (c ∷ l) d = elim (Bool-cases (c == a)) [
  | inl e ↦ rw e d.1
  | inr e ↦ rw e (absent, list_del-Distinct a l d.1)
]
  where
    absent : occurs c (list_del a l) ≡ false
    absent = ground (arith, list_del-occurs a c l, d.0)
