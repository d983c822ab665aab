-- ===== src/Sync/Queue/Fifo.antt =====
-- The array of hw3/personal/SThread/sync.c against a first-in first-out sequence.
use cs.Base.{
  ℕ, zero, suc, ◌+◌, ◌-◌, ◌%◌, ◌≤◌, ◌<◌, ◌≡◌, ◌≢◌, refl, ap, ap₂, ◌∙◌, Option, none, some, List, [],
  ◌∷◌, ◌++◌, leb, ◌==◌, if◌then◌else◌, get_elem?, get_or, set, length, length-set, sym, dec_lt,
  get_or-set_self, get_or-set_ne, get_elem?-eq-get_or, arith,
}
use cs.Base.Outcome.{ok, int_max}
use cs.Sync.Queue.{
  max_q_size, QMember, Queue, zero_member, q_init, q_empty, q_first, Status, success, failure,
  q_push, q_pop,
}

-- `head` counts the pops from 24 on; the members stand in the `size` places behind it.
pub record IsValid (q : Queue) : Type 0 where
  pub storage : length q.member ≡ max_q_size
  pub fits : q.size ≤ max_q_size
  pub joined : q.tail ≡ (q.head + q.size) % max_q_size

-- The `n` members from place `h` on, going round.
abbrev pub window : List QMember → ℕ → ℕ → List QMember
window buf h zero = []
window buf h (suc n) = get_or buf (h % max_q_size) zero_member ∷ window buf (h + 1) n

-- The waiting threads, first in first.
abbrev pub contents : Queue → List QMember
contents q = window q.member (q.head + 1) q.size

pub length-window : (buf : List QMember) (h n : ℕ) → length (window buf h n) ≡ n
length-window buf h zero = refl
length-window buf h (suc n) = ap suc (length-window buf (h + 1) n)

pub length-contents : (q : Queue) → length (contents q) ≡ q.size
length-contents q = length-window q.member (q.head + 1) q.size

-- Fewer than 25 places on, another place is met.
pub place-ne :
    (h n k : ℕ) → n < k → k < n + max_q_size → (h + k) % max_q_size ≢ (h + n) % max_q_size
place-ne h n k lt near e = omega arith

-- A write outside a window leaves it alone.
pub window-set_outside :
    (buf : List QMember) (h n i : ℕ) (m : QMember)
    → ((k : ℕ) → k < n → i ≢ (h + k) % max_q_size)
    → window (set buf i m) h n ≡ window buf h n
window-set_outside buf h zero i m out = refl
window-set_outside buf h (suc n) i m out =
    ap₂ ◌∷◌ (get_or-set_ne buf m zero_member (λ e. out 0 (omega arith) (omega arith)))
      (window-set_outside buf (h + 1) n i m (λ k lt e. out (k + 1) (omega arith) (omega arith)))

window-snoc :
    (buf : List QMember) (h n : ℕ)
    → window buf h (suc n) ≡ window buf h n ++ (get_or buf ((h + n) % max_q_size) zero_member ∷ [])
window-snoc buf h zero = ap (λ k. get_or buf (k % max_q_size) zero_member ∷ []) (omega arith)
window-snoc buf h (suc n) =
    ap (λ l. get_or buf (h % max_q_size) zero_member ∷ l) (window-snoc buf (h + 1) n ∙ shift)
  where
    shift :
        window buf (h + 1) n ++ (get_or buf ((h + 1 + n) % max_q_size) zero_member ∷ [])
        ≡ window buf (h + 1) n ++ (get_or buf ((h + suc n) % max_q_size) zero_member ∷ [])
    shift =
        ap (λ k. window buf (h + 1) n ++ (get_or buf (k % max_q_size) zero_member ∷ []))
          (omega arith)

-- Writing just past a window of fewer than 25 members extends it.
window-set_next :
    (buf : List QMember) (h n i : ℕ) (m : QMember)
    → length buf ≡ max_q_size
    → n < max_q_size
    → i ≡ (h + n) % max_q_size
    → window (set buf i m) h (suc n) ≡ window buf h n ++ (m ∷ [])
window-set_next buf h n i m len room e =
    window-snoc (set buf i m) h n
    ∙ ap₂ (λ l x. l ++ (x ∷ []))
        (window-set_outside buf h n i m (λ k lt c. place-ne h k n lt (omega arith) (omega arith)))
        (ap (λ j. get_or (set buf i m) j zero_member) (omega arith)
          ∙ get_or-set_self buf i m zero_member (omega arith))

pub q_init-IsValid : IsValid q_init
unfolding q_init
q_init-IsValid = omega arith

pub contents-q_init : contents q_init ≡ []
unfolding q_init
contents-q_init = refl

-- The abstract queue: a bounded sequence.
abbrev pub enqueue : ℕ → List QMember → Status × List QMember
enqueue t l =
    if leb max_q_size (length l)
    then (failure, l)
    else (success, l ++ (record { thread = t; count = 1 } ∷ []))

pushed : ℕ → Queue → Queue
pushed t q = record q {
  size = q.size + 1;
  tail = (q.tail + 1) % max_q_size;
  member = set q.member ((q.tail + 1) % max_q_size) (record { thread = t; count = 1 });
}

q_push-room : (t : ℕ) (q : Queue) → q.size < max_q_size → q_push t q ≡ ok (success, pushed t q)
unfolding q_push pushed
q_push-room t q h = ground arith

q_push-full : (t : ℕ) (q : Queue) → max_q_size ≤ q.size → q_push t q ≡ ok (failure, q)
unfolding q_push
q_push-full t q h = ground arith

-- Q_push is `enqueue` of the waiting threads, on the full queue too, and is always defined.
pub q_push_refines :
    (t : ℕ) (q : Queue)
    → IsValid q
    → (s : Status) × (q' : Queue) × (q_push t q ≡ ok (s, q'))
      × IsValid q'
      × ((s, contents q') ≡ enqueue t (contents q))
      × (q'.head ≡ q.head)
unfolding pushed
q_push_refines t q v = elim (dec_lt q.size max_q_size) [
  | yes room ↦ (
    success,
    pushed t q,
    q_push-room t q room,
    record {
      storage = length-set q.member _ _ ∙ v.storage;
      fits = omega arith;
      joined = omega arith;
    },
    ground (
      arith,
      length-contents q,
      window-set_next q.member (q.head + 1) q.size ((q.tail + 1) % max_q_size)
          (record { thread = t; count = 1 }) v.storage room (omega arith),
    ),
    refl,
  )
  | no full ↦
      (failure, q, q_push-full t q (omega arith), v, ground (arith, length-contents q), refl)
]

-- The first waiting thread, as Q_first's caller reads it through the pointer.
abbrev pub first_place : Queue → ℕ
first_place q = (q.head + 1) % max_q_size

pub q_first-empty : (q : Queue) → q.size ≡ 0 → q_first q ≡ ok none
unfolding q_first
q_first-empty q e = ground arith

pub q_first_lem :
    (q : Queue) → q.size ≢ 0 → q.head < int_max → q_first q ≡ ok (some (first_place q))
unfolding q_first
q_first_lem q e small = ground arith

pub contents-cons :
    (q : Queue)
    → q.size ≢ 0
    → contents q
      ≡ get_or q.member (first_place q) zero_member ∷ window q.member (q.head + 2) (q.size - 1)
contents-cons q ne = go q.size ne
  where
    go :
        (n : ℕ)
        → n ≢ 0
        → window q.member (q.head + 1) n
          ≡ get_or q.member (first_place q) zero_member ∷ window q.member (q.head + 2) (n - 1)
    go zero h = absurd (h refl)
    go (suc n) h =
        ap₂ (λ k j. get_or q.member (first_place q) zero_member ∷ window q.member k j) (omega arith)
          (omega arith)

-- On a queue that holds `m` first, Q_first points at `m`.
pub q_first_refines :
    (q : Queue) (m : QMember) (rest : List QMember)
    → IsValid q
    → q.head < int_max
    → contents q ≡ m ∷ rest
    → (q_first q ≡ ok (some (first_place q)))
      × (get_elem? q.member (first_place q) ≡ some m)
      × (first_place q < max_q_size)
q_first_refines q m rest v small e = (
  q_first_lem q ne small,
  get_elem?-eq-get_or q.member (first_place q) zero_member (omega arith)
      ∙ ap some (ground (arith, contents-cons q ne)),
  omega arith,
)
  where
    ne : q.size ≢ 0
    ne z = omega (arith, length-contents q, ap (length {0} {A = QMember}) e)

popped : Queue → Queue
popped q = record q { size = q.size - 1; head = q.head + 1 }

-- While `head` is below INT_MAX, Q_pop of a valid queue that is not empty drops the first thread and nothing
-- else, and counts `head` up by 1. The pointer that it returns is that of the dropped member, except
-- that the pop of the only member returns NULL.
pub q_pop_refines :
    (q : Queue) (m : QMember) (rest : List QMember)
    → IsValid q
    → q.head < int_max
    → contents q ≡ m ∷ rest
    → (p : Option ℕ) × (q' : Queue) × (q_pop q ≡ ok (p, q'))
      × IsValid q'
      × (contents q' ≡ rest)
      × (q'.head ≡ q.head + 1)
      × (p ≡ (if length rest == 0 then none else some (first_place q)))
unfolding popped q_pop
q_pop_refines q m rest v small e = (
  (if q.size == 1 then none else some (first_place q)),
  popped q,
  ground arith,
  record { storage = v.storage; fits = omega arith; joined = omega (arith, ne) },
  ground (arith, contents-cons q ne),
  refl,
  ground (arith, count),
)
  where
    ne : q.size ≢ 0
    ne z = omega (arith, length-contents q, ap (length {0} {A = QMember}) e)

    count : suc (length rest) ≡ q.size
    count = sym (ap (length {0} {A = QMember}) e) ∙ length-contents q

-- The pop of an empty queue changes nothing and returns NULL.
pub q_pop-empty : (q : Queue) → contents q ≡ [] → q_pop q ≡ ok (none, q)
unfolding q_pop
q_pop-empty q e = ground (arith, length-contents q, ap (length {0} {A = QMember}) e)

pub q_empty_refines : (q : Queue) → q_empty q ≡ (length (contents q) == 0)
unfolding q_empty
q_empty_refines q = ground (arith, length-contents q)
