-- ===== src/Manager/Requests/Unwind.antt =====
-- The failures of do_create of hw3/personal/SThread/sthread.c behind its mmap.
use cs.Base.{ℕ, suc, ◌≡◌, ◌≢◌, refl, true, false, none, some, ◌==◌, arith}
use cs.Base.Int.{pos, negsuc, eq_ℤ_refl}
use cs.Base.Family.{update}
use cs.Manager.Run.{Thread, Process, fault, done, manager_thread, call, load-done, modify-done}
use cs.Manager.Threads.{threadlist_add, threadlist_del, del_loop, set_link}
use cs.Manager.Requests.{
  Answers, def_stack_size, copy_err, create_clone, create_closepipe, create_pipe, do_create,
}
use cs.Manager.Requests.Create.{cleared, modify-again}

-- One of the calls behind mmap fails.
pub data Fails (a : Answers) : Type 0 where
  no_pipe : a.pipe ≡ none → Fails a
  no_struct : (r w : ℕ) → a.pipe ≡ some (r, w) → a.start_struct ≡ false → Fails a
  no_clone : (r w : ℕ) → a.pipe ≡ some (r, w) → a.start_struct ≡ true → a.clone ≡ none → Fails a

copy_err-done :
    (caller : ℕ) (s : Process) (m c : Thread)
    → s.memory manager_thread ≡ some m
    → s.memory caller ≡ some c
    → copy_err caller s
      ≡ done tt (record s { memory = update s.memory caller (some (record c { err = m.err })) })
unfolding copy_err
copy_err-done caller s m c there there' =
    rw (load-done manager_thread s there)
      (modify-done caller (λ e. record e { err = m.err }) s there')

create_closepipe-fault :
    (t : ℕ) (s : Process) {u : Thread} → s.memory t ≡ some u → create_closepipe t s ≡ fault
unfolding create_closepipe call
create_closepipe-fault t s there = rw (load-done t s there) refl

-- The thread that was put in front is the first that threadlist_del compares.
del_loop-front :
    (n t : ℕ) (s : Process) {u : Thread}
    → t ≢ manager_thread
    → s.memory t ≡ some u
    → del_loop (suc n) t none (some t) s ≡ done tt (record s { list_hd = u.next })
unfolding del_loop set_link
del_loop-front n t s {u} h there =
    let not_manager : (t == manager_thread) ≡ false = ground (arith, h) in
    rw (not_manager, load-done t s there, load-done t s there, eq_ℤ_refl u.pid) refl

create_pipe-fault :
    (n caller t stack : ℕ) (a : Answers) (m c u : Thread) (s : Process)
    → Fails a
    → s.memory manager_thread ≡ some m
    → s.memory caller ≡ some c
    → s.memory t ≡ some u
    → caller ≢ t
    → caller ≢ manager_thread
    → t ≢ manager_thread
    → create_pipe (suc n) caller t a s ≡ fault
unfolding create_pipe create_clone threadlist_add threadlist_del
create_pipe-fault n caller t stack a m c u s (no_pipe e) at_m at_c at_t apart h h' =
    rw (e, copy_err-done caller s m c at_m at_c) refl
create_pipe-fault n caller t stack a m c u s (no_struct r w e e') at_m at_c at_t apart h h' =
    let u1 = record u { read_end = r; write_end = w } in
    let s1 = record s { memory = update s.memory t (some u1) } in
    let s2 = record s { memory = update s1.memory caller (some (record c { err = m.err })) } in
    rw
      (
        e,
        modify-done t (λ x. record x { read_end = r; write_end = w }) s at_t,
        e',
        copy_err-done caller s1 m c (ground (arith, h')) (ground (arith, apart)),
      )
      (create_closepipe-fault t s2 {u = u1} (ground (arith, apart)))
create_pipe-fault n caller t stack a m c u s (no_clone r w e e' e'') at_m at_c at_t apart h h' =
    let u1 = record u { read_end = r; write_end = w } in
    let u2 = record u1 { next = s.list_hd } in
    let u3 = record u2 { pid = negsuc 0 } in
    let s3 = record s { memory = update s.memory t (some u3); list_hd = some t } in
    let s4 = record s3 { memory = update s3.memory caller (some (record c { err = m.err })) } in
    rw
      (
        e,
        modify-done t (λ x. record x { read_end = r; write_end = w }) s at_t,
        e',
        modify-again t (λ x. record x { next = s.list_hd }) s.memory u1 s,
        e'',
        modify-again t (λ x. record x { pid = negsuc 0 }) s.memory u2
            (record s { list_hd = some t }),
        copy_err-done caller s3 m c (ground (arith, h')) (ground (arith, apart)),
        del_loop-front n t s4 {u = u3} h' (ground (arith, apart)),
      )
      (create_closepipe-fault t (record s4 { list_hd = s.list_hd }) {u = u3}
        (ground (arith, apart)))

-- Where mmap succeeds and pipe, malloc or clone then fails, do_create passes the stack that mmap returned
-- to free, which is undefined behaviour: none of its failures behind mmap is survived.
pub do_create_fault :
    (n caller t main stack : ℕ) (a : Answers) (m c u : Thread) (s : Process)
    → a.mmap ≡ some stack
    → Fails a
    → s.memory manager_thread ≡ some m
    → s.memory caller ≡ some c
    → s.memory t ≡ some u
    → caller ≢ t
    → caller ≢ manager_thread
    → t ≢ manager_thread
    → do_create (suc n) caller t main a s ≡ fault
unfolding do_create
do_create_fault n caller t main stack a m c u s mapped fails at_m at_c at_t apart h h' =
    let m0 = update s.memory caller (some (cleared c)) in
    let u1 = record u {
      main = main;
      running = false;
      status = pos 0;
      stacksize = def_stack_size;
    } in
    let u2 = record u1 { stack = stack } in
    rw
      (
        modify-done caller cleared s at_c,
        modify-done t
            (λ e. record e {
              main = main;
              running = false;
              status = pos 0;
              stacksize = def_stack_size;
            })
            (record s { memory = m0 }) {t = u} (ground (arith, apart)),
        mapped,
        modify-again t (λ e. record e { stack = stack }) m0 u1 s,
      )
      (create_pipe-fault n caller t stack a m (cleared c) u2
        (record s { memory = update m0 t (some u2) }) fails (ground (arith, h, h'))
        (ground (arith, apart)) (ground arith) apart h h')
