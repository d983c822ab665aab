-- ===== src/Kersync/Abandoned.antt =====
-- Events of hw3/group/TURNED_IN_Qiyuan_Qiguang/kersync/kersync.c that are closed while processes are
-- in the midst of calls on them.
use cs.Base.{ℕ, Bool, ◌≡◌, ◌≢◌, true, false, Option, none, some, arith}
use cs.Base.Int.{ℤ}
use cs.Base.Family.{update}
use cs.Kersync.{
  Kernel, doevent_open, count_up, count_down, lock_event, wait_check, wait_leave, sig_body,
  close_body,
}
use cs.Kersync.Calls.{
  closing, System, go_on, start_count, allocated, Step, open_event, enter, count, enter_close,
  check, sleep_on, leave, signal, drop, close,
}
use cs.Kersync.Links.{occurs, Links, list_del-occurs}
use cs.Kersync.Lookup.{Entered, Unlinked, enter-Entered, close-Unlinked}

-- An event that no call can find and that no close is about to free.
pub record IsAbandoned (a : ℕ) (s : System) : Type 0 where
  pub unlinked : occurs a s.kernel.event_list ≡ false
  pub unclosed : (j : ℕ) → s.pc j ≢ closing a
  pub there : allocated (s.kernel.heap a) ≡ true

Entered-IsAbandoned :
    (a i : ℕ) (signals : Bool) (p : Option (ℕ × ℤ)) (k' : Kernel) (s : System)
    → IsAbandoned a s
    → Entered s.kernel p k'
    → IsAbandoned a (record { kernel = k'; pc = update s.pc i (start_count signals p) })
Entered-IsAbandoned a i signals p k' s g (Entered.missed e same) =
    rw (e, same)
      (record {
        unlinked = g.unlinked;
        unclosed = λ j h. ground (arith, g.unclosed j);
        there = g.there;
      })
Entered-IsAbandoned a i signals p k' s g (Entered.found b e is listed there same) =
    rw (is, same)
      (record {
        unlinked = g.unlinked;
        unclosed = λ j h. ground (arith, g.unclosed j);
        there = ground (arith, g.there);
      })

Unlinked-IsAbandoned :
    (a i : ℕ) (p : Option ℕ) (k' : Kernel) (s : System)
    → IsAbandoned a s
    → Unlinked s.kernel p k'
    → IsAbandoned a (record { kernel = k'; pc = update s.pc i (go_on closing p) })
Unlinked-IsAbandoned a i p k' s g (Unlinked.missed e same) =
    rw (e, same)
      (record {
        unlinked = g.unlinked;
        unclosed = λ j h. ground (arith, g.unclosed j);
        there = g.there;
      })
Unlinked-IsAbandoned a i p k' s g (Unlinked.found b is listed same) =
    rw (is, same)
      (record {
        unlinked = ground (arith, g.unlinked, list_del-occurs b a s.kernel.event_list);
        unclosed = λ j h. ground (arith, g.unclosed j, g.unlinked);
        there = g.there;
      })

pub Step-IsAbandoned :
    {n : ℕ} {s t : System} (a : ℕ) → Step n s t → IsAbandoned a s → IsAbandoned a t
unfolding doevent_open count_up count_down wait_check wait_leave sig_body close_body lock_event
Step-IsAbandoned a (open_event i none lt at free fresh run e) g = rw e (record {
  unlinked = ground (arith, g.unlinked);
  unclosed = λ j h. ground (arith, g.unclosed j);
  there = ground (arith, g.there);
})
Step-IsAbandoned a (open_event i (some b) lt at free fresh run e) g = rw e (record {
  unlinked = ground (arith, g.unlinked);
  unclosed = λ j h. ground (arith, g.unclosed j);
  there = ground (arith, g.there);
})
Step-IsAbandoned {s = s} a (enter i signals id {p} {k} lt at free run e) g =
    rw e (Entered-IsAbandoned a i signals p k s g (enter-Entered id s.kernel k p run))
Step-IsAbandoned a (count i b signals c at run e) g = rw e (record {
  unlinked = ground (arith, g.unlinked);
  unclosed = λ j h. ground (arith, g.unclosed j);
  there = ground (arith, g.there);
})
Step-IsAbandoned a (drop i b c at run e) g = rw e (record {
  unlinked = ground (arith, g.unlinked);
  unclosed = λ j h. ground (arith, g.unclosed j);
  there = ground (arith, g.there);
})
Step-IsAbandoned {s = s} a (enter_close i id {p} {k} lt at free run e) g =
    rw e (Unlinked-IsAbandoned a i p k s g (close-Unlinked id s.kernel k p run))
Step-IsAbandoned a (check i b at free run e) g = rw e (record {
  unlinked = ground (arith, g.unlinked);
  unclosed = λ j h. ground (arith, g.unclosed j);
  there = ground (arith, g.there);
})
Step-IsAbandoned a (sleep_on i b at e) g = rw e (record {
  unlinked = g.unlinked;
  unclosed = λ j h. ground (arith, g.unclosed j);
  there = g.there;
})
Step-IsAbandoned a (leave i b at free run e) g = rw e (record {
  unlinked = ground (arith, g.unlinked);
  unclosed = λ j h. ground (arith, g.unclosed j);
  there = ground (arith, g.there);
})
Step-IsAbandoned a (signal i b at free run e) g = rw e (record {
  unlinked = ground (arith, g.unlinked);
  unclosed = λ j h. ground (arith, g.unclosed j);
  there = ground (arith, g.there);
})
Step-IsAbandoned a (close i b at free run e) g = rw e (record {
  unlinked = ground (arith, g.unlinked);
  unclosed = λ j h. ground (arith, g.unclosed j);
  there = ground (arith, g.there, g.unclosed i);
})
