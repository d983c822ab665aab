-- ===== src/Prinfo/Tests.antt =====
-- Runs of the process information call of hw2/group.
use cs.Base.{ℕ, ◌≡◌, refl, true, false, none, some, List, [], ◌∷◌}
use cs.Base.Outcome.{ok}
use cs.Prinfo.{Info, Task, cs2456_test}
use cs.Prinfo.Call.{IsAnswer}
use cs.Prinfo.Client.{Printf, sentences, table, no_such_pid, client}
use cs.Prinfo.Client.Rows.{Aligned, answers, client_lem}
use cs.Base.{arith}

abbrev asked : Info
asked = record {
  state = 0;
  nice = 0;
  pid = 50;
  parent_pid = 0;
  youngest_child_pid = 0;
  younger_sibling_pid = 0;
  older_sibling_pid = 0;
  start_time = 0;
  user_time = 0;
  sys_time = 0;
  cutime = 0;
  cstime = 0;
  uid = 0;
  comm = 7 ∷ 7 ∷ 7 ∷ 7 ∷ [];
}

abbrev task : Task
task = record {
  state = 1;
  nice = 0;
  pid = 50;
  parent_pid = 1;
  real_start_time = 9;
  utime = 4;
  stime = 2;
  uid = 500;
  comm = 115 ∷ 104 ∷ 0 ∷ 0 ∷ [];
  children =
      record { pid = 71; utime = 3; stime = 1 }
      ∷ record { pid = 64; utime = 4294967295; stime = 5 }
      ∷ [];
  visited = 80 ∷ 60 ∷ 40 ∷ 0 ∷ [];
}

-- A conversion that prints a number as one character.
abbrev digits : Printf
digits = record { ld = λ n. n ∷ []; d = λ n. n ∷ []; lu = λ n. n ∷ [] }

client_lem_example :
    (r : Info) × (rows : List (List ℕ)) × (client digits
        (λ _. 50)
        (λ _. true)
        3
        (λ _. some task)
        asked
        (some (53 ∷ 48 ∷ []))
      ≡ ok (table rows))
    × IsAnswer 3 asked task (115 ∷ 104 ∷ []) 80 (60 ∷ 40 ∷ 0 ∷ []) r
    × Aligned 42 sentences (answers digits r (115 ∷ 104 ∷ [])) rows
client_lem_example =
    client_lem digits (λ _. 50) (λ _. true) 3 (λ _. some task) asked (53 ∷ 48 ∷ []) task
      (115 ∷ 104 ∷ []) (0 ∷ []) 80 (60 ∷ 40 ∷ 0 ∷ []) refl refl refl (refl, (refl, tt))
      (omega arith) refl

client-no_pid : client digits (λ _. 50) (λ _. false) 3 (λ _. none) asked (some []) ≡ ok no_such_pid
unfolding client
client-no_pid = refl

younger_missed :
    cs2456_test 3 (λ _. some (record task { visited = 40 ∷ 60 ∷ 80 ∷ [] })) (some asked)
    ≡ ok (
        some (record asked {
          state = 1;
          parent_pid = 1;
          youngest_child_pid = 64;
          younger_sibling_pid = 40;
          older_sibling_pid = 40;
          start_time = 9;
          user_time = 4;
          sys_time = 2;
          cutime = 2;
          cstime = 6;
          uid = 500;
          comm = 115 ∷ 104 ∷ 0 ∷ 7 ∷ [];
        }))
unfolding cs2456_test
younger_missed = refl
