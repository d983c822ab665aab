-- ===== src/Shell.antt =====
-- hw1/part_two.c: the shell. Jobs has its job list, Line the background mark of a command line.
pub mod Jobs
pub mod Line
pub mod Parse
pub mod Pipeline
pub mod Main
