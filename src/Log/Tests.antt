-- ===== src/Log/Tests.antt =====
-- The log on a concrete disk.
use unix_c_shell.Common.{some, ◌≤◌, ◌<◌, ◌≡◌, refl, ◌⊎◌, inr, true, false, [], ◌∷◌, arith}
use unix_c_shell.Log.{
  Log, update, initlog, is_logged, log_write, end_op, end_commit, commit, begin_op, copy_block,
  unpin, unpack_head,
}
use unix_c_shell.Log.Commit.{IsReady}
use unix_c_shell.Log.Crash.{crash_disk, commit_atomic}
use unix_c_shell.Log.Reserve.{
  Calls, begin, write, finish, commit_log, leave, Reach, here, next, Returns, log_never_full,
}

-- Every block is empty, but block 100 has new content in the cache and is logged; the log starts at 2.
abbrev ready : Log
ready = record {
  start = 2;
  outstanding = 0;
  committing = true;
  ncommit = 0;
  lh = 100 ∷ [];
  cache = update (λ _. 0 ∷ []) 100 (7 ∷ []);
  pins = λ _. 0;
  disk = λ _. 0 ∷ [];
  trace = [];
}

ready-IsReady : IsReady ready
unfolding unpack_head is_logged
ready-IsReady = record {
  clear = refl;
  some_logged = omega arith;
  fits = omega arith;
  apart = (inr (omega arith), tt);
  synced = λ x o h. ground arith;
}

-- A crash after the log and the header are written.
commit_atomic_example :
    (2 ≤ 1) × ((initlog 2 (crash_disk ready 2)).disk 100 ≡ 0 ∷ [])
    ⊎ (1 < 2) × ((initlog 2 (crash_disk ready 2)).disk 100 ≡ 7 ∷ [])
commit_atomic_example = commit_atomic ready ready-IsReady 2 100 (inr (omega arith))

-- One call has begun, with its 10 blocks left.
abbrev quiet : Log
quiet = record ready { committing = false; lh = [] }

abbrev begun : Log
begun = record quiet { outstanding = 1 }

-- The call logs a block and ends, its commit is done, and another call begins.
abbrev logged : Log
logged = record begun { lh = 100 ∷ []; pins = update (λ _. 0) 100 1 }

abbrev ended : Log
ended = record logged { outstanding = 0; committing = true }

abbrev again : Log
again = record (end_commit (commit ended)) { outstanding = 1 }

abbrev nothing_runs : Calls
nothing_runs = record { log = quiet; left = []; to_commit = 0; committed = 0 }

again_step : begin_op (end_commit (commit ended)) ≡ some again
unfolding begin_op end_commit commit copy_block unpin
again_step = refl

again-Reach :
    Reach nothing_runs (record { log = again; left = 10 ∷ []; to_commit = 0; committed = 0 })
unfolding begin_op log_write end_op
again-Reach =
    next
      (next
        (next
          (next
            (next (next here (begin nothing_runs begun refl))
              (write [] [] 9 100 _ logged refl refl))
            (finish [] [] 9 true _ ended refl refl))
          (commit_log _ 0 refl))
        (leave _ 0 refl))
      (begin _ again again_step)

log_never_full_example : (0 < 10 → Returns (log_write 7 again)) × Returns (end_op again)
log_never_full_example =
    log_never_full quiet (record { log = again; left = 10 ∷ []; to_commit = 0; committed = 0 }) []
      [] 10 7 refl refl refl again-Reach refl
