-- ===== src/Xv6/Tests.antt =====
-- The log, the pipe and the copies of p5/xv6-public on concrete states.
use cs537_group_projects.Base.{
  update, update-apart, inl, true, ◌+◌, ◌<◌, ◌≤◌, ◌≡◌, inr, refl, ap, arith, [], ◌∷◌, some, none,
  false,
}
use cs537_group_projects.Xv6.Blocks.{Machine, buffer_data, bread, restart}
use cs537_group_projects.Xv6.Log.{Log, commit, recover_from_log, begin_op, max_op_blocks}
use cs537_group_projects.Xv6.Log.Recovery.{attempts}
use cs537_group_projects.Xv6.Log.Commit.{Ready}
use cs537_group_projects.Xv6.Log.Atomic.{commit-all_or_nothing}
use cs537_group_projects.Xv6.Log.Reserve.{Reachable, Reserved, Step, fresh}
use cs537_group_projects.Xv6.Log.Safe.{at, Reachable-Reserved}
use cs537_group_projects.Xv6.Pipe.{Pipe, pipewrite, read_from, piperead}
use cs537_group_projects.Xv6.Pipe.Window.{used, Bounded}
use cs537_group_projects.Xv6.Pipe.Fifo.{Appends, Answers, pipe-queue}
use cs537_group_projects.Xv6.Strings.{copy_up, memmove, user_memmove, safestrcpy}
use cs537_group_projects.Xv6.Strings.Moves.{Moved, memmove-Moved}
use cs537_group_projects.Xv6.Strings.Ended.{Ended, safestrcpy-Ended}

abbrev one_logged : Log
one_logged = record {
  start = 2;
  size = 31;
  outstanding = 0;
  committing = false;
  n = 1;
  block = λ _. 50;
}

-- Block 50 is changed in the cache; the power is for the copy and the header.
abbrev changed : Machine
changed = record { disk = λ _ _. 0; cache = update (λ _. none) 50 (some (λ _. 9)); power = 2 }

changed-Ready : Ready one_logged changed
unfolding bread buffer_data
changed-Ready = record {
  fits = omega arith;
  homes = λ i h. inr (omega arith);
  empty = refl;
  clean = λ x other.
      ap (λ o. buffer_data o (λ _. 0))
        (update-apart (λ _. none) 50 (some (λ _. 9)) x
          (λ e. other 0 (omega arith) (omega (arith, e))));
}

commit-all_or_nothing_example :
    let end =
      recover_from_log one_logged
        (restart 2 (attempts one_logged (1 ∷ 0 ∷ []) (commit one_logged changed))) in
    (changed.power ≤ one_logged.n → end.disk 50 ≡ changed.disk 50)
    × (one_logged.n < changed.power → end.disk 50 ≡ bread changed 50)
    × (end.disk one_logged.start 0 ≡ 0)
commit-all_or_nothing_example =
    commit-all_or_nothing one_logged changed 50 (1 ∷ 0 ∷ []) 2 changed-Ready (inr (omega arith))
      (omega arith)

recovered_word :
    (recover_from_log one_logged
        (restart 2 (attempts one_logged (1 ∷ 0 ∷ []) (commit one_logged changed)))).disk
      50 3
    ≡ 9
unfolding recover_from_log restart attempts commit bread buffer_data update
recovered_word = ap (λ d. d 3) (commit-all_or_nothing_example.1 (omega arith))

abbrev begun : Log
begun = record (fresh 2 30 (λ _. 0)).log { outstanding = 1 }

begun-Reachable : Reachable (at begun (max_op_blocks ∷ []))
unfolding begin_op
begun-Reachable = Reachable.after (Reachable.at_start 2 30 (λ _. 0)) (Step.begins begins_once)
  where
    begins_once : begin_op (fresh 2 30 (λ _. 0)).log ≡ some begun
    begins_once = refl

Reachable-Reserved_example : Reserved (at begun (max_op_blocks ∷ []))
Reachable-Reserved_example = Reachable-Reserved begun-Reachable

-- Two bytes, whose indices have just wrapped, and room for 510 more.
abbrev wrapped : Pipe
wrapped = record {
  data_at = λ i. i;
  nread = 4294967295;
  nwrite = 1;
  readopen = true;
  writeopen = true;
}

wrapped-Bounded : Bounded wrapped
unfolding used
wrapped-Bounded = record { read_word = omega arith; write_word = omega arith; room = omega arith }

pipe-queue_example :
    Appends false 3 0 (λ i. i + 7) wrapped (pipewrite false wrapped (λ i. i + 7) 3)
    × Answers false 5 wrapped (piperead false wrapped 5)
pipe-queue_example = pipe-queue false wrapped (λ i. i + 7) 3 5 wrapped-Bounded

wrapped_read : (read_from 5 wrapped).0 ≡ 511 ∷ 0 ∷ []
unfolding read_from
wrapped_read = refl

-- Three bytes moved up by one, over themselves.
memmove-Moved_example : Moved 11 10 3 (λ i. i) (memmove 11 10 3 (λ i. i))
memmove-Moved_example = memmove-Moved 11 10 3 (λ i. i)

-- `memmove` of ulib.c copies the first byte over the others.
user_overlap : user_memmove 11 10 3 (λ i. i) 13 ≡ 10
unfolding user_memmove copy_up update
user_overlap = refl

safestrcpy-Ended_example : Ended 0 10 4 (λ i. i) (safestrcpy 0 10 4 (λ i. i))
safestrcpy-Ended_example = safestrcpy-Ended 0 10 4 (λ i. i) (omega arith) (inl (omega arith))
