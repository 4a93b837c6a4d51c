-- ===== src/Examples/Replication.antt =====
-- Logs that are appended to, searched, committed and applied.
use cslearning.Prelude.{
  ℕ, zero, suc, ◌≤◌, ◌<◌, ◌≡◌, ◌↔◌, refl, true, some, List, [], ◌∷◌, drop, done, panic, arith,
  OnReturn, Returns,
}
use cslearning.Raft.State.{Raft, Log, zero_log, command, leader, killed}
use cslearning.Raft.Replication.{AppendEntriesArgs, append_entries, append_loop}
use cslearning.Raft.Replication.Merge.{merge, append_loop-merge}
use cslearning.Raft.Replication.Outcome.{Outcome, append_entries_outcome}
use cslearning.Raft.Replication.Panic.{append_entries_panics}
use cslearning.Raft.Leader.{search_run, binary_search}
use cslearning.Raft.Leader.Search.{IsSorted, Located, binary_search-Located}
use cslearning.Raft.Commit.{push_to_followers, reach_to_commit}
use cslearning.Raft.Commit.Checked.{push_checked}
use cslearning.Raft.Commit.Quorum.{Highest, push-Highest}
use cslearning.Raft.Commit.Apply.{commands, reach_to_commit_applies}
use cslearning.Raft.Snapshot.{InstallSnapshotArgs, take_snapshot, install_snapshot}
use cslearning.Raft.Snapshot.Kept.{Kept, Installed, take_snapshot-Kept, install_snapshot-Installed}
use cslearning.Examples.Raft.{new_peer}

abbrev entry : ℕ → ℕ → Log
entry term n = record { term = term; cmd = command n }

-- A log and the leader's entries for it, which part at position 2.
abbrev ours : List Log
ours = zero_log ∷ entry 1 10 ∷ entry 1 11 ∷ []

abbrev theirs : List Log
theirs = entry 1 10 ∷ entry 2 20 ∷ entry 2 21 ∷ []

abbrev sent : AppendEntriesArgs
sent = record {
  term = 2;
  leader_id = 1;
  prev_log_index = 0;
  prev_log_term = 0;
  entries = theirs;
  leader_commit = 1;
}

abbrev working : Raft
working = record new_peer { log = ours; term = 1 }

merged : append_loop 1 theirs ours ≡ zero_log ∷ theirs
unfolding append_loop
merged = refl

append_loop-merge_example : append_loop 1 theirs ours ≡ zero_log ∷ merge (drop 1 ours) theirs
append_loop-merge_example = append_loop-merge 1 theirs ours (omega arith)

append_entries_outcome_example : OnReturn (append_entries 7 sent working) (Outcome sent ours 0)
append_entries_outcome_example = append_entries_outcome 7 sent working

abbrev compacted : Raft
compacted = record working { last_snapshot_commit = 5 }

append_entries_panics_example :
    (append_entries 7 sent compacted ≡ panic)
    ↔ ((compacted.term ≤ sent.term) × (sent.prev_log_index < compacted.last_snapshot_commit))
append_entries_panics_example = append_entries_panics 7 sent compacted

-- A leader of term 2 whose own entry is on two of three peers.
abbrev leading : Raft
leading = record new_peer {
  state = leader;
  term = 2;
  log = zero_log ∷ theirs;
  match_index = 3 ∷ 2 ∷ 0 ∷ [];
}

push-Highest_example :
    (push_checked leading ≡ done (push_to_followers leading))
    × Highest leading 3 (push_to_followers leading).0.commit_index
unfolding killed
push-Highest_example = push-Highest leading (omega arith) refl refl (omega arith)

commits_two : (push_to_followers leading).0.commit_index ≡ 2
unfolding push_to_followers
commits_two = refl

abbrev behind_two : Raft
behind_two = record leading { commit_index = 2 }

-- An old entry that a cut of the log has left in memory.
abbrev spare : List Log
spare = entry 1 99 ∷ []

reach_to_commit_applies_example :
    reach_to_commit spare behind_two
    ≡ done (some (record behind_two { last_applied = 2 }, commands (zero_log ∷ theirs) 1 1 2))
unfolding killed
reach_to_commit_applies_example =
    reach_to_commit_applies spare behind_two (omega arith) (omega arith) (omega arith) refl

ours-IsSorted : IsSorted ours
ours-IsSorted zero j le lt = ground arith
ours-IsSorted (suc zero) j le lt = ground arith
ours-IsSorted (suc (suc i)) j le lt = ground arith

binary_search-Located_example :
    (search_run ours 1 ≡ some (binary_search ours 1)) × Located ours 1 (binary_search ours 1)
binary_search-Located_example = binary_search-Located ours 1 ours-IsSorted

take_snapshot-Kept_example : Returns (take_snapshot 2 (7 ∷ []) leading) (Kept 2 (7 ∷ []) leading)
take_snapshot-Kept_example = take_snapshot-Kept 2 (7 ∷ []) leading (omega arith) (omega arith)

abbrev offered : InstallSnapshotArgs
offered = record {
  term = 3;
  leader_id = 1;
  last_included_index = 2;
  last_included_term = 2;
  offset = 0;
  bytes = 7 ∷ [];
  is_last = true;
}

install_snapshot-Installed_example :
    Installed offered leading (install_snapshot 9 offered leading).0
install_snapshot-Installed_example =
    install_snapshot-Installed 9 offered leading refl (omega arith) (omega arith)
