-- ===== src/Raft/Node/Durable.antt =====
-- lab3-D/raft.go: what a peer must not forget, and what it means that it is on disk.
pub mod Handlers
pub mod Restart
pub mod Always
use cslearning.Prelude.{
  OnReturn-elim, done-injective, ◌∙◌, pos, negsuc, OnReturn, ◌-◌, ℕ, zero, suc, ◌+◌, ◌≤◌, ◌<◌, ◌≡◌,
  refl, sym, ◌⊎◌, inl, inr, Bool, true, false, Option, none, some, List, [], ◌∷◌, ◌++◌, Run, done,
  panic, arith, subst, Bool-cases, leb, length, ◌==◌, take, ℤ, Returns, ◌>>=◌, Option-cases, drop,
  ltb, index, slice_from,
}
use cslearning.Raft.State.{
  Raft, Log, Field, int, logs, Persister, persist, step_down, make, read_persist, reset_first,
  blank, kill, zero_log, term_at, Cmd, text, index_sub,
}
use cslearning.Raft.Vote.{
  RequestVoteArgs, RequestVoteReply, request_vote, ticker, start_election, receive_vote,
  finish_election,
}
use cslearning.Raft.Replication.{
  AppendEntriesArgs, AppendEntriesReply, append_entries, append_loop, accept, learn_commit,
  see_leader,
}
use cslearning.Raft.Replication.Cases.{append_entries_cases}
use cslearning.Raft.Leader.{start, start_leader, reset_followers, entries_reply}
use cslearning.Raft.Commit.{push_to_followers, commit_scan_frame}
use cslearning.Raft.Snapshot.{
  InstallSnapshotArgs, see_snapshot, install_snapshot_cases, snapshot_from, install_newer, trimmed,
  blank_first, skip_to, take_snapshot, install_snapshot, snapshot_reply,
}
use cslearning.Raft.Node.{
  Step, votes, appends, installs, snapshots, starts, ticks, runs, hears, wins, leads,
  entries_answered, snapshot_answered, commits, applies, dies, restarts, Reach, here, next,
}

-- The same entries but for the command of the first, which stands for the snapshot.
abbrev pub Alike : List Log → List Log → Type 0
Alike (e ∷ es) (f ∷ fs) = (e.term ≡ f.term) × (es ≡ fs)
Alike _ _ = ⊥

-- The first entry of a log stands for the snapshot's last.
abbrev pub StartsAt : ℕ → List Log → Type 0
StartsAt term [] = ⊥
StartsAt term (e ∷ es) = e.term ≡ term

-- The persisted values are the peer's own.
abbrev pub Holds : Raft → List Field → Type 0
Holds r (int (some t) ∷ int v ∷ logs l ∷ int (some c) ∷ int (some s) ∷ []) =
    (t ≡ r.term)
    × (v ≡ r.voted_for)
    × Alike l r.log
    × (c ≡ r.last_snapshot_commit)
    × (s ≡ r.last_snapshot_term)
Holds r [] =
    (r.term ≡ 0)
    × (r.voted_for ≡ none)
    × Alike (zero_log ∷ []) r.log
    × (r.last_snapshot_commit ≡ 0)
    × (r.last_snapshot_term ≡ 0)
Holds r _ = ⊥

pub record Stored (r : Raft) : Type 0 where
  pub starts_at : StartsAt r.last_snapshot_term r.log
  pub holds : Holds r r.persister.raft_state

pub Alike-refl : (t : ℕ) (l : List Log) → StartsAt t l → Alike l l
Alike-refl t [] h = h
Alike-refl t (e ∷ es) h = (refl, refl)
