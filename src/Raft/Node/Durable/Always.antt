-- ===== src/Raft/Node/Durable/Always.antt =====
-- lab3-D/raft.go: what is on disk between the steps of a peer.
use cslearning.Prelude.{OnReturn-elim, done-injective, ◌≡◌, Run, done, panic, subst, Returns}
use cslearning.Raft.State.{Raft, kill}
use cslearning.Raft.Leader.{start_leader, reset_followers}
use cslearning.Raft.Node.{
  Step, votes, appends, installs, snapshots, starts, ticks, runs, hears, wins, leads,
  entries_answered, snapshot_answered, commits, applies, dies, restarts,
}
use cslearning.Raft.Node.Durable.{Stored}
use cslearning.Raft.Node.Durable.Handlers.{
  request_vote-Stored, append_entries-Stored, install_snapshot-Stored, take_snapshot-Stored,
  start-Stored, start_election-Stored, receive_vote-Stored, entries_reply-Stored,
  snapshot_reply-Stored, push_to_followers-Stored, ticker-Stored, finish_election-Stored,
}
use cslearning.Raft.Node.Durable.Restart.{Recovers, make-Recovers}

restart-Stored : (m : Run Raft) (r r' : Raft) → Returns m (Recovers r) → m ≡ done r' → Stored r'
restart-Stored panic r r' h e = absurd h
restart-Stored (done s) r r' h e = subst Stored (done-injective e) h.stored

-- If the durable state of a peer (its term, vote, snapshot position and log, up to the command of
-- the log's first entry, which stands for the snapshot) is on disk, then it is on disk again after
-- each step of a handler or goroutine, and after a restart.
pub Step-Stored : {r r' : Raft} → Step r r' → Stored r → Stored r'
unfolding start_leader reset_followers kill
Step-Stored {r} (votes now args) v = request_vote-Stored now args r v
Step-Stored {r} (appends now args reply e) v =
    OnReturn-elim (λ x. Stored x.0) _ _ (append_entries-Stored now args r v) e
Step-Stored {r} (installs now args) v = install_snapshot-Stored now args r v
Step-Stored {r} (snapshots i snapshot e) v =
    OnReturn-elim Stored _ _ (take_snapshot-Stored i snapshot r v) e
Step-Stored {r} (starts cmd) v = start-Stored cmd r v
Step-Stored {r} (ticks now ms) v = ticker-Stored now ms r v
Step-Stored {r} (runs now) v = start_election-Stored now r v
Step-Stored {r} (hears n reply) v = receive_vote-Stored n reply r v
Step-Stored {r} (wins n) v = finish_election-Stored n r v
Step-Stored leads v = record { starts_at = v.starts_at; holds = v.holds }
Step-Stored {r} (entries_answered i my_next reply) v = entries_reply-Stored i my_next reply r v
Step-Stored {r} (snapshot_answered i reply_term) v = snapshot_reply-Stored i reply_term r v
Step-Stored {r} commits v = push_to_followers-Stored r v
Step-Stored (applies at) v = record { starts_at = v.starts_at; holds = v.holds }
Step-Stored dies v = record { starts_at = v.starts_at; holds = v.holds }
Step-Stored {r} {r'} (restarts now e) v = restart-Stored _ r r' (make-Recovers r now v) e
