-- ===== src/Raft/Election/Others.antt =====
-- lab3-D/raft.go: what the other goroutines of a peer do to it during an election.
use cslearning.Prelude.{
  ◌∙◌, ap, ℕ, ◌-◌, ◌≡◌, refl, sym, subst, inl, inr, Run, done, panic, OnReturn, arith, length,
  OnReturn-elim, Bool-cases, index, slice_from, leb, ◌>>=◌, List,
}
use cslearning.Raft.Node.{
  Step, votes, appends, installs, snapshots, starts, ticks, runs, hears, wins, leads,
  entries_answered, snapshot_answered, commits, applies, dies, restarts,
}
use cslearning.Raft.Election.Tally.{Demotes}
use cslearning.Raft.State.{Raft, is_candidate, kill, Log, Cmd, persist, step_down, index_sub}
use cslearning.Raft.Vote.{RequestVoteArgs, request_vote, request_vote_tail}
use cslearning.Raft.Replication.{
  AppendEntriesArgs, AppendEntriesReply, append_entries, accept, learn_commit, see_leader,
}
use cslearning.Raft.Replication.Cases.{append_entries_cases}
use cslearning.Raft.Leader.{start, start_leader, reset_followers, entries_reply}
use cslearning.Raft.Commit.{push_to_followers, commit_scan_frame}
use cslearning.Raft.Snapshot.{
  InstallSnapshotArgs, see_snapshot, install_newer, install_snapshot_cases, snapshot_from,
  take_snapshot, install_snapshot, snapshot_reply,
}

Demotes-refl : (r : Raft) → Demotes r r
Demotes-refl r = record { same_peers = refl; same_term = λ c. (c, refl) }

Demotes-trans : (r s t : Raft) → Demotes r s → Demotes s t → Demotes r t
Demotes-trans r s t h k = record {
  same_peers = k.same_peers ∙ h.same_peers;
  same_term = λ c. (let (d, e) = k.same_term c in let (d', e') = h.same_term d in (d', e ∙ e'));
}

-- A peer with the role, term and peers of another.
same_role : (r s : Raft) → s.peers ≡ r.peers → s.state ≡ r.state → s.term ≡ r.term → Demotes r s
same_role r s p q e = record { same_peers = p; same_term = λ c. (ap is_candidate (sym q) ∙ c, e) }

request_vote-Demotes :
    (now : ℕ) (args : RequestVoteArgs) (r : Raft) → Demotes r (request_vote now args r).0
unfolding request_vote request_vote_tail step_down persist
request_vote-Demotes now args r = record { same_peers = ground arith; same_term = ground arith }

see_leader-Demotes :
    (now : ℕ) (args : AppendEntriesArgs) (r : Raft) → Demotes r (see_leader now args r)
unfolding see_leader step_down persist
see_leader-Demotes now args r = record { same_peers = ground arith; same_term = ground arith }

accept-Demotes : (at : ℕ) (args : AppendEntriesArgs) (r : Raft) → Demotes r (accept at args r).0
unfolding accept persist learn_commit
accept-Demotes at args r =
    same_role r (accept at args r).0 (ground arith) (ground arith) (ground arith)

append_entries-Demotes :
    (now : ℕ) (args : AppendEntriesArgs) (r : Raft)
    → OnReturn (append_entries now args r) (λ x. Demotes r x.0)
append_entries-Demotes now args r =
    let seen = see_leader-Demotes now args r in
    let s = see_leader now args r in
    append_entries_cases (Demotes r) args now r (Demotes-refl r) seen
      (λ at. Demotes-trans r s (accept at args s).0 seen (accept-Demotes at args s))

see_snapshot-Demotes :
    (now : ℕ) (args : InstallSnapshotArgs) (r : Raft) → Demotes r (see_snapshot now args r)
unfolding see_snapshot step_down persist
see_snapshot-Demotes now args r = record { same_peers = ground arith; same_term = ground arith }

install_newer-Demotes : (args : InstallSnapshotArgs) (r : Raft) → Demotes r (install_newer args r).0
unfolding install_newer persist
install_newer-Demotes args r =
    same_role r (install_newer args r).0 (ground arith) (ground arith) (ground arith)

install_snapshot-Demotes :
    (now : ℕ) (args : InstallSnapshotArgs) (r : Raft) → Demotes r (install_snapshot now args r).0
install_snapshot-Demotes now args r =
    let seen = see_snapshot-Demotes now args r in
    let s = see_snapshot now args r in
    install_snapshot_cases (Demotes r) now args r (Demotes-refl r) seen
      (λ _. Demotes-trans r s (install_newer args s).0 seen (install_newer-Demotes args s))

snapshot_from-Demotes :
    (i : ℕ) (snapshot : List ℕ) (r : Raft) (e : Log) (kept : List Log)
    → Demotes r (snapshot_from i snapshot r e kept)
unfolding snapshot_from persist reset_followers
snapshot_from-Demotes i snapshot r e kept =
    same_role r (snapshot_from i snapshot r e kept) refl refl refl

take_snapshot-Demotes :
    (i : ℕ) (snapshot : List ℕ) (r : Raft) → OnReturn (take_snapshot i snapshot r) (Demotes r)
unfolding take_snapshot
take_snapshot-Demotes i snapshot r = elim (Bool-cases (leb i r.last_snapshot_commit)) [
  | inl old ↦ rw old (Demotes-refl r)
  | inr new ↦ rw new (cut (index r.log (index_sub r i)) (slice_from r.log (index_sub r i)))
]
  where
    cut :
        (found : Run Log) (rest : Run (List Log))
        → OnReturn
            (found >>= λ e. (rest >>= λ kept. done (snapshot_from i snapshot r e kept)))
            (Demotes r)
    cut panic rest = tt
    cut (done e) panic = tt
    cut (done e) (done kept) = snapshot_from-Demotes i snapshot r e kept

push_to_followers-Demotes : (r : Raft) → Demotes r (push_to_followers r).0
unfolding push_to_followers
push_to_followers-Demotes r =
    let (c, e) = commit_scan_frame (length r.log - 1) r in
    let scanned =
      subst (Demotes r) (sym e) (same_role r (record r { commit_index = c }) refl refl refl) in
    ground (arith, scanned, Demotes-refl r)

entries_reply-Demotes :
    (i my_next : ℕ) (reply : AppendEntriesReply) (r : Raft)
    → Demotes r (entries_reply i my_next reply r)
unfolding entries_reply step_down persist
entries_reply-Demotes i my_next reply r = record {
  same_peers = ground arith;
  same_term = ground arith;
}

snapshot_reply-Demotes : (i reply_term : ℕ) (r : Raft) → Demotes r (snapshot_reply i reply_term r)
unfolding snapshot_reply step_down persist
snapshot_reply-Demotes i reply_term r = record {
  same_peers = ground arith;
  same_term = ground arith;
}

start-Demotes : (cmd : Cmd) (r : Raft) → Demotes r (start cmd r).0
unfolding start persist
start-Demotes cmd r = same_role r (start cmd r).0 (ground arith) (ground arith) (ground arith)

start_leader-Demotes : (r : Raft) → Demotes r (start_leader r)
unfolding start_leader reset_followers
start_leader-Demotes r = same_role r (start_leader r) refl refl refl

-- The steps that the goroutine of an election does not take itself, nor a restart.
abbrev IsOther : {r s : Raft} → Step r s → Type 0
IsOther (ticks now ms) = ⊥
IsOther (runs now) = ⊥
IsOther (hears n reply) = ⊥
IsOther (wins n) = ⊥
IsOther (restarts now e) = ⊥
IsOther _ = Unit

Step-Demotes : {r s : Raft} (step : Step r s) → IsOther step → Demotes r s
unfolding kill
Step-Demotes {r = r} (votes now args) other = request_vote-Demotes now args r
Step-Demotes {r = r} (appends now args reply e) other =
    OnReturn-elim (λ x. Demotes r x.0) (append_entries now args r) _
      (append_entries-Demotes now args r) e
Step-Demotes {r = r} (installs now args) other = install_snapshot-Demotes now args r
Step-Demotes {r = r} (snapshots i snapshot e) other =
    OnReturn-elim (Demotes r) (take_snapshot i snapshot r) _ (take_snapshot-Demotes i snapshot r) e
Step-Demotes {r = r} (starts cmd) other = start-Demotes cmd r
Step-Demotes {r = r} leads other = start_leader-Demotes r
Step-Demotes {r = r} (entries_answered i my_next reply) other =
    entries_reply-Demotes i my_next reply r
Step-Demotes {r = r} (snapshot_answered i reply_term) other = snapshot_reply-Demotes i reply_term r
Step-Demotes {r = r} commits other = push_to_followers-Demotes r
Step-Demotes {r = r} (applies at) other =
    same_role r (record r { last_applied = at }) refl refl refl
Step-Demotes {r = r} dies other = same_role r (kill r) refl refl refl
Step-Demotes (ticks now ms) other = absurd other
Step-Demotes (runs now) other = absurd other
Step-Demotes (hears n reply) other = absurd other
Step-Demotes (wins n) other = absurd other
Step-Demotes (restarts now e) other = absurd other

-- Any number of such steps.
pub data OthersRun (r : Raft) : Raft → Type 0 where
  nothing : OthersRun r r
  more : {s t : Raft} → OthersRun r s → (step : Step s t) → IsOther step → OthersRun r t

pub OthersRun-Demotes : {r s : Raft} → OthersRun r s → Demotes r s
OthersRun-Demotes {r} nothing = Demotes-refl r
OthersRun-Demotes {r} (more {s} {t} run step other) =
    Demotes-trans r s t (OthersRun-Demotes run) (Step-Demotes step other)
