-- ===== src/Raft/Node/Votes.antt =====
-- lab3-D/raft.go: what each handler and goroutine of a peer does to its term and vote.
use cslearning.Prelude.{
  dec_lt, ◌∙◌, dec_lt, ◌∙◌, ℕ, ◌-◌, ◌<◌, ◌≡◌, refl, sym, subst, ◌⊎◌, inl, inr, some, Run, done,
  panic, OnReturn, arith, length, Bool-cases, index, slice_from, leb, ◌>>=◌, List,
}
use cslearning.Raft.State.{Raft, Log, Cmd, persist, step_down, index_sub}
use cslearning.Raft.Vote.{
  RequestVoteArgs, RequestVoteReply, request_vote, ticker, start_election, receive_vote,
  finish_election,
}
use cslearning.Raft.Replication.{
  AppendEntriesArgs, AppendEntriesReply, append_entries, accept, learn_commit, see_leader,
}
use cslearning.Raft.Replication.Cases.{append_entries_cases}
use cslearning.Raft.Leader.{start, entries_reply}
use cslearning.Raft.Commit.{push_to_followers, commit_scan_frame}
use cslearning.Raft.Snapshot.{
  InstallSnapshotArgs, see_snapshot, install_newer, install_snapshot_cases, snapshot_from,
  take_snapshot, install_snapshot, snapshot_reply,
}

-- The term does not fall, and within a term a vote that is cast stays.
abbrev pub VoteKept : Raft → Raft → Type 0
VoteKept r s =
    (r.term < s.term)
    ⊎ ((s.term ≡ r.term) × ((c : ℕ) → r.voted_for ≡ some c → s.voted_for ≡ some c))

pub VoteKept-refl : (r : Raft) → VoteKept r r
VoteKept-refl r = inr (refl, λ c e. e)

pub VoteKept-trans : (r s t : Raft) → VoteKept r s → VoteKept s t → VoteKept r t
VoteKept-trans r s t (inl a) (inl b) = inl (omega arith)
VoteKept-trans r s t (inl a) (inr (e, k)) = inl (omega arith)
VoteKept-trans r s t (inr (e, k)) (inl b) = inl (omega arith)
VoteKept-trans r s t (inr (e, k)) (inr (e', k')) = inr (omega arith, λ c h. k' c (k c h))

-- Nothing that matters to the vote has changed.
pub same_vote : (r s : Raft) → s.term ≡ r.term → s.voted_for ≡ r.voted_for → VoteKept r s
same_vote r s e v = inr (e, λ c h. v ∙ h)

pub request_vote-VoteKept :
    (now : ℕ) (args : RequestVoteArgs) (r : Raft) → VoteKept r (request_vote now args r).0
unfolding request_vote persist
request_vote-VoteKept now args r = elim (dec_lt r.term args.term) [
  | yes newer ↦ inl (ground arith)
  | no older ↦ inr (ground arith, λ c e. ground arith)
]

pub see_leader-VoteKept :
    (now : ℕ) (args : AppendEntriesArgs) (r : Raft) → VoteKept r (see_leader now args r)
unfolding see_leader persist
see_leader-VoteKept now args r = elim (dec_lt r.term args.term) [
  | yes newer ↦ inl (ground arith)
  | no older ↦ inr (ground arith, λ c e. ground arith)
]

accept_vote :
    (at : ℕ) (args : AppendEntriesArgs) (r : Raft)
    → ((accept at args r).0.term ≡ r.term) × ((accept at args r).0.voted_for ≡ r.voted_for)
unfolding accept persist learn_commit
accept_vote at args r = ground arith

pub see_snapshot-VoteKept :
    (now : ℕ) (args : InstallSnapshotArgs) (r : Raft) → VoteKept r (see_snapshot now args r)
unfolding see_snapshot persist
see_snapshot-VoteKept now args r = elim (dec_lt r.term args.term) [
  | yes newer ↦ inl (ground arith)
  | no older ↦ inr (ground arith, λ c e. ground arith)
]

install_newer_vote :
    (args : InstallSnapshotArgs) (r : Raft)
    → ((install_newer args r).0.term ≡ r.term) × ((install_newer args r).0.voted_for ≡ r.voted_for)
unfolding install_newer persist
install_newer_vote args r = ground arith

pub receive_vote-VoteKept :
    (n : ℕ) (reply : RequestVoteReply) (r : Raft) → VoteKept r (receive_vote n reply r).0
unfolding receive_vote persist step_down
receive_vote-VoteKept n reply r = elim (dec_lt r.term reply.term) [
  | yes newer ↦ inl (ground arith)
  | no older ↦ inr (ground arith, λ c e. ground arith)
]

pub entries_reply-VoteKept :
    (i my_next : ℕ) (reply : AppendEntriesReply) (r : Raft)
    → VoteKept r (entries_reply i my_next reply r)
unfolding entries_reply persist
entries_reply-VoteKept i my_next reply r = elim (dec_lt r.term reply.term) [
  | yes newer ↦ inl (ground arith)
  | no older ↦ inr (ground arith, λ c e. ground arith)
]

pub snapshot_reply-VoteKept :
    (i reply_term : ℕ) (r : Raft) → VoteKept r (snapshot_reply i reply_term r)
unfolding snapshot_reply persist
snapshot_reply-VoteKept i reply_term r = elim (dec_lt r.term reply_term) [
  | yes newer ↦ inl (ground arith)
  | no older ↦ inr (ground arith, λ c e. ground arith)
]

pub start_election-VoteKept : (now : ℕ) (r : Raft) → VoteKept r (start_election now r).0
unfolding start_election persist
start_election-VoteKept now r = ground arith

pub append_entries-VoteKept :
    (now : ℕ) (args : AppendEntriesArgs) (r : Raft)
    → OnReturn (append_entries now args r) (λ x. VoteKept r x.0)
append_entries-VoteKept now args r =
    let seen = see_leader-VoteKept now args r in
    let s = see_leader now args r in
    append_entries_cases (VoteKept r) args now r (VoteKept-refl r) seen (λ at.
      VoteKept-trans r s (accept at args s).0 seen
        (same_vote s (accept at args s).0 (accept_vote at args s).0 (accept_vote at args s).1))

pub install_snapshot-VoteKept :
    (now : ℕ) (args : InstallSnapshotArgs) (r : Raft) → VoteKept r (install_snapshot now args r).0
install_snapshot-VoteKept now args r =
    let seen = see_snapshot-VoteKept now args r in
    let s = see_snapshot now args r in
    let newer = install_newer_vote args s in
    install_snapshot_cases (VoteKept r) now args r (VoteKept-refl r) seen (λ _.
      VoteKept-trans r s (install_newer args s).0 seen
        (same_vote s (install_newer args s).0 newer.0 newer.1))

snapshot_from_vote :
    (i : ℕ) (snapshot : List ℕ) (r : Raft) (e : Log) (kept : List Log)
    → VoteKept r (snapshot_from i snapshot r e kept)
unfolding snapshot_from persist
snapshot_from_vote i snapshot r e kept = inr (refl, λ c h. h)

pub take_snapshot-VoteKept :
    (i : ℕ) (snapshot : List ℕ) (r : Raft) → OnReturn (take_snapshot i snapshot r) (VoteKept r)
unfolding take_snapshot
take_snapshot-VoteKept i snapshot r = elim (Bool-cases (leb i r.last_snapshot_commit)) [
  | inl old ↦ rw old (VoteKept-refl r)
  | inr new ↦ rw new (cut (index r.log (index_sub r i)) (slice_from r.log (index_sub r i)))
]
  where
    cut :
        (found : Run Log) (rest : Run (List Log))
        → OnReturn
            (found >>= λ e. (rest >>= λ kept. done (snapshot_from i snapshot r e kept)))
            (VoteKept r)
    cut panic rest = tt
    cut (done e) panic = tt
    cut (done e) (done kept) = snapshot_from_vote i snapshot r e kept

pub push_to_followers-VoteKept : (r : Raft) → VoteKept r (push_to_followers r).0
unfolding push_to_followers
push_to_followers-VoteKept r =
    let (c, e) = commit_scan_frame (length r.log - 1) r in
    let scanned =
      subst (VoteKept r) (sym e) (same_vote r (record r { commit_index = c }) refl refl) in
    ground (arith, scanned, VoteKept-refl r)

pub start-VoteKept : (cmd : Cmd) (r : Raft) → VoteKept r (start cmd r).0
unfolding start persist
start-VoteKept cmd r = ground (arith, VoteKept-refl r)

pub ticker-VoteKept : (now ms : ℕ) (r : Raft) → VoteKept r (ticker now ms r).0
unfolding ticker
ticker-VoteKept now ms r = same_vote r (ticker now ms r).0 (ground arith) (ground arith)

pub finish_election-VoteKept : (n : ℕ) (r : Raft) → VoteKept r (finish_election n r).0
unfolding finish_election
finish_election-VoteKept n r = same_vote r (finish_election n r).0 (ground arith) (ground arith)
