-- ===== src/Raft/Node/Durable/Handlers.antt =====
-- lab3-D/raft.go: what each handler and goroutine leaves on disk.
use cslearning.Prelude.{
  pos, negsuc, OnReturn, ◌-◌, ℕ, zero, suc, ◌+◌, ◌<◌, ◌≡◌, refl, sym, inl, inr, List, [], ◌∷◌, ◌++◌,
  Run, done, panic, arith, subst, Bool-cases, leb, length, ◌==◌, take, ℤ, ◌>>=◌, drop, index,
  slice_from,
}
use cslearning.Raft.State.{Raft, Log, persist, step_down, term_at, Cmd, index_sub}
use cslearning.Raft.Vote.{
  RequestVoteArgs, RequestVoteReply, request_vote, ticker, start_election, receive_vote,
  finish_election,
}
use cslearning.Raft.Replication.{
  AppendEntriesArgs, AppendEntriesReply, append_entries, append_loop, accept, learn_commit,
  see_leader,
}
use cslearning.Raft.Replication.Cases.{append_entries_cases}
use cslearning.Raft.Leader.{start, entries_reply}
use cslearning.Raft.Commit.{push_to_followers, commit_scan_frame}
use cslearning.Raft.Snapshot.{
  InstallSnapshotArgs, see_snapshot, install_snapshot_cases, snapshot_from, install_newer, trimmed,
  blank_first, take_snapshot, install_snapshot, snapshot_reply,
}
use cslearning.Raft.Node.Durable.{StartsAt, Stored, Alike-refl}

pub request_vote-Stored :
    (now : ℕ) (args : RequestVoteArgs) (r : Raft) → Stored r → Stored (request_vote now args r).0
unfolding request_vote persist
request_vote-Stored now args r v = ground (arith, Alike-refl r.last_snapshot_term r.log)

pub append-StartsAt : (t : ℕ) (l es : List Log) → StartsAt t l → StartsAt t (l ++ es)
append-StartsAt t [] es h = absurd h
append-StartsAt t (e ∷ l) es h = h

pub take-StartsAt :
    (t at : ℕ) (l es : List Log) → 0 < at → StartsAt t l → StartsAt t (take at l ++ es)
take-StartsAt t zero l es above h = absurd (omega arith)
take-StartsAt t (suc at) [] es above h = absurd h
take-StartsAt t (suc at) (e ∷ l) es above h = h

pub append_loop-StartsAt :
    (t at : ℕ) (es l : List Log) → 0 < at → StartsAt t l → StartsAt t (append_loop at es l)
unfolding append_loop
append_loop-StartsAt t at [] l above h = h
append_loop-StartsAt t at (e ∷ es) l above h =
    append_loop-StartsAt t (at + 1) es _ (omega arith) (elim (Bool-cases (leb (length l) at)) [
      | inl past ↦ rw past (append-StartsAt t l (e ∷ []) h)
      | inr within ↦ rw within (elim (Bool-cases (term_at l at == e.term)) [
        | inl same ↦ rw same h
        | inr other ↦ rw other (take-StartsAt t at l (e ∷ []) above h)
      ])
    ])

pub accept-Stored :
    (at : ℕ) (args : AppendEntriesArgs) (r : Raft) → Stored r → Stored (accept at args r).0
unfolding accept persist learn_commit
accept-Stored at args r v = ground (
  arith,
  append_loop-StartsAt r.last_snapshot_term (at + 1) args.entries r.log (omega arith) v.starts_at,
  Alike-refl r.last_snapshot_term (append_loop (at + 1) args.entries r.log),
)

pub see_leader-Stored :
    (now : ℕ) (args : AppendEntriesArgs) (r : Raft) → Stored r → Stored (see_leader now args r)
unfolding see_leader persist
see_leader-Stored now args r v = ground (arith, Alike-refl r.last_snapshot_term r.log)

pub append_entries-Stored :
    (now : ℕ) (args : AppendEntriesArgs) (r : Raft)
    → Stored r
    → OnReturn (append_entries now args r) (λ x. Stored x.0)
append_entries-Stored now args r v =
    let seen = see_leader-Stored now args r v in
    append_entries_cases Stored args now r v seen
      (λ at. accept-Stored at args (see_leader now args r) seen)

pub drop-StartsAt :
    (t at : ℕ) (l : List Log) → at < length l → term_at l at ≡ t → StartsAt t (drop at l)
drop-StartsAt t at [] h e = absurd (omega arith)
drop-StartsAt t zero (x ∷ l) h e = e
drop-StartsAt t (suc at) (x ∷ l) h e = drop-StartsAt t at l (omega arith) e

pub trimmed-StartsAt :
    (args : InstallSnapshotArgs) (r : Raft) → StartsAt args.last_included_term (trimmed args r)
unfolding trimmed
trimmed-StartsAt args r = ground (
  arith,
  drop-StartsAt args.last_included_term (args.last_included_index - r.last_snapshot_commit) r.log,
)

pub install_newer-Stored :
    (args : InstallSnapshotArgs) (r : Raft) → Stored r → Stored (install_newer args r).0
unfolding install_newer persist
install_newer-Stored args r v =
    ground (arith, trimmed-StartsAt args r, Alike-refl args.last_included_term (trimmed args r))

pub see_snapshot-Stored :
    (now : ℕ) (args : InstallSnapshotArgs) (r : Raft) → Stored r → Stored (see_snapshot now args r)
unfolding see_snapshot persist
see_snapshot-Stored now args r v = ground (arith, Alike-refl r.last_snapshot_term r.log)

pub install_snapshot-Stored :
    (now : ℕ) (args : InstallSnapshotArgs) (r : Raft)
    → Stored r
    → Stored (install_snapshot now args r).0
install_snapshot-Stored now args r v =
    let seen = see_snapshot-Stored now args r v in
    install_snapshot_cases Stored now args r v seen (λ _. install_newer-Stored args _ seen)

pub cut-StartsAt :
    (l : List Log) (p : ℤ) (e : Log)
    → index l p ≡ done e
    → OnReturn (slice_from l p) (λ kept. StartsAt e.term (blank_first kept))
cut-StartsAt l (negsuc p) e h = cc
cut-StartsAt [] (pos p) e h = cc
cut-StartsAt (x ∷ l) (pos zero) e h = ground arith
cut-StartsAt (x ∷ l) (pos (suc p)) e h = ground (arith, cut-StartsAt l (pos p) e)

pub snapshot_from-Stored :
    (i : ℕ) (snapshot : List ℕ) (r : Raft) (e : Log) (kept : List Log)
    → StartsAt e.term (blank_first kept)
    → Stored (snapshot_from i snapshot r e kept)
unfolding snapshot_from persist
snapshot_from-Stored i snapshot r e kept h = record {
  starts_at = h;
  holds = (refl, refl, Alike-refl e.term (blank_first kept) h, refl, refl);
}

pub take_snapshot-Stored :
    (i : ℕ) (snapshot : List ℕ) (r : Raft) → Stored r → OnReturn (take_snapshot i snapshot r) Stored
unfolding take_snapshot
take_snapshot-Stored i snapshot r v = elim (Bool-cases (leb i r.last_snapshot_commit)) [
  | inl old ↦ rw old v
  | inr new ↦ rw new (cut (index r.log p) refl (slice_from r.log p) refl)
]
  where
    p : ℤ
    p = index_sub r i

    cut :
        (found : Run Log)
        → index r.log p ≡ found
        → (rest : Run (List Log)) → slice_from r.log p ≡ rest
        → OnReturn
            (found >>= λ e. (rest >>= λ kept. done (snapshot_from i snapshot r e kept)))
            Stored
    cut panic e rest e' = tt
    cut (done x) e panic e' = tt
    cut (done x) e (done kept) e' = snapshot_from-Stored i snapshot r x kept (
        subst (λ m. OnReturn m (λ kept. StartsAt x.term (blank_first kept))) e'
          (cut-StartsAt r.log p x e))

pub start-Stored : (cmd : Cmd) (r : Raft) → Stored r → Stored (start cmd r).0
unfolding start persist
start-Stored cmd r v = ground (
  arith,
  append-StartsAt r.last_snapshot_term r.log (record { term = r.term; cmd = cmd } ∷ []) v.starts_at,
  Alike-refl r.last_snapshot_term (r.log ++ record { term = r.term; cmd = cmd } ∷ []),
)

pub start_election-Stored : (now : ℕ) (r : Raft) → Stored r → Stored (start_election now r).0
unfolding start_election persist
start_election-Stored now r v = ground (arith, Alike-refl r.last_snapshot_term r.log)

pub receive_vote-Stored :
    (n : ℕ) (reply : RequestVoteReply) (r : Raft) → Stored r → Stored (receive_vote n reply r).0
unfolding receive_vote persist step_down
receive_vote-Stored n reply r v = ground (arith, Alike-refl r.last_snapshot_term r.log)

pub entries_reply-Stored :
    (i my_next : ℕ) (reply : AppendEntriesReply) (r : Raft)
    → Stored r
    → Stored (entries_reply i my_next reply r)
unfolding entries_reply persist
entries_reply-Stored i my_next reply r v = ground (arith, Alike-refl r.last_snapshot_term r.log)

pub snapshot_reply-Stored :
    (i reply_term : ℕ) (r : Raft) → Stored r → Stored (snapshot_reply i reply_term r)
unfolding snapshot_reply persist
snapshot_reply-Stored i reply_term r v = ground (arith, Alike-refl r.last_snapshot_term r.log)

pub push_to_followers-Stored : (r : Raft) → Stored r → Stored (push_to_followers r).0
unfolding push_to_followers
push_to_followers-Stored r v =
    let (c, e) = commit_scan_frame (length r.log - 1) r in
    let scanned = subst Stored (sym e) (record { starts_at = v.starts_at; holds = v.holds }) in
    ground (arith, scanned)

pub ticker-Stored : (now ms : ℕ) (r : Raft) → Stored r → Stored (ticker now ms r).0
unfolding ticker
ticker-Stored now ms r v = ground arith

pub finish_election-Stored : (n : ℕ) (r : Raft) → Stored r → Stored (finish_election n r).0
unfolding finish_election
finish_election-Stored n r v = ground arith
