-- ===== src/Lab3C/Beside/OneVote.antt =====
-- lab3-C/raft.go: the votes of a peer over all that it does, by way of lab3-D.
use cslearning.Prelude.{
  ℕ, ◌≡◌, refl, ap, sym, subst, ◌∙◌, true, [], done, Returns, Returns_imp, Returns-elim,
  Returns-done, panic, false, pos, negsuc, ℤ, ltb,
}
use cslearning.Raft.Vote.{RequestVoteArgs, RequestVoteReply, request_vote as full_request_vote}
use cslearning.Raft.Node.{Reach as FullReach}
use cslearning.Raft.Node.Durable.{Stored}
use cslearning.Raft.Node.OneVote.{Reach-Stored, one_vote_per_term}
use cslearning.Lab3C.State.{Raft, blank}
use cslearning.Lab3C.Vote.{request_vote, start_election}
use cslearning.Lab3C.Node.{Reach, votes}
use cslearning.Lab3C.Beside.{Extra, lift, Sound}
use cslearning.Lab3C.Beside.Votes.{request_vote-Beside, start_election-Beside}
use cslearning.Lab3C.Beside.Appends.{SameOutcome, heard, append_entries-Beside}
use cslearning.Lab3C.Append.{append_entries}
use cslearning.Lab3C.Checked.{
  append_entries_checked, append_entries-checked, stale_returns, negative_panics,
}
use cslearning.Raft.Replication.{AppendEntriesArgs, append_entries as full_append_entries}
use cslearning.Lab3C.Beside.Always.{Reach-Sound, Step-Sound}
use cslearning.Lab3C.Beside.Steps.{Reach-Follows}

abbrev pub fresh : ℕ → ℕ → ℕ → Raft
unfolding blank
fresh n me now = blank n me (record { raft_state = []; snapshot = [] }) now

abbrev pub unmarked : Extra
unmarked = record {
  time = 0;
  commit_index = 0;
  last_applied = 0;
  next_index = [];
  match_index = [];
}

pub fresh-Sound : (n me now : ℕ) → Sound (fresh n me now)
unfolding blank
fresh-Sound n me now = record { rooted = refl; saved = tt }

pub fresh-Stored : (n me now : ℕ) → Stored (lift unmarked (fresh n me now))
unfolding blank
fresh-Stored n me now = record { starts_at = refl; holds = (refl, refl, (refl, refl), refl, refl) }

-- A vote given by one version is given by the other.
granted :
    (x : Extra) (args : RequestVoteArgs) (c : Raft) {s : Raft} {reply : RequestVoteReply}
    → Sound c
    → request_vote args c ≡ done (s, reply)
    → full_request_vote 0 args (lift x c) ≡ (lift (record x { time = 0 }) s, reply)
granted x args c h e =
    Returns-elim
      (λ out. full_request_vote 0 args (lift x c) ≡ (lift (record x { time = 0 }) out.0, out.1)) _ _
      (request_vote-Beside x 0 args c h.rooted) e

-- One vote in each term, in lab3-C: if a peer that was made with nothing on disk grants two
-- requests of the same term, at any two moments of its run, whatever it does in between,
-- crashes and restarts included, then both come from the same candidate.
pub plain_one_vote :
    (n me now : ℕ) (a b : RequestVoteArgs) {c c₁ s s₁ : Raft} {first second : RequestVoteReply}
    → Reach (fresh n me now) c
    → request_vote a c ≡ done (c₁, first)
    → first.vote_granted ≡ true
    → Reach c₁ s
    → request_vote b s ≡ done (s₁, second)
    → second.vote_granted ≡ true
    → a.term ≡ b.term
    → a.candidate_id ≡ b.candidate_id
plain_one_vote n me now a b {c} {c₁} {s} {s₁} {first} {second} before e given run f again same =
    let sound_c = Reach-Sound before (fresh-Sound n me now) in
    let sound_c₁ = Step-Sound (votes a first e) sound_c in
    let sound_s = Reach-Sound run sound_c₁ in
    let (x, full_before) = Reach-Follows unmarked (fresh-Sound n me now) before in
    let full_first = granted x a c sound_c e in
    let (y, full_run) = Reach-Follows (record x { time = 0 }) sound_c₁ run in
    let full_second = granted y b s sound_s f in
    one_vote_per_term (lift x c) a b 0 0 (Reach-Stored full_before (fresh-Stored n me now))
      (ap (λ p. p.1.vote_granted) full_first ∙ given)
      (subst (λ r. FullReach r (lift y s)) (sym (ap (λ p. p.0) full_first)) full_run)
      (ap (λ p. p.1.vote_granted) full_second ∙ again) same

-- In any run of a peer that was made with nothing on disk, crashes and restarts included,
-- `RequestVote` returns on every request, the start of an election returns, and `AppendEntries`,
-- with every read of the log checked for its range, returns on every request that is stale or whose
-- `PrevLogIndex` is not negative, in the latter case with what the handler without those checks
-- returns; on any other request it panics.
pub reads_in_range :
    (n me now : ℕ) {c : Raft}
    → Reach (fresh n me now) c
    → ((args : RequestVoteArgs) → Returns (request_vote args c) (λ out. Unit {0}))
      × ((later : ℕ) → Returns (start_election later c) (λ out. Unit {0}))
      × ((later p : ℕ) (args : AppendEntriesArgs)
          → Returns
              (append_entries_checked later (pos p) args c)
              (λ out. append_entries later (record args { prev_log_index = p }) c ≡ done out))
      × ((later : ℕ) (p : ℤ) (args : AppendEntriesArgs)
          → ltb args.term c.term ≡ true
          → Returns (append_entries_checked later p args c) (λ out. out.1.success ≡ false))
      × ((later p : ℕ) (args : AppendEntriesArgs)
          → ltb args.term c.term ≡ false
          → append_entries_checked later (negsuc p) args c ≡ panic)
reads_in_range n me now {c} w =
    let sound = Reach-Sound w (fresh-Sound n me now) in
    (
      λ args.
          Returns_imp _ _ (request_vote args c) (λ out e. tt)
            (request_vote-Beside unmarked 0 args c sound.rooted),
      λ later.
          Returns_imp _ _ (start_election later c) (λ out e. tt)
            (start_election-Beside unmarked later c sound.rooted),
      λ later p args.
          subst
            (λ m.
              Returns m
                (λ out. append_entries later (record args { prev_log_index = p }) c ≡ done out))
            (sym (append_entries-checked later p args c))
            (returned later (record args { prev_log_index = p })),
      λ later p args. stale_returns later p args c,
      λ later p args. negative_panics later p args c,
    )
  where
    returned :
        (later : ℕ) (args : AppendEntriesArgs)
        → Returns (append_entries later args c) (λ out. append_entries later args c ≡ done out)
    returned later args =
        Returns-done
          (SameOutcome (heard unmarked later args c) c
            (full_append_entries later args (lift unmarked c)))
          (append_entries later args c) (append_entries-Beside unmarked later args c)
