-- ===== src/Lab3C/Beside/Always.antt =====
-- lab3-C/raft.go: the first entry of the log over all that a peer does, restarts included.
use cslearning.Prelude.{
  not, ◌||◌, ℕ, zero, suc, ◌-◌, ◌≡◌, refl, sym, subst, some, List, [], ◌∷◌, length, leb, ltb, ◌==◌,
  ◌&&◌, ◌||◌, not, Run, done, panic, Bool-cases, inl, inr, arith, OnReturn, OnReturn-elim, ◌>>=◌,
  none, Option, ◌+◌, pos, index,
}
use cslearning.Raft.State.{Field, int, logs, Persister, is_leader, term_at, Log}
use cslearning.Raft.Replication.{AppendEntriesArgs, AppendEntriesReply}
use cslearning.Raft.Commit.{ApplyMsg, command_msg}
use cslearning.Lab3C.State.{Raft, make, kill, persist, killed}
use cslearning.Lab3C.Vote.{ticker, finish_election, majority}
use cslearning.Lab3C.Leader.{start_leader, leader_round, entries_reply, build_all}
use cslearning.Lab3C.Commit.{
  commit_visit, commit_scan, push_to_followers, reach_to_commit, others_holding,
}
use cslearning.Lab3C.Node.{
  Step, votes, appends, starts, ticks, runs, hears, wins, leads, sends, answered, commits, applies,
  dies, restarts, Reach, here, next,
}
use cslearning.Lab3C.Beside.{SavedIsRooted, Sound}
use cslearning.Lab3C.Beside.Roots.{
  kept-Sound, request_vote-Sound, append_entries-Sound, start-Sound, start_election-Sound,
  receive_vote-Sound,
}

-- Only `commitIndex` changes.
visit_frame :
    (n k : ℕ) (c rest : Raft)
    → rest ≡ record c { commit_index = k }
    → (k' : ℕ) × (commit_visit n c rest ≡ record c { commit_index = k' })
visit_frame n k c rest h = elim (Bool-cases (ltb c.commit_index n)) [
  | inr over ↦ (c.commit_index, rw over refl)
  | inl more ↦
      elim (Bool-cases (
        leb (majority c) (1 + others_holding c.me n 0 c.match_index)
        && term_at c.log n == c.term)) [
          | inl stops ↦ (n, rw (more, stops) refl)
          | inr goes_on ↦ (k, rw (more, goes_on) h)
        ]
]

pub scan_frame : (n : ℕ) (c : Raft) → (k : ℕ) × (commit_scan n c ≡ record c { commit_index = k })
unfolding commit_scan
scan_frame zero c = (c.commit_index, refl)
scan_frame (suc n) c =
    let (k, below) = scan_frame n c in visit_frame (suc n) k c (commit_scan n c) below

pub push_frame : (c : Raft) → (k : ℕ) × ((push_to_followers c).0 ≡ record c { commit_index = k })
unfolding push_to_followers
push_frame c = elim (Bool-cases (leb (length c.log) (c.commit_index + 1))) [
  | inl full ↦ (c.commit_index, rw full refl)
  | inr short ↦ elim (Bool-cases (killed c || not (is_leader c.state))) [
    | inl over ↦ (c.commit_index, rw (short, over) refl)
    | inr at_work ↦ rw (short, at_work) (scan_frame (length c.log - 1) c)
  ]
]

entries_reply-Sound :
    (i sent : ℕ) (reply : AppendEntriesReply) (c : Raft)
    → Sound c
    → Sound (entries_reply i sent reply c)
unfolding entries_reply persist
entries_reply-Sound i sent reply c h = record {
  rooted = ground (arith, h.rooted);
  saved = ground (arith, h.rooted, h.saved);
}

make-Sound :
    (fs : List Field) (n me now : ℕ) (p : Persister)
    → SavedIsRooted fs
    → SavedIsRooted p.raft_state
    → OnReturn (make fs n me p now) Sound
unfolding make
make-Sound [] n me now p h k = record { rooted = refl; saved = k }
make-Sound (int (some t) ∷ int v ∷ logs l ∷ []) n me now p h k = record { rooted = h; saved = k }
make-Sound _ n me now p h k = absurd h

-- Only the time changes, and only `lastApplied`.
pub round_frame :
    (now : ℕ) (c : Raft)
    → OnReturn (leader_round now c) (λ out. (t : ℕ) × (out.0 ≡ record c { time = t }))
unfolding leader_round
round_frame now c = elim (Bool-cases (killed c || not (is_leader c.state))) [
  | inl no_more ↦ rw no_more (c.time, refl)
  | inr goes_on ↦ rw goes_on (sent_frame (build_all c.peers 0 c))
]
  where
    sent_frame :
        (m : Run (List (ℕ × AppendEntriesArgs × ℕ)))
        → OnReturn
            (◌>>=◌ {B = Raft × Option (List (ℕ × AppendEntriesArgs × ℕ))} m
              (λ sent. done (record c { time = now }, some sent)))
            (λ out. (t : ℕ) × (out.0 ≡ record c { time = t }))
    sent_frame panic = tt
    sent_frame (done sent) = (now, refl)

abbrev pub Applied : Raft → Option (Raft × ApplyMsg) → Type 0
Applied c none = Unit {0}
Applied c (some (s, msg)) = (k : ℕ) × (s ≡ record c { last_applied = k })

pub reach_frame : (c : Raft) → OnReturn (reach_to_commit c) (Applied c)
unfolding reach_to_commit
reach_frame c = elim (Bool-cases (killed c || leb c.commit_index c.last_applied)) [
  | inl idle ↦ rw idle tt
  | inr due ↦ rw due (handed (index c.log (pos (c.last_applied + 1))))
]
  where
    handed :
        (m : Run Log)
        → OnReturn
            (◌>>=◌ {B = Option (Raft × ApplyMsg)} m (λ e. done (
              some (
                record c { last_applied = c.last_applied + 1 },
                command_msg e.cmd (c.last_applied + 1),
              ))))
            (Applied c)
    handed panic = tt
    handed (done e) = (c.last_applied + 1, refl)

-- A peer whose log begins with the entry that `Make` puts there, in memory and in what is on disk
-- if anything is, keeps it: each step of a handler or goroutine leaves it first, and so does a
-- restart. Its log is never empty.
pub Step-Sound : {c s : Raft} → Step c s → Sound c → Sound s
unfolding start_leader kill ticker finish_election
Step-Sound {c} (votes args reply e) h =
    OnReturn-elim (λ x. Sound x.0) _ _ (request_vote-Sound args c h) e
Step-Sound {c} (appends now args reply e) h =
    OnReturn-elim (λ x. Sound x.0) _ _ (append_entries-Sound now args c h) e
Step-Sound {c} (starts cmd) h = start-Sound cmd c h
Step-Sound {c} (ticks now ms) h = kept-Sound c (ticker now ms c).0 (ground arith) (ground arith) h
Step-Sound {c} (runs now args e) h =
    OnReturn-elim (λ x. Sound x.0) _ _ (start_election-Sound now c h) e
Step-Sound {c} (hears n reply) h = receive_vote-Sound n reply c h
Step-Sound {c} (wins n) h = kept-Sound c (finish_election n c).0 (ground arith) (ground arith) h
Step-Sound leads h = record { rooted = h.rooted; saved = h.saved }
Step-Sound {c} (sends now out e) h =
    let (t, same) =
      OnReturn-elim (λ x. (t : ℕ) × (x.0 ≡ record c { time = t })) _ _ (round_frame now c) e in
    subst Sound (sym same) (record { rooted = h.rooted; saved = h.saved })
Step-Sound {c} (answered i sent reply) h = entries_reply-Sound i sent reply c h
Step-Sound {c} commits h =
    subst Sound (sym (push_frame c).1) (record { rooted = h.rooted; saved = h.saved })
Step-Sound {c} (applies msg e) h =
    let (k, same) = OnReturn-elim (Applied c) _ _ (reach_frame c) e in
    subst Sound (sym same) (record { rooted = h.rooted; saved = h.saved })
Step-Sound dies h = record { rooted = h.rooted; saved = h.saved }
Step-Sound {c} (restarts now e) h =
    OnReturn-elim Sound _ _ (make-Sound _ c.peers c.me now c.persister h.saved h.saved) e

pub Reach-Sound : {c s : Raft} → Reach c s → Sound c → Sound s
Reach-Sound here h = h
Reach-Sound (next w st) h = Step-Sound st (Reach-Sound w h)
