-- ===== src/Lab3C/Beside/Others.antt =====
-- lab3-C/raft.go beside lab3-D/raft.go: `Start`, the replies to a leader, and `Make`.
use cslearning.Prelude.{
  ℕ, ◌+◌, ◌-◌, ◌≡◌, refl, some, List, [], ◌∷◌, ◌++◌, length, set, replicate, get_or, ltb, done,
  Bool-cases, inl, inr, OnReturn,
}
use cslearning.Raft.State.{
  Cmd, Field, int, logs, Persister, is_leader, persist as full_persist, make as full_make,
  index_add,
}
use cslearning.Raft.Replication.{AppendEntriesReply}
use cslearning.Raft.Leader.{
  start as full_start, entries_reply as full_entries_reply, next_try as full_next_try,
}
use cslearning.Lab3C.State.{Raft, make, persist}
use cslearning.Lab3C.Leader.{start, entries_reply}
use cslearning.Lab3C.Beside.{Extra, lift, SavedIsRooted, pad}

pub start-Beside :
    (x : Extra) (cmd : Cmd) (c : Raft)
    → (x' : Extra) × ((full_start cmd (lift x c)).0 ≡ lift x' (start cmd c).0)
unfolding start full_start persist full_persist index_add
start-Beside x cmd c = elim (Bool-cases (is_leader c.state)) [
  | inl first ↦
      let last = length (c.log ++ record { term = c.term; cmd = cmd } ∷ []) + 0 - 1 in
      (
        record x {
          next_index = set x.next_index c.me (last + 1);
          match_index = set x.match_index c.me last;
        },
        rw first refl,
      )
  | inr idle ↦ (x, rw idle refl)
]

pub entries_reply-Beside :
    (x : Extra) (i sent : ℕ) (reply : AppendEntriesReply) (c : Raft)
    → (x' : Extra) × (full_entries_reply i sent reply (lift x c)
        ≡ lift x' (entries_reply i sent reply c))
unfolding entries_reply full_entries_reply persist full_persist
entries_reply-Beside x i sent reply c = elim (Bool-cases (ltb c.term reply.term)) [
  | inl newer ↦ (x, rw newer refl)
  | inr older ↦ elim (Bool-cases reply.success) [
    | inl success ↦ (
      record x {
        next_index = set x.next_index i sent;
        match_index = set x.match_index i (sent - 1);
      },
      rw (older, success) refl,
    )
    | inr failure ↦ (
      record x {
        next_index =
            set x.next_index i (full_next_try reply.hint (get_or x.next_index i 0) (lift x c));
      },
      rw (older, failure) refl,
    )
  ]
]

pub make-Beside :
    (fs : List Field) (n me now : ℕ) (p : Persister)
    → SavedIsRooted fs
    → OnReturn (make fs n me p now) (λ c.
      (x : Extra) × (full_make
          (pad fs)
          n
          me
          (record { raft_state = pad p.raft_state; snapshot = [] })
          now
        ≡ done (lift x c)))
unfolding make full_make
make-Beside [] n me now p h = (
  record {
    time = now;
    commit_index = 0;
    last_applied = 0;
    next_index = replicate n 0;
    match_index = replicate n 0;
  },
  refl,
)
make-Beside (int (some t) ∷ int v ∷ logs [] ∷ []) n me now p h = absurd h
make-Beside (int (some t) ∷ int v ∷ logs (e ∷ es) ∷ []) n me now p h = (
  record {
    time = now;
    commit_index = 0;
    last_applied = 0;
    next_index = replicate n 0;
    match_index = replicate n 0;
  },
  rw h refl,
)
make-Beside _ n me now p h = absurd h
