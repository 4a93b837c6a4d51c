-- ===== src/Raft/Node/Durable/Restart.antt =====
-- lab3-D/raft.go: `Make` on what `persist` wrote.
use cslearning.Prelude.{◌∙◌, ℕ, ◌≡◌, refl, sym, some, List, [], ◌∷◌, arith, subst, Returns}
use cslearning.Raft.State.{Raft, Log, Field, int, logs, make, zero_log, text}
use cslearning.Raft.Node.Durable.{Alike, StartsAt, Holds, Stored}

-- What a restart brings back.
pub record Recovers (r r' : Raft) : Type 0 where
  pub same_term : r'.term ≡ r.term
  pub same_vote : r'.voted_for ≡ r.voted_for
  pub same_log : Alike r.log r'.log
  pub same_commit : r'.last_snapshot_commit ≡ r.last_snapshot_commit
  pub same_snapshot_term : r'.last_snapshot_term ≡ r.last_snapshot_term
  pub stored : Stored r'

Alike-trans : (l m n : List Log) → Alike l m → Alike l n → Alike m n
Alike-trans [] m n h k = absurd h
Alike-trans (x ∷ l) [] n h k = absurd h
Alike-trans (x ∷ l) (y ∷ m) [] h k = absurd k
Alike-trans (x ∷ l) (y ∷ m) (z ∷ n) h k = (sym h.0 ∙ k.0, sym h.1 ∙ k.1)

-- The first entry as `Make` sets it, beside the entries of a log.
Alike-reset :
    (x : Log) (l m : List Log) (t : ℕ)
    → Alike (x ∷ l) m
    → StartsAt t m
    → Alike m (record { term = t; cmd = text "" } ∷ l)
Alike-reset x l [] t h first = absurd h
Alike-reset x l (y ∷ m) t h first = (first, sym h.1)

Alike-head : (x : Log) (l m : List Log) (t : ℕ) → Alike (x ∷ l) m → StartsAt t m → x.term ≡ t
Alike-head x l [] t h first = absurd h
Alike-head x l (y ∷ m) t h first = h.0 ∙ first

recovers :
    (r : Raft) (fs : List Field) (snapshot : List ℕ) (n me now : ℕ)
    → StartsAt r.last_snapshot_term r.log
    → Holds r fs
    → Returns (make fs n me (record { raft_state = fs; snapshot = snapshot }) now) (Recovers r)
unfolding make
recovers r [] snapshot n me now first h = record {
  same_term = sym h.0;
  same_vote = sym h.1;
  same_log = ground (arith, Alike-reset zero_log [] r.log r.last_snapshot_term h.2 first);
  same_commit = sym h.3;
  same_snapshot_term = sym h.4;
  stored = record { starts_at = refl; holds = (refl, refl, (refl, refl), refl, refl) };
}
recovers r (int (some t) ∷ int v ∷ logs (x ∷ l) ∷ int (some c) ∷ int (some s) ∷ []) snapshot n me
      now first h =
    let first_s = subst (λ u. StartsAt u r.log) (sym h.4) first in
    record {
      same_term = h.0;
      same_vote = h.1;
      same_log = Alike-reset x l r.log s h.2 first_s;
      same_commit = h.3;
      same_snapshot_term = h.4;
      stored = record {
        starts_at = refl;
        holds = (refl, refl, (Alike-head x l r.log s h.2 first_s, refl), refl, refl);
      };
    }
recovers r (int (some t) ∷ int v ∷ logs [] ∷ int (some c) ∷ int (some s) ∷ []) snapshot n me now
      first h =
    absurd h.2
recovers r _ snapshot n me now first h = absurd h

-- A crash forgets nothing that Raft must remember: from a peer whose state is on disk, `Make` reads
-- back without a panic the same term, vote, snapshot index and term, and the same log up to
-- the command of its first entry, which stands for the snapshot; and that state is on disk again.
pub make-Recovers :
    (r : Raft) (now : ℕ)
    → Stored r
    → Returns (make r.persister.raft_state r.peers r.me r.persister now) (Recovers r)
make-Recovers r now v =
    recovers r r.persister.raft_state r.persister.snapshot r.peers r.me now v.starts_at v.holds
