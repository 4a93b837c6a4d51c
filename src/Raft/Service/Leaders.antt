-- ===== src/Raft/Service/Leaders.antt =====
-- lab3-D/test.go: `checkOneLeader`, which looks for the leader of the highest term among the
-- connected servers, and fails the test where two lead in one term.
pub mod Found
use cslearning.Prelude.{
  ℕ, zero, suc, ◌+◌, Bool, true, false, Option, none, some, List, [], ◌∷◌, ltb, ◌==◌, ◌&&◌, ◌||◌,
  if◌then◌else◌,
}
use cslearning.Raft.State.{Raft, get_state}

-- a server's peer, and whether it is connected
pub record Server : Type 0 where
  pub connected : Bool
  pub peer : Raft

-- `leaders`: the number and the term of each connected server that says it leads, from number `i` on
unfoldable pub leaders_from : ℕ → List Server → List (ℕ × ℕ)
unfolding get_state
leaders_from i [] = []
leaders_from i (s ∷ rest) =
    let others = leaders_from (i + 1) rest in
    let (term, leads) = get_state s.peer in
    if s.connected && leads then (i, term) ∷ others else others

abbrev pub has_term : ℕ → List (ℕ × ℕ) → Bool
has_term term [] = false
has_term term (x ∷ l) = x.1 == term || has_term term l

-- `len(leaders) > 1` for some term
abbrev pub shares_term : List (ℕ × ℕ) → Bool
shares_term [] = false
shares_term (x ∷ l) = has_term x.1 l || shares_term l

-- `lastTermWithLeader` with its first leader
abbrev pub last_leader : List (ℕ × ℕ) → Option (ℕ × ℕ)
last_leader [] = none
last_leader (x ∷ l) = elim (last_leader l) [
  | none ↦ some x
  | some y ↦ if ltb x.1 y.1 then some y else some x
]

-- What a round comes to: the test fails, a leader, or another round.
pub data Check : Type 0 where
  fails : Check
  found : ℕ → Check
  again : Check

unfoldable pub check_round : List Server → Check
unfolding leaders_from
check_round srvs =
    let l = leaders_from 0 srvs in
    if shares_term l then fails else elim (last_leader l) [ none ↦ again | some x ↦ found x.0 ]

-- `checkOneLeader`, over the servers as each of its rounds finds them: `none` is the failed test.
unfoldable pub check_one_leader : List (List Server) → Option ℕ
unfolding check_round
check_one_leader [] = none
check_one_leader (srvs ∷ rounds) =
    let rest = check_one_leader rounds in
    elim (check_round srvs) [ fails ↦ none | found i ↦ some i | again ↦ rest ]
