-- ===== src/Raft/Replication/Checked.antt =====
-- lab3-D/raft.go and lab3-C/raft.go: the two loops of `AppendEntries`, with every read of the log
-- checked for its range. The checks never fail, so that the handlers are written without them.
use cslearning.Prelude.{
  ℕ, zero, suc, ◌+◌, ◌≤◌, ◌<◌, ◌≡◌, refl, inl, inr, true, false, List, [], ◌∷◌, ◌++◌, leb, ◌==◌,
  if◌then◌else◌, length, get_or, take, pos, Run, done, panic, index, ◌>>=◌, Bool-cases, arith,
}
use cslearning.Raft.State.{Log, zero_log, term_at}
use cslearning.Raft.Replication.{back_up, append_one, append_loop}

-- `for index > 0 && rf.log[index-1].Term == reply.XTerm { index-- }`
unfoldable pub back_up_checked : List Log → ℕ → ℕ → Run ℕ
back_up_checked l term zero = done zero
back_up_checked l term (suc i) =
    let rest = back_up_checked l term i in
    index l (pos i) >>= λ e. if e.term == term then rest else done (suc i)

-- `rf.log[:at]`
abbrev pub slice_to : ℕ → List Log → Run (List Log)
slice_to at l = if leb at (length l) then done (take at l) else panic

unfoldable pub append_one_checked : ℕ → Log → List Log → Run (List Log)
append_one_checked at e l =
    if leb (length l) at
    then done (l ++ e ∷ [])
    else (index l (pos at) >>= λ old.
        if old.term == e.term then done l else (slice_to at l >>= λ kept. done (kept ++ e ∷ [])))

unfoldable pub append_loop_checked : ℕ → List Log → List Log → Run (List Log)
unfolding append_one_checked
append_loop_checked at [] l = done l
append_loop_checked at (e ∷ es) l = append_one_checked at e l >>= append_loop_checked (at + 1) es

pub read_at : (l : List Log) (i : ℕ) → i < length l → index l (pos i) ≡ done (get_or l i zero_log)
read_at [] i lt = absurd (omega arith)
read_at (e ∷ l) zero lt = refl
read_at (e ∷ l) (suc i) lt = read_at l i (omega arith)

pub back_up-checked :
    (l : List Log) (term i : ℕ) → i ≤ length l → back_up_checked l term i ≡ done (back_up l term i)
unfolding back_up_checked back_up
back_up-checked l term zero inside = refl
back_up-checked l term (suc i) inside =
    rw (read_at l i (omega arith), back_up-checked l term i (omega arith))
      (elim (Bool-cases (term_at l i == term)) [
        | inl same ↦ rw same refl
        | inr other ↦ rw other refl
      ])

pub append_one-checked :
    (at : ℕ) (e : Log) (l : List Log) → append_one_checked at e l ≡ done (append_one at e l)
unfolding append_one_checked append_one
append_one-checked at e l = elim (Bool-cases (leb (length l) at)) [
  | inl past ↦ rw past refl
  | inr inside ↦
      rw (inside, read_at l at (ground arith))
        (elim (Bool-cases (term_at l at == e.term)) [
          | inl same ↦ rw same refl
          | inr other ↦ rw (other, room inside) refl
        ])
]
  where
    room : leb (length l) at ≡ false → leb at (length l) ≡ true
    room h = ground arith

pub append_loop-checked :
    (at : ℕ) (es l : List Log) → append_loop_checked at es l ≡ done (append_loop at es l)
unfolding append_loop_checked append_loop
append_loop-checked at [] l = refl
append_loop-checked at (e ∷ es) l =
    rw (append_one-checked at e l) (append_loop-checked (at + 1) es (append_one at e l))
