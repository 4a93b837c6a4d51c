-- ===== src/Raft/Commit/Apply.antt =====
-- lab3-D/raft.go: what `ReachToCommit` hands to the service.
use cslearning.Prelude.{
  ap₂, le→leb, ◌||◌, ℕ, zero, suc, ◌+◌, ◌-◌, ◌≤◌, ◌<◌, ◌≡◌, refl, sym, ap, ◌∙◌, false, some, List,
  [], ◌∷◌, ◌++◌, length, length-append, take, drop, get_or, leb, arith, done, length-take,
  length-drop, pos,
}
use cslearning.Raft.State.{Raft, Log, zero_log, killed, index_sub}
use cslearning.Raft.Commit.{ApplyMsg, command_msg, slice, take_batch, send_batch, reach_to_commit}

-- The messages for the `n` entries of a log from position `i` on, the first of them at index `at`.
abbrev pub commands : List Log → ℕ → ℕ → ℕ → List ApplyMsg
commands l i at zero = []
commands l i at (suc n) = command_msg (get_or l i zero_log).cmd at ∷ commands l (i + 1) (at + 1) n

commands-tail :
    (x : Log) (l : List Log) (i at n : ℕ) → commands (x ∷ l) (suc i) at n ≡ commands l i at n
commands-tail x l i at zero = refl
commands-tail x l i at (suc n) = ground (arith, commands-tail x l (i + 1) (at + 1) n)

send_batch_messages :
    (at : ℕ) (es : List Log) (r : Raft) → (send_batch at es r).1 ≡ commands es 0 at (length es)
unfolding send_batch
send_batch_messages at [] r = refl
send_batch_messages at (x ∷ es) r =
    ap (λ ms. command_msg x.cmd at ∷ ms)
      (send_batch_messages (at + 1) es (record r { last_applied = at })
        ∙ sym (commands-tail x es 0 (at + 1) (length es)))

send_batch_state :
    (at : ℕ) (x : Log) (es : List Log) (r : Raft)
    → (send_batch at (x ∷ es) r).0 ≡ record r { last_applied = at + length es }
unfolding send_batch
send_batch_state at x [] r = ap (λ a. record r { last_applied = a }) (omega arith)
send_batch_state at x (y ∷ es) r =
    send_batch_state (at + 1) y es (record r { last_applied = at })
    ∙ ap (λ a. record r { last_applied = a }) (omega arith)

send_batch_last :
    (at : ℕ) (es : List Log) (r : Raft)
    → 0 < length es
    → (send_batch at es r).0 ≡ record r { last_applied = at + length es - 1 }
send_batch_last at [] r h = absurd (omega arith)
send_batch_last at (x ∷ es) r h =
    send_batch_state at x es r ∙ ap (λ a. record r { last_applied = a }) (omega arith)

commands-nil : (i j at n : ℕ) → commands [] i at n ≡ commands [] j at n
commands-nil i j at zero = refl
commands-nil i j at (suc n) =
    ap (λ ms. command_msg zero_log.cmd at ∷ ms) (commands-nil (i + 1) (j + 1) (at + 1) n)

commands-drop : (l : List Log) (i at n : ℕ) → commands (drop i l) 0 at n ≡ commands l i at n
commands-drop l zero at n = refl
commands-drop [] (suc i) at n = commands-nil 0 (suc i) at n
commands-drop (x ∷ l) (suc i) at n = commands-drop l i at n ∙ sym (commands-tail x l i at n)

get_or-take : (l : List Log) (m i : ℕ) (d : Log) → i < m → get_or (take m l) i d ≡ get_or l i d
get_or-take l zero i d h = absurd (omega arith)
get_or-take [] (suc m) i d h = refl
get_or-take (x ∷ l) (suc m) zero d h = refl
get_or-take (x ∷ l) (suc m) (suc i) d h = get_or-take l m i d (omega arith)

commands-take :
    (l : List Log) (i at n m : ℕ) → i + n ≤ m → commands (take m l) i at n ≡ commands l i at n
commands-take l i at zero m h = refl
commands-take l i at (suc n) m h = rw (get_or-take l m i zero_log (omega arith)) (
    ap (λ ms. command_msg (get_or l i zero_log).cmd at ∷ ms)
      (commands-take l (i + 1) (at + 1) n m (omega arith)))

take-append : (j : ℕ) (l spare : List Log) → j ≤ length l → take j (l ++ spare) ≡ take j l
take-append zero l spare h = refl
take-append (suc j) [] spare h = absurd (omega arith)
take-append (suc j) (x ∷ l) spare h = rw (take-append j l spare (omega arith)) refl

batch_read :
    (l spare : List Log) (i j : ℕ)
    → i ≤ j
    → j ≤ length l
    → slice l spare (pos i) j ≡ done (drop i (take j l))
batch_read l spare i j h k =
    rw
      (
        take-append j l spare k,
        le→leb i (length (take j l)) (omega (arith, length-take j l)),
        le→leb j (length (l ++ spare)) (omega (arith, length-append l spare)),
      )
      refl

index_sub_above :
    (r : Raft) (i : ℕ)
    → r.last_snapshot_commit ≤ i
    → index_sub r i ≡ pos (i - r.last_snapshot_commit)
unfolding index_sub
index_sub_above r i h = ground arith

take_batch_lem :
    (spare : List Log) (r : Raft)
    → r.last_snapshot_commit ≤ r.last_applied
    → r.last_applied ≤ r.commit_index
    → r.commit_index < r.last_snapshot_commit + length r.log
    → take_batch spare r
      ≡ done (
          drop
            (r.last_applied + 1 - r.last_snapshot_commit)
            (take (r.commit_index + 1 - r.last_snapshot_commit) r.log))
unfolding take_batch
take_batch_lem spare r a b c =
    rw (index_sub_above r (r.commit_index + 1) (omega arith), take_batch)
      (rw (index_sub_above r (r.last_applied + 1) (omega arith))
        (batch_read r.log spare _ _ (omega arith) (omega arith)))

-- A turn of `ReachToCommit` on a live peer whose last applied entry lies between its snapshot and
-- its `commitIndex`, and whose log reaches that far: the read of the log does not
-- panic, whatever lies in memory past the log, and the service gets the commands of the indices
-- after `lastApplied` up to `commitIndex`, each once and in order, and `lastApplied` becomes
-- `commitIndex`.
pub reach_to_commit_applies :
    (spare : List Log) (r : Raft)
    → r.last_snapshot_commit ≤ r.last_applied
    → r.last_applied < r.commit_index
    → r.commit_index < r.last_snapshot_commit + length r.log
    → killed r ≡ false
    → reach_to_commit spare r
      ≡ done (
          some (
            record r { last_applied = r.commit_index },
            commands r.log
                (r.last_applied + 1 - r.last_snapshot_commit)
                (r.last_applied + 1)
                (r.commit_index - r.last_applied),
          ))
unfolding reach_to_commit
reach_to_commit_applies spare r a b c lives =
    rw (waits, take_batch_lem spare r a (omega arith) c)
      (ap (λ x. done (some x))
        (ap₂ both
          (send_batch_last (r.last_applied + 1) batch r (omega (arith, batch_length))
            ∙ ap (λ n. record r { last_applied = n }) (omega (arith, batch_length)))
          (send_batch_messages (r.last_applied + 1) batch r
            ∙ ap (commands batch 0 (r.last_applied + 1)) batch_length
            ∙ commands-drop (take j r.log) i (r.last_applied + 1) (r.commit_index - r.last_applied)
            ∙ commands-take r.log i (r.last_applied + 1) (r.commit_index - r.last_applied) j
                (omega arith))))
  where
    i : ℕ
    i = r.last_applied + 1 - r.last_snapshot_commit

    j : ℕ
    j = r.commit_index + 1 - r.last_snapshot_commit

    batch : List Log
    batch = drop i (take j r.log)

    batch_length : length batch ≡ r.commit_index - r.last_applied
    batch_length = omega (arith, length-drop i (take j r.log), length-take j r.log)

    both : Raft → List ApplyMsg → Raft × List ApplyMsg
    both x y = (x, y)

    waits : (leb r.commit_index r.last_applied || killed r) ≡ false
    waits = ground arith
