-- ===== src/Raft/Service/Committed.antt =====
-- lab3-D/test.go: `nCommitted`.
use cslearning.Prelude.{
  ℕ, zero, suc, ◌+◌, ◌<◌, ◌≡◌, refl, sym, ap, ◌∙◌, inl, inr, true, false, Option, none, some, List,
  [], ◌∷◌, get_elem?, ltb, ◌&&◌, not, Option-cases, eq_refl, arith,
}
use cslearning.Raft.State.{Cmd, nil, text, command}
use cslearning.Raft.Service.{cmd_eq, Rfsrv, n_committed_from, n_committed}
use cslearning.Raft.Service.Agreement.{Agree}

-- how many servers have a value at an index
abbrev pub having : ℕ → List Rfsrv → ℕ
having i [] = 0
having i (rs ∷ srvs) = (elim (rs.logs i) [ none ↦ 0 | some _ ↦ 1 ]) + having i srvs

-- Every server that has a value at the index has this one.
abbrev pub AllHave : ℕ → Cmd → List Rfsrv → Type 0
AllHave i cmd srvs =
    (m : ℕ) (rs : Rfsrv) (v : Cmd) → get_elem? srvs m ≡ some rs → rs.logs i ≡ some v → v ≡ cmd

cmd_eq_refl : (v : Cmd) → cmd_eq v v ≡ true
cmd_eq_refl nil = refl
cmd_eq_refl (text s) = eq_refl s
cmd_eq_refl (command n) = ground arith

Agree-tail : (rs : Rfsrv) (srvs : List Rfsrv) → Agree (rs ∷ srvs) → Agree srvs
Agree-tail rs srvs agree m n i a b v w at_a at_b = agree (suc m) (suc n) i a b v w at_a at_b

some_eq : {A : Type 0} {x y : A} → some x ≡ some y → x ≡ y
some_eq e = cc

AllHave-cons :
    (i : ℕ) (c : Cmd) (rs : Rfsrv) (srvs : List Rfsrv)
    → ((v : Cmd) → rs.logs i ≡ some v → v ≡ c)
    → AllHave i c srvs
    → AllHave i c (rs ∷ srvs)
AllHave-cons i c rs srvs first rest zero x v at has =
    first v (ap (λ y. y.logs i) (some_eq at) ∙ has)
AllHave-cons i c rs srvs first rest (suc m) x v at has = rest m x v at has

goes_on :
    (count : ℕ) (cmd v : Cmd) → (0 < count → v ≡ cmd) → (ltb 0 count && not (cmd_eq cmd v)) ≡ false
goes_on zero cmd v same = refl
goes_on (suc count) cmd v same = rw (same (omega arith), cmd_eq_refl cmd) (ground arith)

-- The loop's result: the count, and a value that all have, which is `cmd` if `cmd` was a server's.
abbrev Counted : ℕ → ℕ → Cmd → List Rfsrv → Type 0
Counted i count cmd srvs =
    (c : Cmd) × (n_committed_from i count cmd srvs ≡ some (count + having i srvs, c))
    × AllHave i c srvs
    × (0 < count → c ≡ cmd)

clash : {o : Option Cmd} {v : Cmd} → o ≡ none → o ≡ some v → ⊥
clash e e' = cc

n_committed_from-Counted :
    (i count : ℕ) (cmd : Cmd) (srvs : List Rfsrv)
    → Agree srvs
    → (0 < count → AllHave i cmd srvs)
    → Counted i count cmd srvs
unfolding n_committed_from
n_committed_from-Counted i count cmd [] agree same =
    (cmd, ap (λ n. some (n, cmd)) (omega arith), (λ m rs v at has. cc), λ _. refl)
n_committed_from-Counted i count cmd (rs ∷ srvs) agree same = elim (Option-cases (rs.logs i)) [
  | inl none_here ↦
      let (c, e, all, keeps) =
        n_committed_from-Counted i count cmd srvs (Agree-tail rs srvs agree)
          (λ p m x v at has. same p (suc m) x v at has) in
      (
        c,
        rw none_here (e ∙ ap (λ n. some (n, c)) (omega arith)),
        AllHave-cons i c rs srvs (λ v has. absurd (clash none_here has)) all,
        keeps,
      )
  | inr (v, here) ↦
      let (c, e, all, keeps) =
        n_committed_from-Counted i (count + 1) v srvs (Agree-tail rs srvs agree)
          (λ p m x w at has. agree (suc m) 0 i x rs w v at refl has here) in
      (
        c,
        rw (here, goes_on count cmd v (λ p. same p 0 rs v refl here))
            (e ∙ ap (λ n. some (n, c)) (omega arith)),
        AllHave-cons i c rs srvs (λ w has. some_eq (sym has ∙ here) ∙ sym (keeps (omega arith)))
            all,
        λ p. keeps (omega arith) ∙ same p 0 rs v refl here,
      )
]

-- Where no two servers have different values at any index, `nCommitted` never fails the test: it returns
-- the number of servers that have a value at the index, and a value that all of those have.
pub n_committed_counts :
    (i : ℕ) (srvs : List Rfsrv)
    → Agree srvs
    → (c : Cmd) × (n_committed i srvs ≡ some (having i srvs, c)) × AllHave i c srvs
unfolding n_committed
n_committed_counts i srvs agree =
    let (c, e, all, _) = n_committed_from-Counted i 0 nil srvs agree (λ p. absurd (none_above p)) in
    (c, e ∙ ap (λ n. some (n, c)) (omega arith), all)
  where
    none_above : 0 < 0 → ⊥
    none_above p = omega arith
