-- ===== src/Raft/Service/Leaders/Found.antt =====
-- lab3-D/test.go: what a round of `checkOneLeader` finds.
use cslearning.Prelude.{
  ℕ, zero, suc, ◌+◌, ◌≤◌, ◌<◌, ◌≡◌, refl, sym, subst, ◌∙◌, inl, inr, true, false, Option, none,
  some, List, [], ◌∷◌, ltb, ◌==◌, ◌&&◌, if◌then◌else◌, Bool-cases, get_elem?, arith,
}
use cslearning.Raft.State.{is_leader, get_state}
use cslearning.Raft.Service.Leaders.{
  Server, leaders_from, has_term, shares_term, last_leader, Check, fails, found, again, check_round,
}

-- Server `p` is connected and leads in a term.
abbrev pub Leads : List Server → ℕ → ℕ → Type 0
Leads srvs p term =
    (s : Server) × (get_elem? srvs p ≡ some s)
    × (s.connected ≡ true)
    × (is_leader s.peer.state ≡ true)
    × (s.peer.term ≡ term)

-- The first server leads only if it is connected and a leader.
Leads-first :
    (s : Server) (srvs : List Server) (term : ℕ)
    → Leads (s ∷ srvs) 0 term
    → ((s.connected && is_leader s.peer.state) ≡ true) × (s.peer.term ≡ term)
Leads-first s srvs term (s', at, on, leads, e) =
    subst (λ x. ((x.connected && is_leader x.peer.state) ≡ true) × (x.peer.term ≡ term))
      (some_eq (sym at)) (rw (on, leads) refl, e)
  where
    some_eq : {x y : Server} → some x ≡ some y → x ≡ y
    some_eq h = cc

first-Leads :
    (s : Server) (srvs : List Server)
    → (s.connected && is_leader s.peer.state) ≡ true
    → Leads (s ∷ srvs) 0 s.peer.term
first-Leads s srvs h = (s, refl, ground arith, ground arith, refl)

-- The highest term of a leader, the number of the first server being `i`.
abbrev Highest : ℕ → List Server → Option (ℕ × ℕ) → Type 0
Highest i srvs none = (q term : ℕ) → Leads srvs q term → ⊥
Highest i srvs (some x) =
    (p : ℕ) × (x.0 ≡ i + p) × Leads srvs p x.1 × ((q term : ℕ) → Leads srvs q term → term ≤ x.1)

Highest-skip :
    (i : ℕ) (s : Server) (srvs : List Server) (o : Option (ℕ × ℕ))
    → (s.connected && is_leader s.peer.state) ≡ false
    → Highest (i + 1) srvs o
    → Highest i (s ∷ srvs) o
Highest-skip i s srvs none no_lead h = λ q term l. rest q term l
  where
    rest : (q term : ℕ) → Leads (s ∷ srvs) q term → ⊥
    rest zero term l = clash (Leads-first s srvs term l).0
      where
        clash : (s.connected && is_leader s.peer.state) ≡ true → ⊥
        clash e = ground arith
    rest (suc q) term l = h q term l
Highest-skip i s srvs (some x) no_lead (p, e, l, top) = (suc p, omega arith, l, rest)
  where
    rest : (q term : ℕ) → Leads (s ∷ srvs) q term → term ≤ x.1
    rest zero term l' = absurd (clash (Leads-first s srvs term l').0)
      where
        clash : (s.connected && is_leader s.peer.state) ≡ true → ⊥
        clash e' = ground arith
    rest (suc q) term l' = top q term l'

Highest-take :
    (i : ℕ) (s : Server) (srvs : List Server) (o : Option (ℕ × ℕ))
    → (s.connected && is_leader s.peer.state) ≡ true
    → Highest (i + 1) srvs o
    → Highest i (s ∷ srvs) (elim o [
      | none ↦ some (i, s.peer.term)
      | some y ↦ if ltb s.peer.term y.1 then some y else some (i, s.peer.term)
    ])
Highest-take i s srvs none leads h = (0, omega arith, first-Leads s srvs leads, rest)
  where
    rest : (q term : ℕ) → Leads (s ∷ srvs) q term → term ≤ s.peer.term
    rest zero term l = omega (arith, (Leads-first s srvs term l).1)
    rest (suc q) term l = absurd (h q term l)
Highest-take i s srvs (some y) leads (p, e, l, top) = elim (Bool-cases (ltb s.peer.term y.1)) [
  | inl less ↦ rw less (suc p, omega arith, l, below less)
  | inr more ↦ rw more (0, omega arith, first-Leads s srvs leads, above more)
]
  where
    below : ltb s.peer.term y.1 ≡ true → (q term : ℕ) → Leads (s ∷ srvs) q term → term ≤ y.1
    below less zero term l' = ground (arith, (Leads-first s srvs term l').1)
    below less (suc q) term l' = top q term l'

    above :
        ltb s.peer.term y.1 ≡ false → (q term : ℕ) → Leads (s ∷ srvs) q term → term ≤ s.peer.term
    above more zero term l' = ground (arith, (Leads-first s srvs term l').1)
    above more (suc q) term l' = ground (arith, top q term l')

leaders_from-Highest :
    (i : ℕ) (srvs : List Server) → Highest i srvs (last_leader (leaders_from i srvs))
unfolding leaders_from get_state
leaders_from-Highest i [] = λ q term (s, at, on, leads, e). cc
leaders_from-Highest i (s ∷ srvs) = elim (Bool-cases (s.connected && is_leader s.peer.state)) [
  | inl leads ↦ rw leads (
      Highest-take i s srvs (last_leader (leaders_from (i + 1) srvs)) leads
        (leaders_from-Highest (i + 1) srvs))
  | inr no_lead ↦ rw no_lead (
      Highest-skip i s srvs (last_leader (leaders_from (i + 1) srvs)) no_lead
        (leaders_from-Highest (i + 1) srvs))
]

has_term-Leads :
    (i term : ℕ) (srvs : List Server)
    → has_term term (leaders_from i srvs) ≡ true
    → (q : ℕ) × Leads srvs q term
unfolding leaders_from get_state
has_term-Leads i term [] h = cc
has_term-Leads i term (s ∷ srvs) h = elim (Bool-cases (s.connected && is_leader s.peer.state)) [
  | inl leads ↦ elim (Bool-cases (s.peer.term == term)) [
    | inl same ↦ let l = first-Leads s srvs leads in (0, (l.0, l.1, l.2, l.3, l.4 ∙ (ground arith)))
    | inr other ↦ let (q, l) = has_term-Leads (i + 1) term srvs (ground arith) in (suc q, l)
  ]
  | inr no_lead ↦ let (q, l) = has_term-Leads (i + 1) term srvs (ground arith) in (suc q, l)
]

-- Two servers lead in one term.
abbrev pub TwoLead : List Server → Type 0
TwoLead srvs = (p q term : ℕ) × (p < q) × Leads srvs p term × Leads srvs q term

shares_term-TwoLead :
    (i : ℕ) (srvs : List Server) → shares_term (leaders_from i srvs) ≡ true → TwoLead srvs
unfolding leaders_from get_state
shares_term-TwoLead i [] h = cc
shares_term-TwoLead i (s ∷ srvs) h = elim (Bool-cases (s.connected && is_leader s.peer.state)) [
  | inl leads ↦ elim (Bool-cases (has_term s.peer.term (leaders_from (i + 1) srvs))) [
    | inl shared ↦
        let (q, l) = has_term-Leads (i + 1) s.peer.term srvs shared in
        (0, suc q, s.peer.term, omega arith, first-Leads s srvs leads, l)
    | inr alone ↦ lift (shares_term-TwoLead (i + 1) srvs (ground arith))
  ]
  | inr no_lead ↦ lift (shares_term-TwoLead (i + 1) srvs (ground arith))
]
  where
    lift : TwoLead srvs → TwoLead (s ∷ srvs)
    lift (p, q, term, lt, l, l') = (suc p, suc q, term, omega arith, l, l')

-- What a round says of the servers.
abbrev pub Reports : List Server → Check → Type 0
Reports srvs fails = TwoLead srvs
Reports srvs (found p) = (term : ℕ) × Leads srvs p term × ((q t : ℕ) → Leads srvs q t → t ≤ term)
Reports srvs again = (q term : ℕ) → Leads srvs q term → ⊥

-- A round of `checkOneLeader` fails the test only if two connected servers lead in one term; the server that
-- it finds is connected and leads, in the highest term in which a connected server leads; and it
-- goes on to another round only if no connected server leads.
pub check_round-Reports : (srvs : List Server) → Reports srvs (check_round srvs)
unfolding check_round
check_round-Reports srvs = elim (Bool-cases (shares_term (leaders_from 0 srvs))) [
  | inl shares ↦ rw shares (shares_term-TwoLead 0 srvs shares)
  | inr apart ↦ rw apart (report (last_leader (leaders_from 0 srvs)) (leaders_from-Highest 0 srvs))
]
  where
    report :
        (o : Option (ℕ × ℕ))
        → Highest 0 srvs o
        → Reports srvs (elim o [ none ↦ again | some x ↦ found x.0 ])
    report none h = h
    report (some x) (p, e, l, top) = (x.1, subst (λ m. Leads srvs m x.1) (at e) l, top)
      where
        at : {p : ℕ} → x.0 ≡ 0 + p → p ≡ x.0
        at e = omega arith
