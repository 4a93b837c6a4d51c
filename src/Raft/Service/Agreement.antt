-- ===== src/Raft/Service/Agreement.antt =====
-- lab3-D/test.go: the check of `checkLogs` against the other servers.
use cslearning.Prelude.{
  ℕ, zero, suc, ◌+◌, ◌≡◌, ◌⊎◌, refl, sym, ap, ◌∙◌, inl, inr, Bool, true, false, Option, some, List,
  [], ◌∷◌, get_elem?, set, ltb, ◌==◌, ◌&&◌, not, if◌then◌else◌, Bool-cases, arith, eq_iff,
  get_elem?-set_ne, get_elem?-set_self, get_elem?-lt, ℕ_discrete,
}
use cslearning.Raft.State.{Cmd, nil, text, command}
use cslearning.Raft.Service.{
  cmd_eq, Rfsrv, Test, any_differs, log_at, check_logs, Fault, out_of_order, mismatch, has_prev,
  Read, goes, fatal, applier_command, applier_snap_command,
}

-- No two servers have different values at an index.
abbrev pub Agree : List Rfsrv → Type 0
Agree srvs =
    (m n i : ℕ) (a b : Rfsrv) (v w : Cmd)
    → get_elem? srvs m ≡ some a
    → get_elem? srvs n ≡ some b
    → a.logs i ≡ some v
    → b.logs i ≡ some w
    → v ≡ w

pub cmd_eq-eq : (v w : Cmd) → cmd_eq v w ≡ true → v ≡ w
cmd_eq-eq nil nil h = refl
cmd_eq-eq nil (text t) h = cc
cmd_eq-eq nil (command n) h = cc
cmd_eq-eq (text s) nil h = cc
cmd_eq-eq (text s) (text t) h = ap text ((eq_iff s t).0 h)
cmd_eq-eq (text s) (command n) h = cc
cmd_eq-eq (command m) nil h = cc
cmd_eq-eq (command m) (text t) h = cc
cmd_eq-eq (command m) (command n) h = ap command (ground arith)

-- No server differs.
any_differs-none :
    (i : ℕ) (v : Cmd) (srvs : List Rfsrv) (n : ℕ) (rs : Rfsrv) (w : Cmd)
    → any_differs i v srvs ≡ false
    → get_elem? srvs n ≡ some rs
    → rs.logs i ≡ some w
    → w ≡ v
any_differs-none i v [] n rs w h at has = cc
any_differs-none i v (x ∷ srvs) zero rs w h at has = cmd_eq-eq w v (ground (arith, ap (λ o. o) at))
any_differs-none i v (x ∷ srvs) (suc n) rs w h at has =
    any_differs-none i v srvs n rs w (ground arith) at has

module _ (srvs : List Rfsrv) (n i : ℕ) (me me' : Rfsrv) (v : Cmd)
    (mine : get_elem? srvs n ≡ some me)
    (logged : (j : ℕ) → me'.logs j ≡ (log_at i v me).logs j) where
  -- What the servers have after one of them has logged `v` is `v`, or they had it before.
  came_from :
      (m j : ℕ) (a : Rfsrv) (x : Cmd)
      → get_elem? (set srvs n me') m ≡ some a
      → a.logs j ≡ some x
      → ((j ≡ i) × (x ≡ v)) ⊎ ((c : Rfsrv) × (get_elem? srvs m ≡ some c) × (c.logs j ≡ some x))
  came_from m j a x at has = elim (ℕ_discrete n m) [
    | no apart ↦ inr (a, sym (get_elem?-set_ne srvs me' apart) ∙ at, has)
    | yes same ↦
        let self = get_elem?-set_self srvs n me' (get_elem?-lt srvs n me mine) in
        let is_me = some_eq (sym self ∙ ap (get_elem? (set srvs n me')) same ∙ at) in
        let now = sym (logged j) ∙ ap (λ c. c.logs j) is_me ∙ has in
        elim (Bool-cases (j == i)) [
          | inl here ↦ inl (ground arith, ground arith)
          | inr elsewhere ↦ inr (me, ap (get_elem? srvs) (sym same) ∙ mine, ground arith)
        ]
  ]
    where
      some_eq : {b c : Rfsrv} → some b ≡ some c → b ≡ c
      some_eq e = cc

  -- The servers agree again, if none had another value at the index.
  log_at-Agree : any_differs i v srvs ≡ false → Agree srvs → Agree (set srvs n me')
  log_at-Agree fine agree m k j a b x y at_a at_b has_a has_b =
      elim (came_from m j a x at_a has_a) [
        | inl (here, e) ↦ elim (came_from k j b y at_b has_b) [
          | inl (_, e') ↦ e ∙ sym e'
          | inr (c, at, has) ↦
              e ∙ sym (any_differs-none i v srvs k c y fine at (ap c.logs (sym here) ∙ has))
        ]
        | inr (c, at, has) ↦ elim (came_from k j b y at_b has_b) [
          | inl (here, e') ↦
              any_differs-none i v srvs m c x fine at (ap c.logs (sym here) ∙ has) ∙ sym e'
          | inr (c', at', has') ↦ agree m k j c c' x y at at' has has'
        ]
      ]

-- What a message comes to keeps the agreement, unless it ends the process.
abbrev pub KeepsAgreement : Read → Type 0
KeepsAgreement (fatal f) = Unit
KeepsAgreement (goes ts snapshot) = Agree ts.srvs

KeepsAgreement-if :
    (b : Bool) (f : Fault) (x : Read)
    → (b ≡ false → KeepsAgreement x)
    → KeepsAgreement (if b then fatal f else x)
KeepsAgreement-if true f x h = tt
KeepsAgreement-if false f x h = h refl

-- The check of every applied command is sound: if no two servers have different values at an index,
-- then none have after a server took a command, with or without snapshots, unless the process ended.
pub checks_keep_agreement :
    (encode : ℕ → List Cmd → List ℕ) (decode : List ℕ → Option (ℕ × List Cmd)) (n i : ℕ)
    (me : Rfsrv) (v : Cmd) (ts : Test)
    → get_elem? ts.srvs n ≡ some me
    → Agree ts.srvs
    → KeepsAgreement (applier_command n me i v ts)
      × KeepsAgreement (applier_snap_command encode decode n me i v ts)
unfolding applier_command applier_snap_command check_logs
checks_keep_agreement encode decode n i me v ts mine agree =
    let late = ltb 1 i && not (has_prev me.logs i) in
    let other = any_differs i v ts.srvs in
    let me' = record (log_at i v me) { last_applied = i } in
    (
      KeepsAgreement-if late out_of_order _ (λ _.
          KeepsAgreement-if other mismatch _
            (λ fine. log_at-Agree ts.srvs n i me (log_at i v me) v mine (λ j. refl) fine agree)),
      KeepsAgreement-if (not (i == me.last_applied + 1)) out_of_order _ (λ _.
          KeepsAgreement-if late out_of_order _ (λ _.
            KeepsAgreement-if other mismatch _
              (λ fine. log_at-Agree ts.srvs n i me me' v mine (λ j. refl) fine agree))),
    )
