-- ===== src/Examples/Service.antt =====
-- Two servers, the first of which has applied eight commands.
use cslearning.Prelude.{
  ℕ, zero, suc, ◌<◌, ◌≡◌, refl, sym, ap, ◌∙◌, Option, none, some, List, [], ◌∷◌, length, get_elem?,
  ltb, if◌then◌else◌, arith, true, false,
}
use cslearning.Raft.State.{Cmd, leader, nil, command}
use cslearning.Raft.Service.{
  Rfsrv, Test, applier_command, applier_snap_command, take_xlog, ingest_snap, new_rfsrv,
}
use cslearning.Examples.Raft.{new_peer}
use cslearning.Raft.Service.Leaders.{Server, check_one_leader}
use cslearning.Raft.Service.Agreement.{Agree, KeepsAgreement, checks_keep_agreement}
use cslearning.Raft.Service.Resume.{Filled, InOrder, Resumes, applies-InOrder, snapshot-Resumes}

abbrev ahead : Rfsrv
ahead = record { logs = λ j. if ltb j 9 then some (command j) else none; last_applied = 8 }

abbrev fresh : Rfsrv
fresh = record { logs = λ j. none; last_applied = 0 }

abbrev pair : Test
pair = record { srvs = ahead ∷ fresh ∷ []; max_index = 8 }

-- A code for commands that are numbers.
abbrev code : List Cmd → List ℕ
code [] = []
code (command n ∷ l) = suc n ∷ code l
code (_ ∷ l) = 0 ∷ code l

abbrev cmds : List ℕ → List Cmd
cmds [] = []
cmds (zero ∷ l) = nil ∷ cmds l
cmds (suc n ∷ l) = command n ∷ cmds l

abbrev encode : ℕ → List Cmd → List ℕ
encode i l = i ∷ code l

abbrev decode : List ℕ → Option (ℕ × List Cmd)
decode [] = none
decode (i ∷ l) = some (i, cmds l)

some_eq : {A : Type 0} {x y : A} → some x ≡ some y → x ≡ y
some_eq e = cc

none-some : {A : Type 0} {x : A} → none ≡ some x → ⊥
none-some e = cc

-- What a server of the pair has, the first has.
first_has :
    (m i : ℕ) (a : Rfsrv) (v : Cmd)
    → get_elem? pair.srvs m ≡ some a
    → a.logs i ≡ some v
    → ahead.logs i ≡ some v
first_has zero i a v at has = ap (λ x. x.logs i) (some_eq at) ∙ has
first_has (suc zero) i a v at has = absurd (none-some (ap (λ x. x.logs i) (some_eq at) ∙ has))
first_has (suc (suc m)) i a v at has = cc

pair-Agree : Agree pair.srvs
pair-Agree m n i a b v w at_a at_b has_a has_b =
    some_eq (sym (first_has m i a v at_a has_a) ∙ first_has n i b w at_b has_b)

ahead-Filled : Filled ahead
ahead-Filled j above below e = ground arith

checks_keep_agreement_example :
    KeepsAgreement (applier_command 0 ahead 9 (command 9) pair)
    × KeepsAgreement (applier_snap_command encode decode 0 ahead 9 (command 9) pair)
checks_keep_agreement_example =
    checks_keep_agreement encode decode 0 9 ahead (command 9) pair refl pair-Agree

applies-InOrder_example :
    InOrder 0 9 ahead (applier_snap_command encode decode 0 ahead 9 (command 9) pair)
applies-InOrder_example = applies-InOrder encode decode 0 9 ahead (command 9) pair refl ahead-Filled

snapshot-Resumes_example :
    Resumes 2 ahead.logs
      (ingest_snap encode decode (encode 2 (take_xlog ahead.logs 0 3)) (some 2) fresh)
    × (0 < length (encode 2 (take_xlog ahead.logs 0 3))
        → Resumes 2 ahead.logs (new_rfsrv encode decode true (encode 2 (take_xlog ahead.logs 0 3))))
unfolding take_xlog
snapshot-Resumes_example = snapshot-Resumes encode decode 2 ahead.logs refl fresh

-- A connected leader of term 2 behind a lost one of term 1.
abbrev lost : Server
lost = record { connected = false; peer = record new_peer { state = leader; term = 1 } }

abbrev leads_now : Server
leads_now = record { connected = true; peer = record new_peer { state = leader; term = 2 } }

finds_second : check_one_leader ((lost ∷ []) ∷ (lost ∷ leads_now ∷ []) ∷ []) ≡ some 1
unfolding check_one_leader
finds_second = refl
