-- ===== src/Kv/Lock/Owner.antt =====
-- Mit6824/lab2/lock/lock.go: where a client stands whose identifier is the value of the lock's key.
use cslearning.Prelude.{
  ℕ, ◌-◌, ◌<◌, ◌≡◌, refl, ◌≢◌, true, String, Option, arith, eq_iff, ℕ_discrete, if_pos, if_neg,
  subst, sym,
}
use cslearning.Kv.Rpc.{u64_mod}
use cslearning.Kv.Server.{Pair, KvServer, get, make_kv_server}
use cslearning.Kv.Server.Spec.{version_of, value_of}
use cslearning.Kv.Lock.{
  Pc, idle, acquire_get, acquire_put, held, release_get, release_put, acquire_got, acquire_answered,
  release_got, release_answered, Move, acquire, acquire_reads, acquire_lost, acquire_unheard,
  acquire_heard, release, release_reads, release_lost, release_unheard, release_heard, System,
  update, Step, turn, elsewhere, Reach, start, next,
}
use cslearning.Kv.Lock.Invariant.{
  Fits, Moved, quiet, took, gave, Move-Moved, put-name, put-elsewhere, Inv, Reach-Inv,
}

-- Where a client may stand whose identifier is the value of the register `r`.
abbrev pub Knows : Option Pair → Pc → Type 0
Knows r idle = ⊥
Knows r (acquire_get f) = f ≡ true
Knows r (acquire_put f v resend) = resend ≡ true
Knows r held = Unit
Knows r release_get = Unit
Knows r (release_put v resend) = v ≡ version_of r

own-Knows :
    (name me : String)
    → me ≢ ""
    → {kv kv' : KvServer} {p p' : Pc} → Move name me kv p kv' p'
    → version_of (kv.mp name) < u64_mod - 1
    → Fits (kv.mp name) me p
    → (value_of (kv.mp name) ≡ me → Knows (kv.mp name) p)
    → value_of (kv'.mp name) ≡ me
    → Knows (kv'.mp name) p'
unfolding acquire_got acquire_answered release_got release_answered get
own-Knows name me named acquire small fits old mine = absurd (old mine)
own-Knows name me named {kv} (acquire_reads {f}) small fits old mine =
    ground (arith, eq_iff (value_of (kv.mp name)) me, eq_iff (value_of (kv.mp name)) "")
own-Knows name me named acquire_lost small fits old mine = refl
own-Knows name me named acquire_unheard small fits old mine = refl
own-Knows name me named {kv} (acquire_heard {f} {r} {v}) small fits old mine =
    ground (arith, put-name kv name me v)
own-Knows name me named release small fits old mine = tt
own-Knows name me named {kv} release_reads small fits old mine =
    ground (arith, eq_iff (value_of (kv.mp name)) me)
own-Knows name me named release_lost small fits old mine = old mine
own-Knows name me named {kv} (release_unheard {r} {v}) small fits old mine =
    ground (arith, put-name kv name "" v)
own-Knows name me named {kv} (release_heard {r} {v}) small fits old mine =
    ground (arith, put-name kv name "" v)

other-Knows :
    {r r' : Option Pair} {me : String} {p p' : Pc}
    → Moved r me p r' p'
    → (you : String) → you ≢ ""
    → you ≢ me
    → (q : Pc) → (value_of r ≡ you → Knows r q)
    → value_of r' ≡ you
    → Knows r' q
other-Knows (quiet e) you named apart q yours mine =
    subst (λ x. value_of x ≡ you → Knows x q) (sym e) yours mine
other-Knows (took v e e') you named apart q yours mine = ground arith
other-Knows (gave v e e') you named apart q yours mine = ground arith

module _ (name : String) (id : ℕ → String) (named : (i : ℕ) → id i ≢ "")
    (distinct : (i j : ℕ) → id i ≡ id j → i ≡ j) where
  abbrev Known : System → Type 0
  Known s = (i : ℕ) → value_of (s.kv.mp name) ≡ id i → Knows (s.kv.mp name) (s.pc i)

  Step-Known :
      {n : ℕ} {s t : System}
      → n < u64_mod - 1
      → Inv name id n s
      → Step name id s t
      → Known s
      → Known t
  Step-Known {s} small inv (turn i {kv} {p} mv) known = λ j. elim (ℕ_discrete i j) [
    | yes same ↦
        subst (λ k. value_of (kv.mp name) ≡ id k → Knows (kv.mp name) (update s.pc i p k)) same
          (rw (if_pos (ℕ_discrete i i) refl)
            (own-Knows name (id i) (named i) mv (omega (arith, inv.paced)) (inv.fits i) (known i)))
    | no apart ↦ rw (if_neg (ℕ_discrete i j) apart) (
        other-Knows (Move-Moved name (id i) (named i) mv) (id j) (named j)
          (λ e. apart (sym (distinct j i e))) (s.pc j) (known j))
  ]
  Step-Known {s} small inv (elsewhere args other) known = λ j.
      subst (λ r. value_of r ≡ id j → Knows r (s.pc j)) (sym (put-elsewhere s.kv args name other))
        (known j)

  -- If the identifiers are distinct and not empty, then in every state reached in fewer than 2^64
  -- steps a client whose identifier is the value of the lock's key has its write unacknowledged, or
  -- must still re-read it with its `flag` set, or holds the lock, or is releasing it at the key's
  -- present version; it is not idle.
  pub owner-Knows :
      {n : ℕ} {s : System}
      → n < u64_mod
      → Reach name id n s
      → (i : ℕ) → value_of (s.kv.mp name) ≡ id i
      → Knows (s.kv.mp name) (s.pc i)
  unfolding make_kv_server
  owner-Knows small start i mine = absurd (named i (sym mine))
  owner-Knows small (next r st) i mine =
      Step-Known (omega arith) (Reach-Inv name id named distinct (omega arith) r) st
        (owner-Knows (omega arith) r) i mine
