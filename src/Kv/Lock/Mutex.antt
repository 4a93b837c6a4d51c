-- ===== src/Kv/Lock/Mutex.antt =====
-- Mit6824/lab2/lock/lock.go: who holds the lock, and how it is given back.
use cslearning.Prelude.{
  ℕ, ◌<◌, ◌≡◌, refl, ◌≢◌, Bool, true, false, String, Option, arith, eq_iff, subst, sym, ◌∙◌,
}
use cslearning.Kv.Rpc.{u64_mod}
use cslearning.Kv.Server.{Pair, KvServer, get}
use cslearning.Kv.Server.Spec.{version_of, value_of}
use cslearning.Kv.Lock.{
  Pc, idle, acquire_get, acquire_put, held, release_get, release_put, acquire_got, acquire_answered,
  release_got, release_answered, Move, acquire_reads, acquire_heard, release, release_reads,
  release_heard, System, Reach,
}
use cslearning.Kv.Lock.Invariant.{Fits, put-name, Reach-Inv}
use cslearning.Kv.Lock.Owner.{Knows, owner-Knows}

-- Between the return of `Acquire` and the write of `Release`.
abbrev pub holds : Pc → Bool
holds held = true
holds release_get = true
holds _ = false

held-value :
    (r : Option Pair) (me : String) (p : Pc) → holds p ≡ true → Fits r me p → value_of r ≡ me
held-value r me p h fits = ground arith

-- Moves of one client alone, from a server and a program counter to others.
pub data Alone (name me : String) : KvServer → Pc → KvServer → Pc → Type 0 where
  here : {kv : KvServer} {p : Pc} → Alone name me kv p kv p
  then :
      {kv kv' kv'' : KvServer} {p p' p'' : Pc}
      → Move name me kv p kv' p'
      → Alone name me kv' p' kv'' p''
      → Alone name me kv p kv'' p''

-- The client can go on alone until it is idle and the key holds the empty text again.
abbrev pub Frees : String → String → KvServer → Pc → Type 0
Frees name me kv p = (kv' : KvServer) × Alone name me kv p kv' idle × (value_of (kv'.mp name) ≡ "")

module _ (name me : String) (named : me ≢ "") where
  first :
      {kv kv' : KvServer} {p p' q : Pc}
      → Move name me kv p kv' p'
      → p' ≡ q
      → Frees name me kv' q
      → Frees name me kv p
  first {kv} {kv'} {p} mv e (kv'', rest, freed) =
      (kv'', then (subst (λ x. Move name me kv p kv' x) e mv) rest, freed)

  frees_release_put :
      (kv : KvServer) (v : ℕ) (r : Bool)
      → v ≡ version_of (kv.mp name)
      → value_of (kv.mp name) ≡ me
      → Frees name me kv (release_put v r)
  unfolding release_answered
  frees_release_put kv v r now mine =
      first release_heard (ground (arith, put-name kv name "" v))
        (_, here, ground (arith, put-name kv name "" v))

  frees_release_get : (kv : KvServer) → value_of (kv.mp name) ≡ me → Frees name me kv release_get
  unfolding release_got get
  frees_release_get kv mine =
      first {q = release_put (version_of (kv.mp name)) false} release_reads
        (ground (arith, eq_iff (value_of (kv.mp name)) me))
        (frees_release_put kv (version_of (kv.mp name)) false refl mine)

  frees_held : (kv : KvServer) → value_of (kv.mp name) ≡ me → Frees name me kv held
  frees_held kv mine = first release refl (frees_release_get kv mine)

  frees_acquire_get :
      (kv : KvServer) → value_of (kv.mp name) ≡ me → Frees name me kv (acquire_get true)
  unfolding acquire_got get
  frees_acquire_get kv mine =
      first {q = held} acquire_reads (ground (arith, eq_iff (value_of (kv.mp name)) me))
        (frees_held kv mine)

  frees_acquire_put :
      (kv : KvServer) (f : Bool) (v : ℕ)
      → Fits (kv.mp name) me (acquire_put f v true)
      → value_of (kv.mp name) ≡ me
      → Frees name me kv (acquire_put f v true)
  unfolding acquire_answered
  frees_acquire_put kv f v fits mine =
      first {q = acquire_get true} acquire_heard (ground (arith, put-name kv name me v))
        (frees_acquire_get _ (ground (arith, put-name kv name me v)))

  owner_frees :
      (kv : KvServer) (p : Pc)
      → Fits (kv.mp name) me p
      → Knows (kv.mp name) p
      → value_of (kv.mp name) ≡ me
      → Frees name me kv p
  owner_frees kv idle fits knows mine = absurd knows
  owner_frees kv (acquire_get f) fits knows mine =
      subst (λ b. Frees name me kv (acquire_get b)) (sym knows) (frees_acquire_get kv mine)
  owner_frees kv (acquire_put f v r) fits knows mine =
      subst (λ b. Frees name me kv (acquire_put f v b)) (sym knows)
        (frees_acquire_put kv f v fits mine)
  owner_frees kv held fits knows mine = frees_held kv mine
  owner_frees kv release_get fits knows mine = frees_release_get kv mine
  owner_frees kv (release_put v r) fits knows mine = frees_release_put kv v r knows mine

module _ (name : String) (id : ℕ → String) (named : (i : ℕ) → id i ≢ "")
    (distinct : (i j : ℕ) → id i ≡ id j → i ≡ j) where
  -- Two clients never hold the lock together, in any state reached in fewer than 2^64 steps, if
  -- their identifiers are distinct and not empty.
  pub mutual_exclusion :
      {n : ℕ} {s : System}
      → n < u64_mod
      → Reach name id n s
      → (i j : ℕ) → holds (s.pc i) ≡ true
      → holds (s.pc j) ≡ true
      → i ≡ j
  mutual_exclusion {s = s} small r i j in_i in_j =
      let inv = Reach-Inv name id named distinct small r in
      distinct i j (
        sym (held-value (s.kv.mp name) (id i) (s.pc i) in_i (inv.fits i))
        ∙ held-value (s.kv.mp name) (id j) (s.pc j) in_j (inv.fits j))

  -- If the identifiers are distinct and not empty, whoever's identifier is the value of the lock's
  -- key can finish alone, whatever replies were lost before: its own moves lead to the key being
  -- free and itself idle. It holds in every state reached in fewer than 2^64 steps.
  pub owner_can_free :
      {n : ℕ} {s : System}
      → n < u64_mod
      → Reach name id n s
      → (i : ℕ) → value_of (s.kv.mp name) ≡ id i
      → Frees name (id i) s.kv (s.pc i)
  owner_can_free {s = s} small r i mine =
      owner_frees name (id i) (named i) s.kv (s.pc i)
        ((Reach-Inv name id named distinct small r).fits i)
        (owner-Knows name id named distinct small r i mine) mine
