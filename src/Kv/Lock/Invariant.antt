-- ===== src/Kv/Lock/Invariant.antt =====
-- Mit6824/lab2/lock/lock.go: what the register of the lock's key says of each client.
use cslearning.Prelude.{
  ap, if_pos, if_neg, subst, sym, ℕ, suc, ◌+◌, ◌-◌, ◌<◌, ◌≤◌, ◌≡◌, refl, ◌≢◌, Bool, false, String,
  Option, arith, eq_iff, ℕ_discrete,
}
use cslearning.Kv.Rpc.{u64_mod, PutArgs}
use cslearning.Kv.Server.{Pair, KvServer, get, put, make_kv_server}
use cslearning.Kv.Server.Spec.{version_of, value_of, put-cas, cas, answer}
use cslearning.Kv.Clerk.{no_reply}
use cslearning.Kv.Lock.{
  Pc, idle, acquire_get, acquire_put, held, release_get, release_put, acquire_got, acquire_answered,
  release_got, release_answered, Move, acquire, acquire_reads, acquire_lost, acquire_unheard,
  acquire_heard, release, release_reads, release_lost, release_unheard, release_heard, System,
  update, Step, turn, elsewhere, Reach, start, next,
}

-- What a client's program counter says of the lock's register `r`, for a client named `me`.
abbrev pub Fits : Option Pair → String → Pc → Type 0
Fits r me idle = Unit
Fits r me (acquire_get f) = Unit
Fits r me (acquire_put f v resend) = (v ≤ version_of r) × (v ≡ version_of r → value_of r ≡ "")
Fits r me held = value_of r ≡ me
Fits r me release_get = value_of r ≡ me
Fits r me (release_put v resend) =
    (v ≤ version_of r) × (v ≡ version_of r → value_of r ≡ me) × (resend ≡ false → v ≡ version_of r)

-- The register after a move of the client `me` that stands at `p` is the old one, or a conditional write.
pub data Moved (r : Option Pair) (me : String) (p : Pc) (r' : Option Pair) (p' : Pc) : Type 0 where
  quiet : r' ≡ r → Moved r me p r' p'
  took :
      {f resend : Bool} (v : ℕ) → p ≡ acquire_put f v resend → r' ≡ cas r v me → Moved r me p r' p'
  gave : {resend : Bool} (v : ℕ) → p ≡ release_put v resend → r' ≡ cas r v "" → Moved r me p r' p'

pub put-name :
    (kv : KvServer) (name value : String) (v : ℕ)
    → ((put kv (record { key = name; value = value; version = v }) no_reply).0.mp name
        ≡ cas (kv.mp name) v value)
      × ((put kv (record { key = name; value = value; version = v }) no_reply).1.err
          ≡ answer (kv.mp name) v)
put-name kv name value v = ground (
  arith,
  put-cas kv (record { key = name; value = value; version = v }) no_reply name,
  eq_iff name name,
)

pub put-elsewhere :
    (kv : KvServer) (args : PutArgs) (name : String)
    → args.key ≢ name
    → (put kv args no_reply).0.mp name ≡ kv.mp name
put-elsewhere kv args name other =
    ground (arith, put-cas kv args no_reply name, eq_iff args.key name)

module _ (name me : String) (named : me ≢ "") where
  -- The mover keeps its own account of the register.
  own-Fits :
      {kv kv' : KvServer} {p p' : Pc}
      → Move name me kv p kv' p'
      → version_of (kv.mp name) < u64_mod - 1
      → Fits (kv.mp name) me p
      → Fits (kv'.mp name) me p'
  unfolding acquire_got acquire_answered release_got release_answered get
  own-Fits acquire small fits = tt
  own-Fits {kv} (acquire_reads {f}) small fits =
      ground (arith, eq_iff (value_of (kv.mp name)) me, eq_iff (value_of (kv.mp name)) "")
  own-Fits acquire_lost small fits = fits
  own-Fits {kv} (acquire_unheard {v}) small fits = ground (arith, put-name kv name me v)
  own-Fits {kv} (acquire_heard {f} {r} {v}) small fits = ground (arith, put-name kv name me v)
  own-Fits release small fits = fits
  own-Fits {kv} release_reads small fits = ground (arith, eq_iff (value_of (kv.mp name)) me)
  own-Fits release_lost small fits = ground arith
  own-Fits {kv} (release_unheard {r} {v}) small fits = ground (arith, put-name kv name "" v)
  own-Fits {kv} (release_heard {r} {v}) small fits = ground (arith, put-name kv name "" v)

  pub Move-Moved :
      {kv kv' : KvServer} {p p' : Pc}
      → Move name me kv p kv' p'
      → Moved (kv.mp name) me p (kv'.mp name) p'
  Move-Moved acquire = quiet refl
  Move-Moved acquire_reads = quiet refl
  Move-Moved acquire_lost = quiet refl
  Move-Moved {kv} (acquire_unheard {v}) = took v refl (put-name kv name me v).0
  Move-Moved {kv} (acquire_heard {v}) = took v refl (put-name kv name me v).0
  Move-Moved release = quiet refl
  Move-Moved release_reads = quiet refl
  Move-Moved release_lost = quiet refl
  Move-Moved {kv} (release_unheard {v}) = gave v refl (put-name kv name "" v).0
  Move-Moved {kv} (release_heard {v}) = gave v refl (put-name kv name "" v).0

-- No other client's account is spoilt, its identifier being another one.
other-Fits :
    {r r' : Option Pair} {me : String} {p p' : Pc}
    → Moved r me p r' p'
    → version_of r < u64_mod - 1
    → Fits r me p
    → (you : String) → you ≢ ""
    → you ≢ me
    → (q : Pc) → Fits r you q
    → Fits r' you q
other-Fits (quiet e) small mine you named apart q yours = subst (λ x. Fits x you q) (sym e) yours
other-Fits (took v e e') small mine you named apart idle yours = tt
other-Fits (took v e e') small mine you named apart q yours = ground arith
other-Fits (gave v e e') small mine you named apart idle yours = tt
other-Fits (gave v e e') small mine you named apart q yours = ground arith

Moved-version :
    {r r' : Option Pair} {me : String} {p p' : Pc}
    → Moved r me p r' p'
    → version_of r < u64_mod - 1
    → version_of r' ≤ version_of r + 1
Moved-version (quiet e) small = ground arith
Moved-version (took v e e') small = ground arith
Moved-version (gave v e e') small = ground arith

pub record Inv (name : String) (id : ℕ → String) (n : ℕ) (s : System) : Type 0 where
  pub paced : version_of (s.kv.mp name) ≤ n
  pub fits : (i : ℕ) → Fits (s.kv.mp name) (id i) (s.pc i)

module _ (name : String) (id : ℕ → String) (named : (i : ℕ) → id i ≢ "")
    (distinct : (i j : ℕ) → id i ≡ id j → i ≡ j) where
  Step-Inv :
      {n : ℕ} {s t : System}
      → n < u64_mod - 1
      → Inv name id n s
      → Step name id s t
      → Inv name id (suc n) t
  Step-Inv {s} small inv (turn i {kv} {p} mv) = record {
    paced = omega (arith, inv.paced, Moved-version (Move-Moved name (id i) (named i) mv));
    fits = λ j. elim (ℕ_discrete i j) [
      | yes same ↦
          subst (λ k. Fits (kv.mp name) (id k) (update s.pc i p k)) same
            (rw (if_pos (ℕ_discrete i i) refl)
              (own-Fits name (id i) (named i) mv (omega (arith, inv.paced)) (inv.fits i)))
      | no apart ↦ rw (if_neg (ℕ_discrete i j) apart) (
          other-Fits (Move-Moved name (id i) (named i) mv) (omega (arith, inv.paced)) (inv.fits i)
            (id j) (named j) (λ e. apart (sym (distinct j i e))) (s.pc j) (inv.fits j))
    ];
  }
  Step-Inv {s} small inv (elsewhere args other) =
      let kept = put-elsewhere s.kv args name other in
      record {
        paced = omega (arith, inv.paced, ap version_of kept);
        fits = λ j. subst (λ r. Fits r (id j) (s.pc j)) (sym kept) (inv.fits j);
      }

  pub Reach-Inv : {n : ℕ} {s : System} → n < u64_mod → Reach name id n s → Inv name id n s
  unfolding make_kv_server
  Reach-Inv small start = record { paced = omega arith; fits = λ i. tt }
  Reach-Inv small (next r st) = Step-Inv (omega arith) (Reach-Inv (omega arith) r) st
