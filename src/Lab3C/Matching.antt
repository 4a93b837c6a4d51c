-- ===== src/Lab3C/Matching.antt =====
-- lab3-C/raft.go: what the entries of a leader make of the log of a follower. The leader's
-- arguments are those of the loop in `startLearder`.
use cslearning.Prelude.{
  ap₂, ==→eq, ℕ, suc, ◌+◌, ◌≡◌, refl, sym, ap, ◌∙◌, subst, ◌⊎◌, inl, inr, true, false, some, List,
  [], ◌∷◌, ◌++◌, length, take, drop, get_elem?, leb, ◌==◌, Bool-cases, arith, length-append,
  length-take, append_assoc, append-nil, take-append-drop, get_elem?-lt,
}
use cslearning.Raft.State.{Log, term_at}
use cslearning.Raft.Replication.{AppendEntriesArgs, append_loop, append_one}

-- Two logs agree up to every place where they have an entry of the same term.
abbrev pub Matching : List Log → List Log → Type 0
Matching l m =
    (i : ℕ) (e f : Log)
    → get_elem? l i ≡ some e
    → get_elem? m i ≡ some f
    → e.term ≡ f.term
    → take (suc i) l ≡ take (suc i) m

at_end :
    (pre : List Log) (e : Log) (es : List Log) → get_elem? (pre ++ e ∷ es) (length pre) ≡ some e
at_end [] e es = refl
at_end (x ∷ pre) e es = at_end pre e es

term_at_end :
    (pre : List Log) (e : Log) (es : List Log) → term_at (pre ++ e ∷ es) (length pre) ≡ e.term
term_at_end [] e es = refl
term_at_end (x ∷ pre) e es = term_at_end pre e es

take_end : (pre es : List Log) → take (length pre) (pre ++ es) ≡ pre
take_end [] es = refl
take_end (x ∷ pre) es = ap (λ l. x ∷ l) (take_end pre es)

take_one_more :
    (pre : List Log) (e : Log) (es : List Log)
    → take (suc (length pre)) (pre ++ e ∷ es) ≡ pre ++ e ∷ []
take_one_more [] e es = refl
take_one_more (x ∷ pre) e es = ap (λ l. x ∷ l) (take_one_more pre e es)

last-injective : (pre : List Log) (e f : Log) → pre ++ e ∷ [] ≡ pre ++ f ∷ [] → e ≡ f
last-injective [] e f h = cc
last-injective (x ∷ pre) e f h = last-injective pre e f (ground (arith, h))

-- Past the end of the log the loop appends.
append_loop-end : (at : ℕ) (es l : List Log) → at ≡ length l → append_loop at es l ≡ l ++ es
unfolding append_loop append_one
append_loop-end at [] l h = sym (append-nil l)
append_loop-end at (e ∷ es) l h =
    let past : leb (length l) at ≡ true = ground arith in
    rw past (
      append_loop-end (at + 1) es (l ++ e ∷ []) (omega (arith, length-append l (e ∷ [])))
      ∙ append_assoc l (e ∷ []) es)

-- The loop leaves the follower's log `l` or makes it `m`.
abbrev Outcome : ℕ → List Log → List Log → List Log → Type 0
Outcome at es l m = (append_loop at es l ≡ l) ⊎ (append_loop at es l ≡ m)

-- Where the two logs match, the loop leaves the follower's log or makes it the leader's.
loop_outcome :
    (at : ℕ) (es pre rest : List Log)
    → at ≡ length pre
    → Matching (pre ++ rest) (pre ++ es)
    → Outcome at es (pre ++ rest) (pre ++ es)
unfolding append_loop append_one
loop_outcome at [] pre rest h m = inl refl
loop_outcome at (e ∷ es) pre [] h m = inr (rw (append-nil) (append_loop-end at (e ∷ es) pre h))
loop_outcome at (e ∷ es) pre (r ∷ rest) h m =
    let inside : leb (length (pre ++ r ∷ rest)) at ≡ false =
      ground (arith, length-append pre (r ∷ rest)) in
    let old : term_at (pre ++ r ∷ rest) at ≡ r.term = rw h (term_at_end pre r rest) in
    let cut : take at (pre ++ r ∷ rest) ≡ pre = rw h (take_end pre (r ∷ rest)) in
    elim (Bool-cases (r.term == e.term)) [
      | inr differs ↦ inr (
          rw (inside, old)
            (rw (differs, cut)
              (append_loop-end (at + 1) es (pre ++ e ∷ [])
                  (omega (arith, length-append pre (e ∷ [])))
                ∙ append_assoc pre (e ∷ []) es)))
      | inl same ↦
          let r_is_e : r ≡ e = last-injective pre r e (
            sym (take_one_more pre r rest)
            ∙ m (length pre) r e (at_end pre r rest) (at_end pre e es) (==→eq _ _ same)
            ∙ take_one_more pre e es) in
          let mine = append_assoc pre (r ∷ []) rest in
          let theirs = append_assoc pre (r ∷ []) es ∙ ap (λ x. pre ++ x ∷ es) r_is_e in
          let matched =
            subst (λ l. Matching l ((pre ++ r ∷ []) ++ es)) (sym mine)
              (subst (λ n. Matching (pre ++ r ∷ rest) n) (sym theirs) m) in
          let later =
            loop_outcome (at + 1) es (pre ++ r ∷ []) rest
              (omega (arith, length-append pre (r ∷ []))) matched in
          rw (inside, old)
            (rw same (
              subst (λ l. Outcome (at + 1) es l (pre ++ e ∷ es)) mine
                (subst (λ n. Outcome (at + 1) es ((pre ++ r ∷ []) ++ rest) n) theirs later)))
    ]

-- The arguments of `AppendEntries` as a leader with this log makes them.
pub record Built (log : List Log) (args : AppendEntriesArgs) : Type 0 where
  pub prev : Log
  pub prev_there : get_elem? log args.prev_log_index ≡ some prev
  pub prev_term : prev.term ≡ args.prev_log_term
  pub rest_sent : args.entries ≡ drop (suc args.prev_log_index) log

-- With entries from a leader whose log matches, the follower's log stays or becomes the leader's.
pub append_outcome :
    (l m : List Log) (args : AppendEntriesArgs) (e : Log)
    → Matching l m
    → Built m args
    → get_elem? l args.prev_log_index ≡ some e
    → e.term ≡ args.prev_log_term
    → Outcome (args.prev_log_index + 1) args.entries l m
append_outcome l m args e match b there same =
    let p = args.prev_log_index in
    let agree = match p e b.prev there b.prev_there (same ∙ sym b.prev_term) in
    let mine = take-append-drop (suc p) l in
    let theirs : take (suc p) l ++ args.entries ≡ m =
      ap₂ (λ x y. x ++ y) agree b.rest_sent ∙ take-append-drop (suc p) m in
    let far : p + 1 ≡ length (take (suc p) l) =
      omega (arith, length-take (suc p) l, get_elem?-lt l p e there) in
    subst (λ x. Outcome (p + 1) args.entries x m) mine
      (subst (λ y. Outcome (p + 1) args.entries (take (suc p) l ++ drop (suc p) l) y) theirs
        (loop_outcome (p + 1) args.entries (take (suc p) l) (drop (suc p) l) far (
          subst (λ x. Matching x (take (suc p) l ++ args.entries)) (sym mine)
            (subst (λ y. Matching l y) (sym theirs) match))))
