-- ===== src/Kv/Clerk/Retries.antt =====
-- Mit6824/lab2/client.go: the retry loops of `Clerk.Put` and `Clerk.Get`, up to the first call that
-- gets through.
use cslearning.Prelude.{
  ◌≡◌, ◌⊎◌, Bool, true, false, String, Option, none, some, List, [], ◌∷◌, ◌++◌, ◌||◌, ◌&&◌,
  if◌then◌else◌, refl, sym, ap, subst, ◌∙◌, arith,
}
use cslearning.Kv.Rpc.{GetArgs, GetReply, Err, PutArgs, unset, ok, err_no_key, err_maybe}
use cslearning.Kv.Server.{get, KvServer, put}
use cslearning.Kv.Clerk.{
  clerk_get, Fate, delivered, request_lost, reply_lost, is_version_error, Attempt, no_reply,
  put_all, put_loop,
}

-- Some call in the list gets through.
abbrev pub answered : List Attempt → Bool
answered [] = false
answered (a ∷ rest) = elim a.fate [ delivered ↦ true | _ ↦ answered rest ]

-- `flag` after these attempts
abbrev pub retried : List Attempt → Bool
retried [] = false
retried (a ∷ rest) = true

-- what `Put` makes of the reply it gets, by its variable `flag`
abbrev pub told : Bool → Err → Err
told flag e = if flag && is_version_error e then err_maybe else e

-- `Put` has not returned before the call `a`, and returns with it: what it returns is what it makes
-- of that call's reply, and nothing more reaches the server.
pub record Ends (kv : KvServer) (args : PutArgs) (flag : Bool) (before : List Attempt) (a : Attempt)
    (after : List Attempt) : Type 0 where
  pub retries : (put_loop kv args flag before).err ≡ none
  pub err :
      (put_loop kv args flag (before ++ a ∷ after)).err
      ≡ some (
          told
            (flag || retried before)
            (put (put_all (put_loop kv args flag before).server a.others) args no_reply).1.err)
  pub server :
      (put_loop kv args flag (before ++ a ∷ after)).server
      ≡ (put (put_all (put_loop kv args flag before).server a.others) args no_reply).0

pub put_loop-Ends :
    (kv : KvServer) (args : PutArgs) (flag : Bool) (before : List Attempt) (a : Attempt)
    (after : List Attempt)
    → answered before ≡ false
    → a.fate ≡ delivered
    → Ends kv args flag before a after
unfolding put_loop
put_loop-Ends kv args flag [] a after lost through = record {
  retries = refl;
  err = rw through (ap some (told_same flag _));
  server = rw through refl;
}
  where
    told_same : (b : Bool) (e : Err) → told b e ≡ told (b || false) e
    told_same true e = refl
    told_same false e = refl
put_loop-Ends kv args flag (x ∷ before) a after lost through =
    go x.fate refl (λ k h. put_loop-Ends k args true before a after h through)
  where
    now : KvServer
    now = put_all kv x.others

    true_or : (b : Bool) (e : Err) → told true e ≡ told (b || true) e
    true_or true e = refl
    true_or false e = refl

    go :
        (f : Fate)
        → x.fate ≡ f
        → ((k : KvServer) → answered before ≡ false → Ends k args true before a after)
        → Ends kv args flag (x ∷ before) a after
    go delivered e rest =
        absurd (no (subst (λ f. elim f [ delivered ↦ true | _ ↦ answered before ] ≡ false) e lost))
      where
        no : true ≡ false → ⊥
        no h = cc
    go request_lost e rest =
        let later =
          rest now
            (subst (λ f. elim f [ delivered ↦ true | _ ↦ answered before ] ≡ false) e lost) in
        record {
          retries = rw e later.retries;
          err = rw e (later.err ∙ ap some (true_or flag _));
          server = rw e later.server;
        }
    go reply_lost e rest =
        let later =
          rest (put now args no_reply).0
            (subst (λ f. elim f [ delivered ↦ true | _ ↦ answered before ] ≡ false) e lost) in
        record {
          retries = rw e later.retries;
          err = rw e (later.err ∙ ap some (true_or flag _));
          server = rw e later.server;
        }

-- `Get` has returned, with `OK` or `ErrNoKey`.
abbrev pub IsAnswer : Option GetReply → Type 0
IsAnswer none = ⊥
IsAnswer (some reply) = (reply.err ≡ ok) ⊎ (reply.err ≡ err_no_key)

pub get-err :
    (kv : KvServer) (args : GetArgs) (reply : GetReply)
    → ((get kv args reply).err ≡ ok) ⊎ ((get kv args reply).err ≡ err_no_key)
unfolding get
get-err kv args reply = ground arith

-- the writes of others in these attempts, in order
abbrev pub all_others : List Attempt → List PutArgs
all_others [] = []
all_others (a ∷ rest) = a.others ++ all_others rest

put_all-++ :
    (kv : KvServer) (xs ys : List PutArgs) → put_all kv (xs ++ ys) ≡ put_all (put_all kv xs) ys
unfolding put_all
put_all-++ kv [] ys = refl
put_all-++ kv (x ∷ xs) ys = put_all-++ (put kv x no_reply).0 xs ys

-- what the handler of `Get` answers
abbrev pub read : KvServer → String → GetReply
read kv key = get kv (record { key = key }) (record { value = ""; version = 0; err = unset })

pub clerk_get-ends :
    (kv : KvServer) (key : String) (before : List Attempt) (a : Attempt) (after : List Attempt)
    → answered before ≡ false
    → a.fate ≡ delivered
    → (clerk_get kv key before ≡ none)
      × (clerk_get kv key (before ++ a ∷ after)
          ≡ some (read (put_all (put_all kv (all_others before)) a.others) key))
unfolding clerk_get put_all
clerk_get-ends kv key [] a after lost through = (refl, rw through refl)
clerk_get-ends kv key (x ∷ before) a after lost through =
    go x.fate refl (λ h. later (clerk_get-ends (put_all kv x.others) key before a after h through))
  where
    later :
        (clerk_get (put_all kv x.others) key before ≡ none)
          × (clerk_get (put_all kv x.others) key (before ++ a ∷ after)
              ≡ some
                  (read (put_all (put_all (put_all kv x.others) (all_others before)) a.others) key))
        → (clerk_get (put_all kv x.others) key before ≡ none)
          × (clerk_get (put_all kv x.others) key (before ++ a ∷ after)
              ≡ some (read (put_all (put_all kv (x.others ++ all_others before)) a.others) key))
    later h =
        subst
          (λ k.
            (clerk_get (put_all kv x.others) key before ≡ none)
            × (clerk_get (put_all kv x.others) key (before ++ a ∷ after)
                ≡ some (read (put_all k a.others) key)))
          (sym (put_all-++ kv x.others (all_others before))) h

    go :
        (f : Fate)
        → x.fate ≡ f
        → (answered before ≡ false
            → (clerk_get (put_all kv x.others) key before ≡ none)
              × (clerk_get (put_all kv x.others) key (before ++ a ∷ after)
                  ≡ some
                      (read (put_all (put_all kv (x.others ++ all_others before)) a.others) key)))
        → (clerk_get kv key (x ∷ before) ≡ none)
          × (clerk_get kv key (x ∷ before ++ a ∷ after)
              ≡ some (read (put_all (put_all kv (x.others ++ all_others before)) a.others) key))
    go delivered e rest =
        absurd (no (subst (λ f. elim f [ delivered ↦ true | _ ↦ answered before ] ≡ false) e lost))
      where
        no : true ≡ false → ⊥
        no h = cc
    go request_lost e rest =
        rw e (rest (subst (λ f. elim f [ delivered ↦ true | _ ↦ answered before ] ≡ false) e lost))
    go reply_lost e rest =
        rw e (rest (subst (λ f. elim f [ delivered ↦ true | _ ↦ answered before ] ≡ false) e lost))
