-- ===== src/Atomic/Race.antt =====
-- crates/zerochain-fs/src/atomic.rs: `acquire_lock` and the drop of its guard by several processes at
-- once, one call of the file system at a time. The lock file has the process that created it, and
-- what it holds: nothing until its content is written. All processes are alive.
use zerochain.Prelude.{
  ℕ, ◌≡◌, ◌≢◌, refl, sym, ◌∙◌, Bool, true, false, Option, none, some, nat_eq, if◌then◌else◌, arith,
  some-inj,
}

-- Where a process stands in `acquire_lock`: before it, behind a refused creation, behind the reading
-- of a lock file that names no live holder, behind its removal, behind a creation, with a guard, and
-- refused.
pub data Phase : Type 0 where
  idle refused stale removed created holding failed : Phase

pub record LockFile : Type 0 where
  pub creator : ℕ
  pub content : Option ℕ

pub record Race : Type 0 where
  pub phase : ℕ → Phase
  pub file : Option LockFile

abbrev pub move : ℕ → Phase → Option LockFile → Race → Race
move p phase file r = record { phase = λ q. if nat_eq p q then phase else r.phase q; file = file }

abbrev pub new_file : ℕ → LockFile
new_file p = record { creator = p; content = none }

-- The content goes into the file that was opened, if that is still the one at the path.
abbrev pub fill : ℕ → Option LockFile → Option LockFile
fill p none = none
fill p (some f) = some (if nat_eq f.creator p then record f { content = some p } else f)

-- `create` and `lose` are the creations that succeed and fail, first or second; `write` ends
-- `create_lock_file`, and the guard is registered. `refuse` and `judge` read the file, which
-- `judge` finds without a content that names a holder, and `judge_own` finds to be its own, of no
-- guard. Every process finds the others alive.
pub data Step (r : Race) : Race → Type 0 where
  create :
      (p : ℕ) → r.phase p ≡ idle → r.file ≡ none → Step r (move p created (some (new_file p)) r)
  lose :
      (p : ℕ) (f : LockFile) → r.phase p ≡ idle → r.file ≡ some f → Step r (move p refused r.file r)
  write : (p : ℕ) → r.phase p ≡ created → Step r (move p holding (fill p r.file) r)
  refuse :
      (p q : ℕ) (f : LockFile)
      → r.phase p ≡ refused
      → r.file ≡ some f
      → f.content ≡ some q
      → q ≢ p
      → Step r (move p failed r.file r)
  judge :
      (p : ℕ) (f : LockFile)
      → r.phase p ≡ refused
      → r.file ≡ some f
      → f.content ≡ none
      → Step r (move p stale r.file r)
  judge_own :
      (p : ℕ) (f : LockFile)
      → r.phase p ≡ refused
      → r.file ≡ some f
      → f.content ≡ some p
      → Step r (move p stale r.file r)
  vanished : (p : ℕ) → r.phase p ≡ refused → r.file ≡ none → Step r (move p stale r.file r)
  remove : (p : ℕ) → r.phase p ≡ stale → Step r (move p removed none r)
  create_again :
      (p : ℕ) → r.phase p ≡ removed → r.file ≡ none → Step r (move p created (some (new_file p)) r)
  lose_again :
      (p : ℕ) (f : LockFile)
      → r.phase p ≡ removed
      → r.file ≡ some f
      → Step r (move p failed r.file r)
  give_back : (p : ℕ) → r.phase p ≡ holding → Step r (move p idle none r)

pub data Reach (r : Race) : Race → Type 0 where
  here : Reach r r
  next : {s t : Race} → Reach r s → Step s t → Reach r t

-- Nobody has called, and there is no lock file.
abbrev pub quiet : Race
quiet = record { phase = λ p. idle; file = none }

-- Any two processes that are alive can come to hold the lock of one directory at the same time: the
-- second finds the file of the first before its content is written, takes it for a corrupt one, and
-- removes it.
pub both_hold :
    (p q : ℕ) → p ≢ q → (r : Race) × Reach quiet r × (r.phase p ≡ holding) × (r.phase q ≡ holding)
both_hold p q other =
    let r₁ = move p created (some (new_file p)) quiet in
    let r₂ = move q refused r₁.file r₁ in
    let r₃ = move q stale r₂.file r₂ in
    let r₄ = move q removed none r₃ in
    let r₅ = move q created (some (new_file q)) r₄ in
    let r₆ = move q holding (fill q r₅.file) r₅ in
    let r₇ = move p holding (fill p r₆.file) r₆ in
    (
      r₇,
      next
          (next
            (next
              (next
                (next
                  (next (next here (create p refl refl))
                    (lose q (new_file p) (ground (arith, other)) refl))
                  (judge q (new_file p) (ground (arith, other)) refl refl))
                (remove q (ground (arith, other))))
              (create_again q (ground (arith, other)) refl))
            (write q (ground (arith, other))))
          (write p (ground (arith, other))),
      (ground (arith, other)),
      (ground (arith, other)),
    )

abbrev pub creator_of : Option LockFile → Option ℕ
creator_of none = none
creator_of (some f) = some f.creator

-- Nobody takes the lock file for stale, in any state of the run.
abbrev pub IsPatient : {r s : Race} → Reach r s → Type 0
IsPatient here = Unit
IsPatient (next {t = t} run step) = ((p : ℕ) → t.phase p ≢ stale) × IsPatient run

abbrev is_owner : Phase → Bool
is_owner created = true
is_owner holding = true
is_owner idle = false
is_owner refused = false
is_owner stale = false
is_owner removed = false
is_owner failed = false

-- The lock file is that of each process that created one, and nobody is about to remove it.
abbrev IsOwned : Race → Type 0
IsOwned r =
    ((p : ℕ) → is_owner (r.phase p) ≡ true → creator_of r.file ≡ some p)
    × ((p : ℕ) → (r.phase p ≢ stale) × (r.phase p ≢ removed))

creator_of-fill : (p : ℕ) (file : Option LockFile) → creator_of (fill p file) ≡ creator_of file
creator_of-fill p none = refl
creator_of-fill p (some f) = ground arith

Step-IsOwned : {r s : Race} → Step r s → ((p : ℕ) → s.phase p ≢ stale) → IsOwned r → IsOwned s
Step-IsOwned {r} (create p e k) patient (own, calm) =
    (λ q h. ground (arith, own q, k, e), λ q. ground (arith, calm q))
Step-IsOwned {r} (lose p f e k) patient (own, calm) =
    (λ q h. ground (arith, own q), λ q. ground (arith, calm q))
Step-IsOwned {r} (write p e) patient (own, calm) =
    (λ q h. ground (arith, own q, own p, e, creator_of-fill p r.file), λ q. ground (arith, calm q))
Step-IsOwned {r} (refuse p o f e k c ne) patient (own, calm) =
    (λ q h. ground (arith, own q), λ q. ground (arith, calm q))
Step-IsOwned {r} (judge p f e k c) patient (own, calm) = absurd (patient p (ground arith))
Step-IsOwned {r} (judge_own p f e k c) patient (own, calm) = absurd (patient p (ground arith))
Step-IsOwned {r} (vanished p e k) patient (own, calm) = absurd (patient p (ground arith))
Step-IsOwned {r} (remove p e) patient (own, calm) = absurd ((calm p).0 e)
Step-IsOwned {r} (create_again p e k) patient (own, calm) = absurd ((calm p).1 e)
Step-IsOwned {r} (lose_again p f e k) patient (own, calm) = absurd ((calm p).1 e)
Step-IsOwned {r} (give_back p e) patient (own, calm) =
    (λ q h. ground (arith, own q, own p, e), λ q. ground (arith, calm q))

Reach-IsOwned : {r : Race} (run : Reach quiet r) → IsPatient run → IsOwned r
Reach-IsOwned here h = (λ p e. cc, λ p. (λ e. cc, λ e. cc))
Reach-IsOwned (next run step) (patient, h) = Step-IsOwned step patient (Reach-IsOwned run h)

-- In every run from the state in which nobody has called, no two processes hold the lock at the same
-- time, as long as nobody takes the lock file for stale.
pub held_once :
    {r : Race} (run : Reach quiet r)
    → IsPatient run
    → (p q : ℕ) → p ≢ q
    → r.phase p ≡ holding
    → r.phase q ≢ holding
held_once {r} run patient p q ne h k =
    let (own, calm) = Reach-IsOwned run patient in
    ne (some-inj (sym (own p (ground (arith, h))) ∙ own q (ground (arith, k))))
