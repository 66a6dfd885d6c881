-- ===== src/Monitor/Treat.antt =====
-- Whom `check_pid` of native/src/core/deny/ptrace.cpp treats.
use kitsune_ufork.Common.{
  ℕ, ◌≡◌, refl, ◌∙◌, ap, Bool, true, false, not, ◌||◌, Option, none, some, List, [], ◌∷◌, ◌++◌,
  Text, arith, if◌then◌else◌, ◌==◌, Bool-cases, Option-cases, ◌⊎◌, inl, inr,
}
use kitsune_ufork.Deny.State.{Deny}
use kitsune_ufork.Deny.Query.{is_deny_target}
use kitsune_ufork.Deny.Invariant.{IsConsistent}
use kitsune_ufork.Deny.Lookup.{is_deny_target-defined}
use kitsune_ufork.Monitor.{Env, Act, detach, stop, mount, revert, Monitor, detach_pid, in_range}
use kitsune_ufork.Monitor.Check.{
  check_pid, not_target, ask, on_answer, treat, still_zygote, shares_ns,
}

-- The process is an app's, past zygote's preparation, that the list names, in a namespace that is
-- not its parent's.
abbrev pub IsTarget : Env → ℕ → Deny → Type 0
IsTarget e pid d =
    (uid : ℕ) × ((cmdline : Text) × (((e.info pid).uid ≡ some uid)
        × ((uid == 0) ≡ false)
        × ((e.info pid).cmdline ≡ some cmdline)
        × (still_zygote cmdline ≡ false)
        × ((is_deny_target e.world uid cmdline 95 d).1 ≡ some true)
        × (shares_ns e pid ≡ false)))

-- The new calls for a process that is treated, and for one that is let go.
abbrev treated_acts : Bool → ℕ → List Act
treated_acts sulist pid =
    detach pid 0 ∷ stop pid ∷ (if sulist then mount pid else revert pid) ∷ detach pid 0 ∷ []

-- The process is still root's, or has one of the names from before its specialisation.
abbrev pub IsEarly : Env → ℕ → Type 0
IsEarly e pid =
    (uid : ℕ) × (((e.info pid).uid ≡ some uid)
      × (((uid == 0) ≡ true)
          ⊎ ((cmdline : Text) × (((e.info pid).cmdline ≡ some cmdline)
                × (still_zygote cmdline ≡ true)))))

-- Whether check_pid is done with a process: it is not exactly if it is early, and then nothing at all
-- changes. If it is, the process is out of all three sets; it was stopped and mounted to, or reverted
-- without SuList, exactly if it is a target, and else only detached; and an index outside of the
-- bitsets is noted exactly if the number is none of theirs.
abbrev pub Treated : Env → ℕ → Monitor → Option (Monitor × Bool) → Type 0
Treated e pid m none = ⊥
Treated e pid m (some (m', false)) = (m' ≡ m) × IsEarly e pid × (IsConsistent m'.deny)
Treated e pid m (some (m', true)) =
    (m'.attaches pid ≡ false)
    × (m'.allowed pid ≡ false)
    × (m'.checked pid ≡ false)
    × (((m'.acts ≡ m.acts ++ detach pid 0 ∷ []) × (¬ IsTarget e pid m.deny))
        ⊎ ((m'.acts ≡ m.acts ++ treated_acts m'.deny.sulist pid) × (IsTarget e pid m.deny)))
    × (¬ IsEarly e pid)
    × (m'.overrun ≡ (m.overrun || not (in_range pid)))
    × (IsConsistent m'.deny)

is_late :
    (e : Env) (pid uid : ℕ) (cmdline : Text)
    → (e.info pid).uid ≡ some uid
    → (uid == 0) ≡ false
    → (e.info pid).cmdline ≡ some cmdline
    → still_zygote cmdline ≡ false
    → ¬ IsEarly e pid
is_late e pid uid cmdline u app k y (uid', (u', inl root)) = ground arith
is_late e pid uid cmdline u app k y (uid', (u', inr (cmd', (k', early)))) = ground arith

is_gone : (e : Env) (pid : ℕ) → (e.info pid).uid ≡ none → ¬ IsEarly e pid
is_gone e pid u (uid, (u', h)) = ground arith

is_unread :
    (e : Env) (pid uid : ℕ)
    → (e.info pid).uid ≡ some uid
    → (uid == 0) ≡ false
    → (e.info pid).cmdline ≡ none
    → ¬ IsEarly e pid
is_unread e pid uid u app k (uid', (u', inl root)) = ground arith
is_unread e pid uid u app k (uid', (u', inr (cmd', (k', early)))) = ground arith

let_go :
    (e : Env) (pid : ℕ) (m x : Monitor)
    → x.acts ≡ m.acts
    → x.overrun ≡ m.overrun
    → (¬ IsEarly e pid)
    → IsConsistent x.deny
    → (¬ IsTarget e pid m.deny)
    → Treated e pid m (some (detach_pid pid 0 x, true))
unfolding detach_pid
let_go e pid m x a o late c n =
    (ground arith, ground arith, ground arith, inl (ground arith, n), late, ground arith, c)

four_acts :
    (l : List Act) (a b c d : Act)
    → (((l ++ a ∷ []) ++ b ∷ []) ++ c ∷ []) ++ d ∷ [] ≡ l ++ a ∷ b ∷ c ∷ d ∷ []
four_acts [] a b c d = refl
four_acts (x ∷ l) a b c d = ap (λ r. x ∷ r) (four_acts l a b c d)

treats :
    (e : Env) (pid : ℕ) (m x : Monitor)
    → x.acts ≡ m.acts
    → x.overrun ≡ m.overrun
    → (¬ IsEarly e pid)
    → IsConsistent x.deny
    → IsTarget e pid m.deny
    → Treated e pid m (some (detach_pid pid 0 (treat pid x), true))
unfolding detach_pid treat
treats e pid m x a o late c t = (
  ground arith,
  ground arith,
  ground arith,
  inr (four_acts x.acts _ _ _ _ ∙ ap (λ l. l ++ treated_acts x.deny.sulist pid) a, t),
  late,
  ground arith,
  c,
)

decided :
    (e : Env) (pid uid : ℕ) (m x : Monitor) (hit : Bool) (cmdline : Text)
    → IsConsistent x.deny
    → x.acts ≡ m.acts
    → x.overrun ≡ m.overrun
    → (e.info pid).uid ≡ some uid
    → (uid == 0) ≡ false
    → (e.info pid).cmdline ≡ some cmdline
    → still_zygote cmdline ≡ false
    → (is_deny_target e.world uid cmdline 95 m.deny).1 ≡ some hit
    → Treated e pid m (on_answer e pid x (some hit))
decided e pid uid m x false cmdline c a o u app k y h =
    let_go e pid m x a o (is_late e pid uid cmdline u app k y) c
      (λ (uid', (cmd', (u', z, k', y', h', s))).
        let same : uid ≡ uid' = ground arith in
        let same' : cmdline ≡ cmd' = ground arith in absurd (differs (rw (same, same') at h) h'))
  where
    differs : {o : Option Bool} → o ≡ some false → o ≡ some true → ⊥
    differs p q = ground arith
decided e pid uid m x true cmdline c a o u app k y h = elim (Bool-cases (shares_ns e pid)) [
  | inl shared ↦ rw shared (
      let_go e pid m x a o (is_late e pid uid cmdline u app k y) c
        (λ (uid', (cmd', (u', z, k', y', h', s))). ground arith))
  | inr apart ↦ rw apart (
      treats e pid m x a o (is_late e pid uid cmdline u app k y) c
        (uid, (cmdline, (u, app, k, y, h, apart))))
]

answered :
    (e : Env) (pid uid : ℕ) (m : Monitor) (cmdline : Text)
    → IsConsistent m.deny
    → (e.info pid).uid ≡ some uid
    → (uid == 0) ≡ false
    → (e.info pid).cmdline ≡ some cmdline
    → still_zygote cmdline ≡ false
    → Treated e pid m (
        on_answer e pid
          (record m { deny = (is_deny_target e.world uid cmdline 95 m.deny).0 })
          (is_deny_target e.world uid cmdline 95 m.deny).1)
answered e pid uid m cmdline c u app k y =
    let x = record m { deny = (is_deny_target e.world uid cmdline 95 m.deny).0 } in
    let (c', defined) = is_deny_target-defined e.world uid cmdline 95 m.deny c in
    elim (Option-cases (is_deny_target e.world uid cmdline 95 m.deny).1) [
      | inl gone ↦ absurd (defined gone)
      | inr (hit, h) ↦ rw h (decided e pid uid m x hit cmdline c' refl refl u app k y h)
    ]

asks :
    (e : Env) (pid uid : ℕ) (m : Monitor) (cmdline : Text)
    → IsConsistent m.deny
    → (e.info pid).uid ≡ some uid
    → (uid == 0) ≡ false
    → (e.info pid).cmdline ≡ some cmdline
    → Treated e pid m (ask e pid uid m cmdline)
asks e pid uid m cmdline c u app k = elim (Bool-cases (still_zygote cmdline)) [
  | inl early ↦ rw early (refl, (uid, (u, inr (cmdline, (k, early)))), c)
  | inr y ↦ rw y (answered e pid uid m cmdline c u app k y)
]

pub gone :
    (e : Env) (pid : ℕ) (m : Monitor)
    → (e.info pid).uid ≡ none
    → check_pid e pid m ≡ not_target pid m
unfolding check_pid
gone e pid m u = rw (check_pid, u) refl

pub of_root :
    (e : Env) (pid uid : ℕ) (m : Monitor)
    → (e.info pid).uid ≡ some uid
    → (uid == 0) ≡ true
    → check_pid e pid m ≡ some (m, false)
unfolding check_pid
of_root e pid uid m u z = rw (check_pid, u, z) refl

pub unread :
    (e : Env) (pid uid : ℕ) (m : Monitor)
    → (e.info pid).uid ≡ some uid
    → (uid == 0) ≡ false
    → (e.info pid).cmdline ≡ none
    → check_pid e pid m ≡ not_target pid m
unfolding check_pid
unread e pid uid m u z k = rw (check_pid, u, z, k) refl

pub read_name :
    (e : Env) (pid uid : ℕ) (m : Monitor) (cmdline : Text)
    → (e.info pid).uid ≡ some uid
    → (uid == 0) ≡ false
    → (e.info pid).cmdline ≡ some cmdline
    → check_pid e pid m ≡ ask e pid uid m cmdline
unfolding check_pid
read_name e pid uid m cmdline u z k = rw (check_pid, u, z, k) refl

-- On maps that fit, check_pid reads no iterator end() and keeps them so, and treats a process exactly
-- as Treated says: it is not done with one exactly if this is still root's or has a name from before
-- its specialisation, and then changes nothing; any other one is out of all three sets afterwards,
-- and was stopped and mounted to (SuList) or reverted (else) exactly if it is an app's process
-- that the list names, in a namespace of its own, and else only detached. An index outside of the
-- bitsets happens exactly to a number outside of 1 to 32768 that it is done with.
pub check_pid-Treated :
    (e : Env) (pid : ℕ) (m : Monitor) → IsConsistent m.deny → Treated e pid m (check_pid e pid m)
check_pid-Treated e pid m c = elim (Option-cases (e.info pid).uid) [
  | inl u ↦ rw (gone e pid m u) (
      let_go e pid m m refl refl (is_gone e pid u) c
        (λ (uid, (cmd, (u', z, k, y, h, s))). ground arith))
  | inr (uid, u) ↦ elim (Bool-cases (uid == 0)) [
    | inl root ↦ rw (of_root e pid uid m u root) (refl, (uid, (u, inl root)), c)
    | inr app ↦ elim (Option-cases (e.info pid).cmdline) [
      | inl k ↦ rw (unread e pid uid m u app k) (
          let_go e pid m m refl refl (is_unread e pid uid u app k) c
            (λ (uid', (cmd, (u', z, k', y, h, s))). ground arith))
      | inr (cmdline, k) ↦
          rw (read_name e pid uid m cmdline u app k) (asks e pid uid m cmdline c u app k)
    ]
  ]
]
