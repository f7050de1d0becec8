-- ===== src/BootLoop/Single/Sole.antt =====
-- One loop per device.
use stayturgid.Base.{
  ℕ, ◌+◌, ◌≤◌, ◌<◌, ◌≡◌, refl, sym, ap, ◌∙◌, inl, inr, ◌⊎◌, false, none, some, List, [], ◌∷◌, arith,
  Text, Bool-cases, ◌==◌, ==_iff,
}
use mathlib.Core.Path.{subst}
use mathlib.Core.List.{append-nil}
use stayturgid.BatteryUse.Report.{occurs}
use stayturgid.BootLoop.Single.{
  Process, loop, program, Table, Device, process, running_bootloop_pid, without, Stage, looked,
  forked, look, fork, write_pid, System, Moves, here, there, Step, looks, forks, writes, killed,
  spawn, exit, Steps, done, step,
}

abbrev pub loops : Table → ℕ
loops [] = 0
loops ((p, loop) ∷ ps) = 1 + loops ps
loops ((p, program cmd) ∷ ps) = loops ps

-- No two processes of the table have one pid.
abbrev pub IsDistinct : Table → Type 0
IsDistinct [] = Unit
IsDistinct ((p, x) ∷ ps) = (process p ps ≡ none) × IsDistinct ps

-- Every loop of the table has the pid, which is not 0.
abbrev IsNamed : ℕ → Table → Type 0
IsNamed pid [] = Unit
IsNamed pid ((p, loop) ∷ ps) = ((p ≡ pid) × (0 < p)) × IsNamed pid ps
IsNamed pid ((p, program cmd) ∷ ps) = IsNamed pid ps

process_first : (p : ℕ) (x : Process) (ps : Table) → process p ((p, x) ∷ ps) ≡ some x
unfolding process
process_first p x ps = rw (process, (==_iff p p).1 refl) refl

process_rest :
    (p q : ℕ) (x : Process) (ps : Table) → (p == q) ≡ false → process q ((p, x) ∷ ps) ≡ process q ps
unfolding process
process_rest p q x ps h = rw (process, h) refl

-- A table whose loops have the pid has no loop, or finds one under the pid.
IsNamed-cases :
    (pid : ℕ) (ps : Table)
    → IsDistinct ps
    → IsNamed pid ps
    → (loops ps ≡ 0) ⊎ ((process pid ps ≡ some loop) × (0 < pid))
IsNamed-cases pid [] d h = inl refl
IsNamed-cases pid ((p, loop) ∷ ps) d h = inr (
  subst (λ q. process q ((p, loop) ∷ ps) ≡ some loop) h.0.0 (process_first p loop ps),
  omega (arith, h.0.0, h.0.1),
)
IsNamed-cases pid ((p, program cmd) ∷ ps) d h = elim (IsNamed-cases pid ps d.1 h) [
  | inl none_there ↦ inl none_there
  | inr (found, pos) ↦ elim (Bool-cases (p == pid)) [
    | inl same ↦ absurd (cc (ap (λ q. process q ps) ((==_iff p pid).0 same), d.0, found))
    | inr differ ↦ inr (process_rest p pid (program cmd) ps differ ∙ found, pos)
  ]
]

no_loops-IsNamed : (pid : ℕ) (ps : Table) → loops ps ≡ 0 → IsNamed pid ps
no_loops-IsNamed pid [] h = tt
no_loops-IsNamed pid ((p, loop) ∷ ps) h = absurd (omega (arith, h))
no_loops-IsNamed pid ((p, program cmd) ∷ ps) h = no_loops-IsNamed pid ps h

IsNamed-loops : (pid : ℕ) (ps : Table) → IsDistinct ps → IsNamed pid ps → loops ps ≤ 1
IsNamed-loops pid [] d h = omega arith
IsNamed-loops pid ((p, loop) ∷ ps) d h = elim (IsNamed-cases pid ps d.1 h.1) [
  | inl none_there ↦ omega (arith, none_there)
  | inr (found, pos) ↦ absurd (cc (ap (λ q. process q ps) h.0.0, d.0, found))
]
IsNamed-loops pid ((p, program cmd) ∷ ps) d h = IsNamed-loops pid ps d.1 h

without-process : (pid q : ℕ) (ps : Table) → process q ps ≡ none → process q (without pid ps) ≡ none
unfolding process without
without-process pid q [] h = refl
without-process pid q ((p, x) ∷ ps) h = elim (Bool-cases (p == q)) [
  | inl same ↦ absurd (cc (rw same at h))
  | inr differ ↦
      let rest = without-process pid q ps (rw differ at h) in
      elim (Bool-cases (p == pid)) [ inl gone ↦ rw gone rest | inr kept ↦ rw (kept, differ) rest ]
]

without-IsDistinct : (pid : ℕ) (ps : Table) → IsDistinct ps → IsDistinct (without pid ps)
unfolding without
without-IsDistinct pid [] d = tt
without-IsDistinct pid ((p, x) ∷ ps) d = elim (Bool-cases (p == pid)) [
  | inl gone ↦ rw (without, gone) (without-IsDistinct pid ps d.1)
  | inr kept ↦ rw (without, kept) (without-process pid p ps d.0, without-IsDistinct pid ps d.1)
]

without-IsNamed : (pid q : ℕ) (ps : Table) → IsNamed q ps → IsNamed q (without pid ps)
unfolding without
without-IsNamed pid q [] h = tt
without-IsNamed pid q ((p, loop) ∷ ps) h = elim (Bool-cases (p == pid)) [
  | inl gone ↦ rw (without, gone) (without-IsNamed pid q ps h.1)
  | inr kept ↦ rw (without, kept) (h.0, without-IsNamed pid q ps h.1)
]
without-IsNamed pid q ((p, program cmd) ∷ ps) h = elim (Bool-cases (p == pid)) [
  | inl gone ↦ rw (without, gone) (without-IsNamed pid q ps h)
  | inr kept ↦ rw (without, kept) (without-IsNamed pid q ps h)
]

-- The pid that the one loop has: the written one, none while a start has seen no loop, or the forked one.
abbrev owner : Device → List Stage → ℕ
owner d [] = d.pid_file
owner d (looked ∷ starts) = 0
owner d (forked pid ∷ starts) = pid

abbrev AtMostOne : List Stage → Type 0
AtMostOne [] = Unit
AtMostOne (a ∷ []) = Unit
AtMostOne (a ∷ b ∷ starts) = ⊥

abbrev IsSole : Device → List Stage → Type 0
IsSole d starts = IsDistinct d.table × IsNamed (owner d starts) d.table × AtMostOne starts

Moves-cases :
    {a : Stage} {bs xs ys : List Stage}
    → Moves a bs xs ys
    → AtMostOne xs
    → (xs ≡ a ∷ []) × (ys ≡ bs)
Moves-cases {bs = bs} (here {xs = []}) h = (refl, append-nil bs)
Moves-cases (here {xs = x ∷ xs}) h = absurd h
Moves-cases (there {xs = []} m) h = elim m [ ]
Moves-cases (there {xs = x ∷ xs} m) h = absurd h

unnamed-IsNamed : (pid : ℕ) (ps : Table) → IsNamed 0 ps → IsNamed pid ps
unnamed-IsNamed pid [] h = tt
unnamed-IsNamed pid ((p, loop) ∷ ps) h = absurd (omega (arith, h.0.0, h.0.1))
unnamed-IsNamed pid ((p, program cmd) ∷ ps) h = unnamed-IsNamed pid ps h

not_zero : (n : ℕ) → 0 < n → (n == 0) ≡ false
not_zero n h = ground arith

-- A loop that the pid file names is seen.
running-loop :
    (d : Device)
    → process d.pid_file d.table ≡ some loop
    → 0 < d.pid_file
    → running_bootloop_pid d ≡ d.pid_file
unfolding running_bootloop_pid occurs
running-loop d found pos = rw (running_bootloop_pid, not_zero d.pid_file pos, found) refl

look-IsSole : (d : Device) → IsSole d [] → IsSole d (look d [])
unfolding look
look-IsSole d h = elim (Bool-cases (running_bootloop_pid d == 0)) [
  | inr busy ↦ rw (look, busy) h
  | inl free ↦ elim (IsNamed-cases d.pid_file d.table h.0 h.1) [
    | inl none_there ↦ rw (look, free) (h.0, no_loops-IsNamed 0 d.table none_there, tt)
    | inr (found, named) ↦ absurd (
        omega
          (arith, running-loop d found named, (==_iff (running_bootloop_pid d) 0).0 free, named))
  ]
]

spawn-IsNamed :
    (d : Device) (starts : List Stage) (pid : ℕ) (cmd : Text)
    → IsNamed (owner d starts) d.table
    → let e : Device = record d { table = (pid, program cmd) ∷ d.table } in
      IsNamed (owner e starts) e.table
spawn-IsNamed d [] pid cmd h = h
spawn-IsNamed d (looked ∷ starts) pid cmd h = h
spawn-IsNamed d (forked p ∷ starts) pid cmd h = h

exit-IsNamed :
    (d : Device) (starts : List Stage) (pid : ℕ)
    → IsNamed (owner d starts) d.table
    → let e : Device = record d { table = without pid d.table } in IsNamed (owner e starts) e.table
exit-IsNamed d [] pid h = without-IsNamed pid d.pid_file d.table h
exit-IsNamed d (looked ∷ starts) pid h = without-IsNamed pid 0 d.table h
exit-IsNamed d (forked p ∷ starts) pid h = without-IsNamed pid p d.table h

-- A start looks only when no other one is under way.
abbrev pub Apart : {s t : System} → Step s t → Type 0
Apart {s = s} looks = s.starts ≡ []
Apart (forks m pos free) = Unit
Apart (writes m) = Unit
Apart (killed m) = Unit
Apart (spawn free) = Unit
Apart (exit pid) = Unit

-- No two starts of the run overlap.
abbrev pub IsApart : {s t : System} → Steps s t → Type 0
IsApart done = Unit
IsApart (step x xs) = Apart x × IsApart xs

step-IsSole :
    {s t : System} → (x : Step s t) → Apart x → IsSole s.device s.starts → IsSole t.device t.starts
unfolding fork write_pid
step-IsSole {s = s} looks apart h =
    rw apart (look-IsSole s.device (subst (λ starts. IsSole s.device starts) apart h))
step-IsSole {s = s} (forks {pid = pid} m pos free) apart h =
    let (e, f) = Moves-cases m h.2 in
    let k = subst (λ starts. IsSole s.device starts) e h in
    subst (λ starts. IsSole (fork pid s.device) starts) (sym f)
      ((free, k.0), ((refl, pos), unnamed-IsNamed pid s.device.table k.1), tt)
step-IsSole {s = s} (writes m) apart h =
    let (e, f) = Moves-cases m h.2 in
    let k = subst (λ starts. IsSole s.device starts) e h in rw f (k.0, k.1, tt)
step-IsSole {s = s} (killed m) apart h =
    let (e, f) = Moves-cases m h.2 in
    let k = subst (λ starts. IsSole s.device starts) e h in
    rw f (k.0, unnamed-IsNamed s.device.pid_file s.device.table k.1, tt)
step-IsSole {s = s} (spawn {pid = pid} {cmd = cmd} free) apart h =
    ((free, h.0), spawn-IsNamed s.device s.starts pid cmd h.1, h.2)
step-IsSole {s = s} (exit pid) apart h =
    (without-IsDistinct pid s.device.table h.0, exit-IsNamed s.device s.starts pid h.1, h.2)

steps-IsSole :
    {s t : System}
    → (xs : Steps s t) → IsApart xs
    → IsSole s.device s.starts
    → IsSole t.device t.starts
steps-IsSole done apart h = h
steps-IsSole (step x xs) apart h = steps-IsSole xs apart.1 (step-IsSole x apart.0 h)

-- If no start looks while another one is under way, there is at most one loop on the phone at any time,
-- whatever else starts and ends between the steps of a start, and whichever starts follow. There was none
-- at first, no start was under way, none is killed or fails between its fork and the write of the pid,
-- and no process is given the pid of a live one. What the pid file held at first does not matter.
pub sole_loop :
    {s t : System}
    → (xs : Steps s t) → IsApart xs
    → s.starts ≡ []
    → IsDistinct s.device.table
    → loops s.device.table ≡ 0
    → loops t.device.table ≤ 1
sole_loop {s = s} {t = t} xs apart at_rest distinct none_there =
    let h = steps-IsSole xs apart (
      distinct,
      no_loops-IsNamed (owner s.device s.starts) s.device.table none_there,
      rw at_rest tt,
    ) in
    IsNamed-loops (owner t.device t.starts) t.device.table h.0 h.1
