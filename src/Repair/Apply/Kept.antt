-- ===== src/Repair/Apply/Kept.antt =====
-- What a swap that is cut off leaves of each edited file, in src/learnarken/repair/apply.py.
use learn_arken.Prelude.{String, ◌≡◌, ◌≢◌, ◌⊎◌, inl, inr, sym, ◌∙◌, none, some, List, All, All-map}
use learn_arken.Prelude.Dict
use learn_arken.Repair.Apply.{file, Files, Bytes, bak, Target, Disk, Swapped, names}
use learn_arken.Repair.Apply.Turn.{IsWhole}
use learn_arken.Repair.Apply.Names.{bak-injective, bak-ne-new, ne-bak, ne-new}
use learn_arken.Repair.Apply.Run.{
  Clear, IsApart, All-zip, Run, done-All, get-Run, bak-IsOther, bak-Absent, ended, stopped, turned,
}

-- A file that recovery gives back: as before with no backup, or with its old bytes in the backup.
abbrev pub IsKept : Files → Files → String → Type 0
IsKept fs fs' n =
    ((Dict.get (bak n) fs' ≡ none) × (Dict.get n fs' ≡ Dict.get n fs))
    ⊎ ((b : Bytes) × (Dict.get (bak n) fs' ≡ some (file b)) × (Dict.get n fs ≡ some (file b)))

abbrev pub NoBackup : Files → String → Type 0
NoBackup fs n = Dict.get (bak n) fs ≡ none

-- A directory that differs only at files apart from `m`.
pub IsKept-later :
    (fs fs' fs'' : Files) (m : String)
    → Dict.get (bak m) fs'' ≡ Dict.get (bak m) fs'
    → Dict.get m fs'' ≡ Dict.get m fs'
    → IsKept fs fs' m
    → IsKept fs fs'' m
IsKept-later fs fs' fs'' m b e (inl h) = inl (b ∙ h.0, e ∙ h.1)
IsKept-later fs fs' fs'' m b e (inr (c, h, g)) = inr (c, b ∙ h, g)

module _ {disk : Disk} (whole : (n : String) → IsWhole (disk n)) where
  pub names-IsKept :
      {ts : List Target} {fs : Files} {r : Swapped}
      → Run disk ts fs r
      → IsApart (names ts)
      → All (NoBackup fs) (names ts)
      → All (IsKept fs r.files) (names ts)
  names-IsKept ended a z = tt
  names-IsKept (stopped {t} {ts} {fs} {fs'} h) a z = (
    elim (h.backup (whole t.name)) [
      | inl same ↦ inl (same ∙ z.0, h.frame t.name (ne-bak t.name) (ne-new t.name))
      | inr (saved, was) ↦ inr (t.original, saved, was)
    ],
    All-map (λ m. Clear t.name m × NoBackup fs m) (IsKept fs fs')
        (λ m c. inl (
          h.frame (bak m) (λ e. c.0.0 (bak-injective t.name m (sym e))) (bak-ne-new m t.name) ∙ c.1,
          h.frame m c.0.3 c.0.4,
        ))
        (names ts) (All-zip (Clear t.name) (NoBackup fs) (names ts) a.0 z.1),
  )
  names-IsKept (turned {t} {ts} {fs} {fs'} {r} h run) a z = (
    inr (
      t.original,
      get-Run (bak t.name) run (bak-IsOther t.name (names ts) a.0)
            (done-All (λ m. bak t.name ≢ m) run (bak-Absent t.name (names ts) a.0))
          ∙ h.backup,
      h.was,
    ),
    All-map (λ m. Clear t.name m × IsKept fs' r.files m) (IsKept fs r.files)
        (λ m c. earlier m c.0 c.1) (names ts)
        (All-zip (Clear t.name) (IsKept fs' r.files) (names ts) a.0 (
          names-IsKept run a.1 (
            All-map (λ m. Clear t.name m × NoBackup fs m) (NoBackup fs')
              (λ m c. apart_backup m c.0 ∙ c.1) (names ts)
              (All-zip (Clear t.name) (NoBackup fs) (names ts) a.0 z.1)))),
  )
    where
      apart_backup : (m : String) → Clear t.name m → Dict.get (bak m) fs' ≡ Dict.get (bak m) fs
      apart_backup m c =
          h.frame (bak m) (λ e. c.1 (sym e)) (λ e. c.0 (bak-injective t.name m (sym e)))
            (bak-ne-new m t.name)

      earlier : (m : String) → Clear t.name m → IsKept fs' r.files m → IsKept fs r.files m
      earlier m c (inl k) = inl (k.0, k.1 ∙ h.frame m (λ e. c.0 (sym e)) c.3 c.4)
      earlier m c (inr (b, k, g)) = inr (b, k, sym (h.frame m (λ e. c.0 (sym e)) c.3 c.4) ∙ g)
