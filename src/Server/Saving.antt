-- ===== src/Server/Saving.antt =====
-- src/server.c: when the state of the server is written to the disk.
use netcosm.Base.{
  ℕ, ◌+◌, ◌%◌, Bool, ◌||◌, List, [], ◌∷◌, ◌==◌, if◌then◌else◌, ◌≡◌, ◌∙◌, Bool-cases, inl, inr, refl,
  arith,
}

abbrev pub save_interval : ℕ
save_interval = 10

-- The static counter of server_save_state, and how often the two files have been written.
pub record Saver : Type 0 where
  pub n : ℕ
  pub writes : ℕ

-- server_save_state, in the master
unfoldable pub server_save_state : Bool → Saver → Saver
server_save_state force s =
    let n = (s.n + 1) % save_interval in
    record { n = n; writes = if n == 0 || force then s.writes + 1 else s.writes }

-- Some calls, one after the other.
unfoldable pub save_all : List Bool → Saver → Saver
unfolding server_save_state
save_all [] s = s
save_all (force ∷ fs) s = save_all fs (server_save_state force s)

-- The calls after which the files are written: those that are forced, and every tenth, counted from
-- `i` calls before.
abbrev pub due : ℕ → List Bool → ℕ
due i [] = 0
due i (force ∷ fs) = (if force || (i + 1) % save_interval == 0 then 1 else 0) + due (i + 1) fs

save_all-due_from :
    (i : ℕ) (fs : List Bool) (s : Saver)
    → s.n ≡ i % save_interval
    → (save_all fs s).writes ≡ s.writes + due i fs
unfolding save_all server_save_state
save_all-due_from i [] s h = omega arith
save_all-due_from i (force ∷ fs) s h =
    let next : (s.n + 1) % save_interval ≡ (i + 1) % save_interval = omega (arith, h) in
    save_all-due_from (i + 1) fs (server_save_state force s) next ∙ elim (Bool-cases force) [
      | inl forced ↦ ground (arith, forced)
      | inr free ↦ ground (arith, free, next)
    ]

-- From the start of the server on, the state is written by exactly those calls that are forced or
-- whose number is a multiple of ten.
pub save_all-due : (fs : List Bool) → (save_all fs (record { n = 0; writes = 0 })).writes ≡ due 0 fs
save_all-due fs =
    let e = save_all-due_from 0 fs (record { n = 0; writes = 0 }) refl in omega (arith, e)
