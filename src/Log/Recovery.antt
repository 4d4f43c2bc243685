-- ===== src/Log/Recovery.antt =====
-- The block writes of a recovery.
use mathlib.Core.Path.{subst}
use unix_c_shell.Common.{
  ℕ, ◌≤◌, ◌≡◌, ◌≢◌, refl, sym, ap, ◌∙◌, true, false, List, [], arith, All, length, ==_refl,
}
use unix_c_shell.Log.{
  Block, Log, update, logblocks, install_from, install_trans, unpack_head, read_head, write_head,
  initlog,
}
use unix_c_shell.Log.Replay.{replay, install_writes, update_ne, unpack_head-pack_head}
use unix_c_shell.Log.Commit.{
  Outside, Wrote, write_head-Wrote, install_from-Wrote, lh-write_head, head_write,
}

-- A recovery installs what the header on the disk names, and leaves the header empty.
module _ (start : ℕ) (d : ℕ → Block) (lh : List ℕ) (head : unpack_head (d start) ≡ lh)
    (apart : All (Outside start) lh) (fits : length lh ≤ logblocks) where
  abbrev booted : Log
  booted = record {
    start = start;
    outstanding = 0;
    committing = false;
    ncommit = 0;
    lh = [];
    cache = d;
    pins = λ _. 0;
    disk = d;
    trace = [];
  }

  read : Log
  unfolding read_head
  read = read_head booted

  recovered-Wrote : Wrote read (install_trans true read) (install_writes start d 0 lh)
  unfolding read install_trans
  recovered-Wrote =
      subst (λ l. Wrote read (install_from true 0 read.lh read) (install_writes start d 0 l)) head
        (install_from-Wrote true d 0 read.lh start read refl (λ x lo hi. refl)
          (subst (All (Outside start)) (sym head) apart) (omega (arith, fits, ap length head)))

  abbrev cleared : Log
  cleared = record (install_trans true read) { lh = [] }

  initlog_lem : initlog start d ≡ write_head cleared
  unfolding initlog read
  initlog_lem = refl

  cleared_start : cleared.start ≡ start
  unfolding read
  cleared_start = recovered-Wrote.start

  pub disk-initlog :
      (x : ℕ)
      → Outside start x
      → (initlog start d).disk x ≡ replay (install_writes start d 0 lh) d x
  unfolding replay read
  disk-initlog x o =
      let other : cleared.start ≢ x = omega (arith, cleared_start) in
      ap (λ (l : Log). l.disk x) initlog_lem
      ∙ ap (λ c. c x) (write_head-Wrote cleared).disk
      ∙ update_ne cleared.disk cleared.start x _ other
      ∙ ap (λ c. c x) recovered-Wrote.disk

  pub head-initlog : ((initlog start d).lh ≡ []) × (unpack_head ((initlog start d).disk start) ≡ [])
  unfolding replay
  head-initlog = (
    ap (λ (l : Log). l.lh) initlog_lem ∙ lh-write_head cleared,
    ap (λ (l : Log). unpack_head (l.disk start)) initlog_lem
        ∙ ap (λ c. unpack_head (c start)) (write_head-Wrote cleared).disk
        ∙ ap (λ n. unpack_head (update cleared.disk n (head_write cleared).1 start)) cleared_start
        ∙ (rw ==_refl (unpack_head-pack_head [] _)),
  )
