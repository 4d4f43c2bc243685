-- ===== src/Cache/References.antt =====
-- The references to the blocks in the cache.
use unix_c_shell.Common.{
  ℕ, ◌+◌, ◌-◌, ◌≤◌, ◌<◌, ◌≡◌, refl, sym, ap, ◌∙◌, Bool, true, false, ◌&&◌, Option, none, some, List,
  [], ◌∷◌, arith, ◌==◌, if◌then◌else◌, Bool-cases, Option-cases, inl, inr,
}
use unix_c_shell.Cache.{Buf, is_block, hit, recycle, bget, at_id, pull, brelse}

-- The references to a block, and the buffers that hold it.
abbrev pub references : (dev blockno : ℕ) → List Buf → ℕ
references dev blockno [] = 0
references dev blockno (b ∷ bs) =
    (if is_block dev blockno b then b.refcnt else 0) + references dev blockno bs

abbrev pub copies : (dev blockno : ℕ) → List Buf → ℕ
copies dev blockno [] = 0
copies dev blockno (b ∷ bs) = (if is_block dev blockno b then 1 else 0) + copies dev blockno bs

hit_lem :
    (dev blockno d n id : ℕ) (bs cs : List Buf)
    → hit dev blockno bs ≡ some (id, cs)
    → (copies d n cs ≡ copies d n bs)
      × (references d n cs ≡ references d n bs + (if dev == d && blockno == n then 1 else 0))
unfolding hit is_block
hit_lem dev blockno d n id [] cs h = cc
hit_lem dev blockno d n id (b ∷ bs) cs h = elim (Bool-cases (is_block dev blockno b)) [
  | inl e ↦
      let q : ◌≡◌ {A = Option (ℕ × List Buf)} (some (b.id, record b { refcnt = b.refcnt + 1 } ∷ bs))
          (some (id, cs)) =
        rw (e, if◌then◌else◌) at h in
      let eq : record b { refcnt = b.refcnt + 1 } ∷ bs ≡ cs = cc in
      rw (← eq) (ground arith, ground arith)
  | inr e ↦ elim (Option-cases (hit dev blockno bs)) [
    | inl f ↦
        let q : ◌≡◌ {A = Option (ℕ × List Buf)} none (some (id, cs)) =
          rw (e, f, if◌then◌else◌) at h in
        cc
    | inr ((i, ds), f) ↦
        let q : ◌≡◌ {A = Option (ℕ × List Buf)} (some (i, b ∷ ds)) (some (id, cs)) =
          rw (e, f, if◌then◌else◌) at h in
        let eq : b ∷ ds ≡ cs = cc in
        let r = hit_lem dev blockno d n i bs ds f in
        rw (← eq) (omega (arith, r.0), omega (arith, r.1))
  ]
]

hit-none : (dev blockno : ℕ) (bs : List Buf) → hit dev blockno bs ≡ none → copies dev blockno bs ≡ 0
unfolding hit
hit-none dev blockno [] h = refl
hit-none dev blockno (b ∷ bs) h = elim (Bool-cases (is_block dev blockno b)) [
  | inl e ↦
      let q : ◌≡◌ {A = Option (ℕ × List Buf)} (some (b.id, record b { refcnt = b.refcnt + 1 } ∷ bs))
          none =
        rw (e, if◌then◌else◌) at h in
      cc
  | inr e ↦ elim (Option-cases (hit dev blockno bs)) [
    | inl f ↦ rw (e, if◌then◌else◌) (omega (arith, hit-none dev blockno bs f))
    | inr ((i, ds), f) ↦
        let q : ◌≡◌ {A = Option (ℕ × List Buf)} (some (i, b ∷ ds)) none =
          rw (e, f, if◌then◌else◌) at h in
        cc
  ]
]

recycle_lem :
    (dev blockno d n id : ℕ) (bs cs : List Buf)
    → recycle dev blockno bs ≡ some (id, cs)
    → (copies d n cs ≤ copies d n bs + (if dev == d && blockno == n then 1 else 0))
      × (references d n cs ≡ references d n bs + (if dev == d && blockno == n then 1 else 0))
unfolding recycle is_block
recycle_lem dev blockno d n id [] cs h = cc
recycle_lem dev blockno d n id (b ∷ bs) cs h = elim (Option-cases (recycle dev blockno bs)) [
  | inr ((i, ds), f) ↦
      let q : ◌≡◌ {A = Option (ℕ × List Buf)} (some (i, b ∷ ds)) (some (id, cs)) = rw f at h in
      let eq : b ∷ ds ≡ cs = cc in
      let r = recycle_lem dev blockno d n i bs ds f in
      rw (← eq) (omega (arith, r.0), omega (arith, r.1))
  | inl f ↦ elim (Bool-cases (b.refcnt == 0)) [
    | inr e ↦
        let q : ◌≡◌ {A = Option (ℕ × List Buf)} none (some (id, cs)) =
          rw (f, e, if◌then◌else◌) at h in
        cc
    | inl e ↦
        let q : ◌≡◌ {A = Option (ℕ × List Buf)}
            (some (b.id, record b { dev = dev; blockno = blockno; valid = false; refcnt = 1 } ∷ bs))
            (some (id, cs)) =
          rw (f, e, if◌then◌else◌) at h in
        let eq : record b { dev = dev; blockno = blockno; valid = false; refcnt = 1 } ∷ bs ≡ cs =
          cc in
        rw (← eq) (ground arith, ground arith)
  ]
]

-- `bget` adds one reference to the block that is asked for and leaves the references to every other,
-- so that no buffer that is referenced is recycled; and a block that is in at most one buffer is in at
-- most one afterwards.
pub bget_lem :
    (dev blockno d n id : ℕ) (bs cs : List Buf)
    → copies d n bs ≤ 1
    → bget dev blockno bs ≡ some (id, cs)
    → (copies d n cs ≤ 1)
      × (references d n cs ≡ references d n bs + (if dev == d && blockno == n then 1 else 0))
unfolding bget
bget_lem dev blockno d n id bs cs one h = elim (Option-cases (hit dev blockno bs)) [
  | inr ((i, ds), f) ↦
      let q : ◌≡◌ {A = Option (ℕ × List Buf)} (some (i, ds)) (some (id, cs)) = rw (f, bget) at h in
      let r = hit_lem dev blockno d n id bs cs (f ∙ q) in (omega (arith, r.0), r.1)
  | inl f ↦
      let q : recycle dev blockno bs ≡ some (id, cs) = rw (f, bget) at h in
      let r = recycle_lem dev blockno d n id bs cs q in
      let c = hit-none dev blockno bs f in
      (
        elim (Bool-cases (dev == d && blockno == n)) [
          | inl e ↦
              let a : dev ≡ d = ground arith in
              let b : blockno ≡ n = ground arith in
              let c' : copies d n bs ≡ 0 = rw (a, b) at c in
              let l : copies d n cs ≤ copies d n bs + 1 = rw (e, if◌then◌else◌) at r.0 in
              omega arith
          | inr e ↦
              let l : copies d n cs ≤ copies d n bs + 0 = rw (e, if◌then◌else◌) at r.0 in
              omega arith
        ],
        r.1,
      )
]

-- The buffer that is pulled out, and the list in which `c` of the same block stands for it.
pull_lem :
    (id d n : ℕ) (b c : Buf) (bs cs : List Buf)
    → pull id bs ≡ some (b, cs)
    → is_block d n c ≡ is_block d n b
    → (references d n bs ≡ (if is_block d n b then b.refcnt else 0) + references d n cs)
      × (references d n (at_id id (λ x. c) bs)
          ≡ (if is_block d n c then c.refcnt else 0) + references d n cs)
unfolding pull at_id
pull_lem id d n b c [] cs h s = cc
pull_lem id d n b c (x ∷ bs) cs h s = elim (Bool-cases (x.id == id)) [
  | inl e ↦
      let q : ◌≡◌ {A = Option (Buf × List Buf)} (some (x, bs)) (some (b, cs)) =
        rw (e, if◌then◌else◌) at h in
      let a : x ≡ b = cc in let r : bs ≡ cs = cc in rw (e, if◌then◌else◌, a, r) (refl, refl)
  | inr e ↦ elim (Option-cases (pull id bs)) [
    | inl f ↦
        let q : ◌≡◌ {A = Option (Buf × List Buf)} none (some (b, cs)) =
          rw (e, f, if◌then◌else◌) at h in
        cc
    | inr ((y, ds), f) ↦
        let q : ◌≡◌ {A = Option (Buf × List Buf)} (some (y, x ∷ ds)) (some (b, cs)) =
          rw (e, f, if◌then◌else◌) at h in
        let a : y ≡ b = cc in
        let r : x ∷ ds ≡ cs = cc in
        let g : pull id bs ≡ some (b, ds) = rw a at f in
        let k = pull_lem id d n b c bs ds g s in
        rw (e, if◌then◌else◌, ← r) (omega (arith, k.0), omega (arith, k.1))
  ]
]

one_less :
    (t : Bool) (m r : ℕ)
    → 0 < m
    → (if t then m - 1 else 0) + r + (if t then 1 else 0) ≡ (if t then m else 0) + r
one_less true m r h = omega arith
one_less false m r h = omega arith

-- `brelse` on a locked and referenced buffer returns, takes one reference from its block and none from
-- any other.
pub brelse_lem :
    (id d n : ℕ) (b : Buf) (bs rest : List Buf)
    → pull id bs ≡ some (b, rest)
    → b.locked ≡ true
    → 0 < b.refcnt
    → (cs : List Buf) × (brelse id bs ≡ some cs)
      × (references d n cs + (if is_block d n b then 1 else 0) ≡ references d n bs)
unfolding brelse is_block
brelse_lem id d n b bs rest p l lt =
    let b1 : Buf = record b { locked = false; refcnt = b.refcnt - 1 } in
    let k = pull_lem id d n b b1 bs rest p refl in
    elim (Bool-cases (b.refcnt - 1 == 0)) [
      | inl e ↦ (
        b1 ∷ rest,
        rw (p, l, e, brelse, if◌then◌else◌),
        one_less (is_block d n b) b.refcnt (references d n rest) lt ∙ sym k.0,
      )
      | inr e ↦ (
        at_id id (λ c. b1) bs,
        rw (p, l, e, brelse, if◌then◌else◌),
        ap (λ m. m + (if is_block d n b then 1 else 0)) k.1
            ∙ one_less (is_block d n b) b.refcnt (references d n rest) lt
            ∙ sym k.0,
      )
    ]
