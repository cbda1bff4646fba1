-- ===== src/Pools/Pool/History.antt =====
-- Any sequence of calls on a slot pool: the invariant holds, and a destroyed handle stays stale.
use laige_cpp.Prelude.{
  ℕ, zero, suc, ◌+◌, ◌-◌, ◌%◌, ◌^◌, ◌<◌, ◌≡◌, ◌∙◌, arith, true, false, ◌&&◌, Bool-cases, inl, inr,
  ltb, leb, ◌==◌, if◌then◌else◌, List, [], ◌∷◌,
}
use laige_cpp.Pools.Words.{inc32}
use laige_cpp.Pools.Pool.{
  Pool, PoolHandle, init, is_valid, create, free_slot, destroy, clear_from, clear,
}
use laige_cpp.Pools.Pool.Invariant.{Inv, create-Inv, destroy-Inv, clear-Inv, cleared, is_valid_iff}
use laige_cpp.Pools.Pool.Start.{init-Inv}

pub data Call (A : Type 0) : Type 0 where
  creates : A → Call A
  destroys : PoolHandle → Call A
  clears : Call A

module _ {A : Type 0} where
  unfoldable pub step : Call A → Pool A → Pool A
  step (creates a) p = (create a p).1
  step (destroys h) p = (destroy h p).1
  step clears p = clear p

  unfoldable pub run : List (Call A) → Pool A → Pool A
  run [] p = p
  run (c ∷ cs) p = run cs (step c p)

  -- How often a call frees slot `i`.
  unfoldable pub frees : ℕ → Call A → Pool A → ℕ
  frees i (creates a) p = 0
  frees i (destroys h) p = if is_valid p h && h.index == i then 1 else 0
  frees i clears p = if p.alive i then 1 else 0

  unfoldable pub total_frees : ℕ → List (Call A) → Pool A → ℕ
  total_frees i [] p = 0
  total_frees i (c ∷ cs) p = frees i c p + total_frees i cs (step c p)

  step-Inv : (c : Call A) (p : Pool A) → Inv p → Inv (step c p)
  unfolding step
  step-Inv (creates a) p v = create-Inv a p v
  step-Inv (destroys h) p v = destroy-Inv h p v
  step-Inv clears p v = (clear-Inv p v).0

  run-Inv : (cs : List (Call A)) (p : Pool A) → Inv p → Inv (run cs p)
  unfolding run
  run-Inv [] p v = v
  run-Inv (c ∷ cs) p v = run-Inv cs (step c p) (step-Inv c p v)

  -- The invariant holds after any sequence of calls on a new pool.
  pub run-init-Inv :
      (capacity : ℕ) (cs : List (Call A)) → capacity < 2 ^ 32 → Inv (run cs (init capacity))
  run-init-Inv capacity cs h = run-Inv cs (init capacity) (init-Inv capacity h)

  cleared-generation :
      (i j : ℕ) (p : Pool A)
      → (if p.alive i then free_slot i p else p).generations j
        ≡ (if p.alive j && i == j then inc32 (p.generations j) else p.generations j)
  unfolding free_slot
  cleared-generation i j p = elim (Bool-cases (p.alive i)) [
    | inl t ↦ rw t (ground arith)
    | inr t ↦ rw t (ground arith)
  ]

  clear_from-generation :
      (left i j : ℕ) (p : Pool A)
      → (clear_from left i p).generations j ≡ (
          if p.alive j && (leb i j && ltb j (i + left))
          then inc32 (p.generations j)
          else p.generations j)
  unfolding clear_from
  clear_from-generation zero i j p = ground arith
  clear_from-generation (suc left) i j p =
      clear_from-generation left (i + 1) j (if p.alive i then free_slot i p else p)
      ∙ ground (arith, cleared i j p, cleared-generation i j p)

  create-generation : (a : A) (p : Pool A) (i : ℕ) → (create a p).1.generations i ≡ p.generations i
  unfolding create
  create-generation a p i = elim (Bool-cases (p.free_count == 0)) [ inl t ↦ rw t | inr t ↦ rw t ]

  destroy-generation :
      (h : PoolHandle) (p : Pool A) (i : ℕ)
      → p.generations i < 2 ^ 32
      → (destroy h p).1.generations i ≡ (p.generations i + frees i (destroys h) p) % 2 ^ 32
  unfolding frees destroy free_slot
  destroy-generation h p i b = elim (Bool-cases (is_valid p h)) [
    | inl t ↦ rw t (ground arith)
    | inr t ↦ rw t (ground arith)
  ]

  clear-generation :
      (p : Pool A) (i : ℕ)
      → Inv p
      → p.generations i < 2 ^ 32
      → (clear p).generations i ≡ (p.generations i + frees i clears p) % 2 ^ 32
  unfolding frees clear
  clear-generation p i v b = ground (arith, clear_from-generation p.capacity 0 i p, v.held i)

  step-generation :
      (c : Call A) (p : Pool A) (i : ℕ)
      → Inv p
      → p.generations i < 2 ^ 32
      → (step c p).generations i ≡ (p.generations i + frees i c p) % 2 ^ 32
  unfolding step frees
  step-generation (creates a) p i v b = create-generation a p i ∙ ground arith
  step-generation (destroys h) p i v b = destroy-generation h p i b
  step-generation clears p i v b = clear-generation p i v b

  run-generation :
      (cs : List (Call A)) (p : Pool A) (i : ℕ)
      → Inv p
      → p.generations i < 2 ^ 32
      → (run cs p).generations i ≡ (p.generations i + total_frees i cs p) % 2 ^ 32
  unfolding run total_frees
  run-generation [] p i v b = ground arith
  run-generation (c ∷ cs) p i v b = omega (
    arith,
    step-generation c p i v b,
    run-generation cs (step c p) i (step-Inv c p v) (omega (arith, step-generation c p i v b)),
  )

  freed_once :
      (p : Pool A) (h : PoolHandle) → is_valid p h ≡ true → frees h.index (destroys h) p ≡ 1
  unfolding frees
  freed_once p h t = rw t (ground arith)

  -- A handle that was destroyed is not valid again after any further calls, as long as they free
  -- its slot fewer than 2 ^ 32 - 1 times.
  pub stale_for_ever :
      (p : Pool A) (h : PoolHandle) (cs : List (Call A))
      → Inv p
      → p.generations h.index < 2 ^ 32
      → is_valid p h ≡ true
      → total_frees h.index cs (destroy h p).1 < 2 ^ 32 - 1
      → is_valid (run cs (destroy h p).1) h ≡ false
  stale_for_ever p h cs v b t few = elim (Bool-cases (is_valid (run cs (destroy h p).1) h)) [
    | inl again ↦
        let before = (is_valid_iff p h).0 t in
        let after = (is_valid_iff (run cs (destroy h p).1) h).0 again in
        absurd (
          omega (
            arith,
            before.3,
            after.3,
            destroy-generation h p h.index b,
            freed_once p h t,
            run-generation cs (destroy h p).1 h.index (destroy-Inv h p v)
                (omega (arith, destroy-generation h p h.index b)),
          ))
    | inr gone ↦ gone
  ]
