-- ===== src/Pools/Pool/Tests.antt =====
-- The theorems on the slot pool at concrete inputs, and runs of the pool.
use laige_cpp.Prelude.{
  ℕ, ◌-◌, ◌^◌, ◌<◌, ◌≡◌, ◌≢◌, refl, arith, true, false, if◌then◌else◌, some, none, [], ◌∷◌,
}
use laige_cpp.Result.{success, done, failed, invalid_argument}
use laige_cpp.Pools.Pool.{Pool, PoolHandle, init, is_valid, create, destroy, get}
use laige_cpp.Pools.Pool.Invariant.{Inv, create-Inv, destroy-Inv}
use laige_cpp.Pools.Pool.Start.{init-Inv}
use laige_cpp.Pools.Pool.Refine.{same, next_handle, get-create, get-destroy, create_wrapped}
use laige_cpp.Pools.Pool.History.{
  creates, clears, run, total_frees, frees, run-init-Inv, stale_for_ever,
}

-- A pool of two slots, with one element.
fresh : Pool ℕ
fresh = init 2

fresh-Inv : Inv fresh
unfolding fresh
fresh-Inv = init-Inv 2 (omega arith)

loaded : Pool ℕ
loaded = (create 7 fresh).1

loaded-Inv : Inv loaded
unfolding loaded
loaded-Inv = create-Inv 7 fresh fresh-Inv

abbrev first : PoolHandle
first = record { index = 1; generation = 1 }

-- The stack is filled in order, so the last slot is handed out first.
create_run : (create 7 fresh).0 ≡ success first
unfolding fresh init create
create_run = refl

first_valid : is_valid loaded first ≡ true
unfolding loaded fresh init create is_valid
first_valid = refl

create-Inv_example : Inv (create 7 fresh).1
create-Inv_example = create-Inv 7 fresh fresh-Inv

destroy-Inv_example : Inv (destroy first loaded).1
destroy-Inv_example = destroy-Inv first loaded loaded-Inv

run-init-Inv_example : Inv (run {A = ℕ} (creates 7 ∷ clears ∷ creates 8 ∷ []) (init 2))
run-init-Inv_example = run-init-Inv 2 (creates 7 ∷ clears ∷ creates 8 ∷ []) (omega arith)

fresh_room : fresh.in_use ≢ fresh.capacity
unfolding fresh init
fresh_room = omega arith

fresh_generation : (next_handle fresh).generation ≢ 0
unfolding fresh init next_handle
fresh_generation = omega arith

get-create_example :
    ((create 7 fresh).0 ≡ success (next_handle fresh))
    × (get (create 7 fresh).1 first
        ≡ (if same first (next_handle fresh) then some 7 else get fresh first))
    × (get fresh (next_handle fresh) ≡ none)
get-create_example = get-create 7 fresh first fresh-Inv fresh_room fresh_generation

get-destroy_example :
    (is_valid loaded first ≡ false → destroy first loaded ≡ (failed invalid_argument, loaded))
    × (is_valid loaded first ≡ true
        → ((destroy first loaded).0 ≡ done)
          × (get (destroy first loaded).1 first
              ≡ (if same first first then none else get loaded first)))
get-destroy_example = get-destroy loaded first first loaded-Inv

first_generation_fits : loaded.generations 1 < 2 ^ 32
unfolding loaded fresh init create
first_generation_fits = omega arith

few_frees : total_frees 1 (creates 9 ∷ []) (destroy first loaded).1 < 2 ^ 32 - 1
unfolding total_frees frees
few_frees = omega arith

stale_for_ever_example : is_valid (run (creates 9 ∷ []) (destroy first loaded).1) first ≡ false
stale_for_ever_example =
    stale_for_ever loaded first (creates 9 ∷ []) loaded-Inv first_generation_fits first_valid
      few_frees

-- A pool whose one slot has been freed 2 ^ 32 - 1 times.
abbrev worn : Pool ℕ
worn = record {
  capacity = 1;
  block = λ _. none;
  generations = λ _. 0;
  free_stack = λ _. 0;
  alive = λ _. false;
  free_count = 1;
  in_use = 0;
  peak_in_use = 1;
  total_created = 4294967295;
}

worn-Inv : Inv worn
worn-Inv = record {
  slots = record {
    bounded = omega arith;
    counted = omega arith;
    stacked = λ k h. (omega arith, refl);
    distinct = λ j k h l e. omega arith;
    raw = λ i e. refl;
    held = λ i e. cc;
  };
  using = omega arith;
  fits = omega arith;
  peak_fits = omega arith;
}

create_wrapped_example :
    ((create 7 worn).0 ≡ success (next_handle worn))
    × (get (create 7 worn).1 (next_handle worn) ≡ none)
    × (destroy (next_handle worn) (create 7 worn).1 ≡ (failed invalid_argument, (create 7 worn).1))
    × ((create 7 worn).1.in_use ≡ 1)
unfolding next_handle
create_wrapped_example = create_wrapped 7 worn worn-Inv (omega arith) refl
