-- ===== src/Tests/Tasks.antt =====
-- The lists, the scheduler and the table of the sample system.
use libtask.Base.{
  ℕ, ◌<◌, ◌-◌, ◌≢◌, ◌≡◌, refl, ◌⊎◌, suc, zero, [], ◌∷◌, true, false, arith, ◌==◌, get_or,
}
use libtask.Tasklist.{Ptr, nil, empty_list, addtask, deltask}
use libtask.Tasklist.Chain.{Holds, SameOutside}
use libtask.Tasklist.Append.{addtask-append}
use libtask.Tasklist.Delete.{deltask-remove}
use libtask.Sched.{
  Sys, ok, aborts, Next, runs, exits, taskswitch, taskyield_enter, taskexit_enter, retire,
  taskcreate,
}
use libtask.Sched.Table.Users.{weight, users}
use libtask.Sched.Table.Defs.{IsTable, Unlisted}
use libtask.Sched.Table.Create.{Created, taskcreate-Created}
use libtask.Sched.Table.Retire.{Retired, retire-Retired}
use libtask.Sched.Exit.{taskexit-Left, Left}
use libtask.Sched.Boot.{main, taskmainstart, taskstart_return, address_of, address_halves}
use libtask.Sched.Boot.Main.{Started, main-Started}
use libtask.Sched.Boot.Halves.{address_of-address_halves}
use libtask.Tests.Samples.{links, pair, pair-Holds, sys}

addtask-append_example :
    let (l', h') = addtask pair 4 links in
    Holds h' l' (2 ∷ 3 ∷ 4 ∷ []) × SameOutside (4 ∷ 2 ∷ 3 ∷ []) links h'
addtask-append_example = addtask-append links pair 4 (2 ∷ 3 ∷ []) (omega arith) pair-Holds

deltask-remove_example :
    let (l', h') = deltask pair 3 links in Holds h' l' (2 ∷ []) × SameOutside (2 ∷ []) links h'
deltask-remove_example = deltask-remove links pair 3 (2 ∷ []) [] (omega arith) pair-Holds

goes_on : Next → Sys
goes_on (runs v) = v
goes_on _ = sys

-- The sample system after task 1 has yielded, and after 2 and 3 have yielded too.
abbrev two_runs : Sys
unfolding goes_on
two_runs = goes_on (taskswitch (taskyield_enter sys))

abbrev three_runs : Sys
unfolding goes_on
three_runs = goes_on (taskswitch (taskyield_enter two_runs))

abbrev one_runs : Sys
unfolding goes_on
one_runs = goes_on (taskswitch (taskyield_enter three_runs))

-- Task 2 has called `taskexit`.
abbrev leaving : Sys
leaving = record sys { exiting = λ a. a == 2; running = 2 }

slots : (i : ℕ) → i < 4 → sys.slot (get_or sys.alltask i nil) ≡ i
slots zero h = refl
slots (suc zero) h = refl
slots (suc (suc zero)) h = refl
slots (suc (suc (suc zero))) h = refl
slots (suc (suc (suc (suc i)))) h = absurd (omega arith)

leaving-IsTable : IsTable leaving 0
unfolding users
leaving-IsTable = record { room = refl; fits = omega arith; slots = slots; counted = refl }

retire-Retired_example : Retired leaving (retire 2 leaving) 2 0
retire-Retired_example = retire-Retired leaving 2 0 refl (omega arith, refl) leaving-IsTable

sys-IsTable : IsTable sys 0
unfolding users
sys-IsTable = record { room = refl; fits = omega arith; slots = slots; counted = refl }

five_is_new : Unlisted sys 5
five_is_new zero h e = omega arith
five_is_new (suc zero) h e = omega arith
five_is_new (suc (suc zero)) h e = omega arith
five_is_new (suc (suc (suc zero))) h e = omega arith
five_is_new (suc (suc (suc (suc i)))) h e = absurd (omega arith)

taskcreate-Created_example : (u : Sys) × (taskcreate 5 true sys ≡ ok (5, u)) × Created sys u 5 0
taskcreate-Created_example = taskcreate-Created sys 5 0 (λ e. omega arith) five_is_new sys-IsTable

taskexit-Left_example :
    Left 9 1
      (2 ∷ 3 ∷ [])
      0
      (sys.taskcount - weight (sys.system 1))
      (taskswitch (taskexit_enter 9 sys))
taskexit-Left_example =
    taskexit-Left 9 sys (2 ∷ 3 ∷ []) 0 (omega arith, refl) sys-IsTable (omega arith) pair-Holds

main-Started_example :
    ((v : Sys) × (◌≢◌ {A = Ptr} 64 nil)
      × (true ≡ true)
      × (main 64 true ≡ ok (runs v))
      × Started 64 v
      × (taskswitch (taskstart_return (taskmainstart v)) ≡ exits 0))
    ⊎ (((◌≡◌ {A = Ptr} 64 nil) ⊎ (true ≡ false)) × (main 64 true ≡ aborts))
main-Started_example = main-Started 64 true

address_of-address_halves_example :
    address_of (address_halves 4160749568).0 (address_halves 4160749568).1 ≡ 4160749568
address_of-address_halves_example = address_of-address_halves 4160749568 (omega arith)

-- Only task 1 can run.
abbrev lonely : Sys
lonely = record sys { runqueue = empty_list }

next : Next → Sys
next (runs v) = v
next _ = sys

abbrev again : Sys
unfolding next
again = next (taskswitch (taskyield_enter lonely))
