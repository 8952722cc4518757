-- ===== src/Runtime/Drives/Idle.antt =====
-- One drive for each run, and no waiter left behind
-- (packages/sasori-core/src/sasori_core/runtime.py).
use sasori.Base.{
  ◌≡◌, refl, ◌∙◌, ℕ, Bool, Bool-cases, inl, inr, true, false, not, List, [], ◌∷◌, arith, filter,
  ◌==◌, nat_beq, ◌++◌, ◌+◌, if◌then◌else◌,
}
use sasori.Text.{Text, text_eq}
use sasori.Runtime.World.{World, Run}
use sasori.Runtime.Drives.{
  is_idle, is_active, waiting, wait_for_idle, entering, enter_drive, wake_if_idle, leave_drive,
  driving,
}

-- No run is driven twice.
unfoldable pub IsDistinct : List Text → Type 0
unfolding is_active
IsDistinct [] = Unit
IsDistinct (r ∷ runs) = (is_active r runs ≡ false) × IsDistinct runs

-- A step of the protocol, from whichever task makes it.
pub data DriveStep : Type 0 where
  waits : ℕ → DriveStep
  enters leaves : Text → DriveStep

unfoldable pub drive : DriveStep → World → World
unfolding wait_for_idle enter_drive leave_drive
drive (waits n) w = (wait_for_idle n w).1
drive (enters r) w = (enter_drive r w).1
drive (leaves r) w = leave_drive r w

unfoldable pub drives : List DriveStep → World → World
unfolding drive
drives [] w = w
drives (m ∷ ms) w = drives ms (drive m w)

pub record IsOrderly (w : World) : Type 0 where
  pub distinct : IsDistinct w.active_runs
  pub settled : w.active_runs ≡ [] → w.idle_waiters ≡ []

filter-inactive :
    (r : Text) (p : Text → Bool) (runs : List Text)
    → is_active r runs ≡ false
    → is_active r (filter p runs) ≡ false
unfolding is_active
filter-inactive r p [] h = refl
filter-inactive r p (q ∷ runs) h = ground (arith, filter-inactive r p runs)

filter-IsDistinct :
    (p : Text → Bool) (runs : List Text) → IsDistinct runs → IsDistinct (filter p runs)
unfolding IsDistinct
filter-IsDistinct p [] h = tt
filter-IsDistinct p (r ∷ runs) h = elim (Bool-cases (p r)) [
  | inl e ↦ rw e (filter-inactive r p runs h.0, filter-IsDistinct p runs h.1)
  | inr e ↦ rw e (filter-IsDistinct p runs h.1)
]

wake_if_idle-IsOrderly :
    (runs : List Text) (w : World) → IsDistinct runs → IsOrderly (wake_if_idle runs w)
unfolding IsDistinct
wake_if_idle-IsOrderly [] w h = record { distinct = tt; settled = λ e. refl }
wake_if_idle-IsOrderly (r ∷ runs) w h = record { distinct = h; settled = λ e. ground arith }

entering-IsOrderly :
    (r : Text) (w : World) (b : Bool)
    → is_active r w.active_runs ≡ b
    → IsOrderly w
    → IsOrderly (entering r w b).1
unfolding IsDistinct
entering-IsOrderly r w true e h = h
entering-IsOrderly r w false e h = record {
  distinct = (e, h.distinct);
  settled = λ e. ground arith;
}

waiting-IsOrderly :
    (n : ℕ) (w : World) (b : Bool) → is_idle w ≡ b → IsOrderly w → IsOrderly (waiting n w b).1
waiting-IsOrderly n w true e h = h
waiting-IsOrderly n w false e h = record { distinct = h.distinct; settled = λ q. ground arith }

drive-IsOrderly : (m : DriveStep) (w : World) → IsOrderly w → IsOrderly (drive m w)
unfolding drive wait_for_idle enter_drive leave_drive
drive-IsOrderly (waits n) w h = waiting-IsOrderly n w (is_idle w) refl h
drive-IsOrderly (enters r) w h = entering-IsOrderly r w (is_active r w.active_runs) refl h
drive-IsOrderly (leaves r) w h =
    wake_if_idle-IsOrderly (filter (λ q. not (q == r)) w.active_runs) w
      (filter-IsDistinct (λ q. not (q == r)) w.active_runs h.distinct)

drives-stays-IsOrderly : (ms : List DriveStep) (w : World) → IsOrderly w → IsOrderly (drives ms w)
unfolding drives
drives-stays-IsOrderly [] w h = h
drives-stays-IsOrderly (m ∷ ms) w h = drives-stays-IsOrderly ms (drive m w) (drive-IsOrderly m w h)

abbrev pub with_waiter : ℕ → List Text → List ℕ → List ℕ
with_waiter n [] rest = rest
with_waiter n (r ∷ runs) rest = n ∷ rest

-- The futures that came to wait on the way: of those who asked, the ones who found a drive.
unfoldable pub came_to_wait : List DriveStep → World → List ℕ
unfolding drive
came_to_wait [] w = []
came_to_wait (waits n ∷ ms) w =
    let rest = came_to_wait ms (drive (waits n) w) in with_waiter n w.active_runs rest
came_to_wait (enters r ∷ ms) w = came_to_wait ms (drive (enters r) w)
came_to_wait (leaves r ∷ ms) w = came_to_wait ms (drive (leaves r) w)

abbrev pub times : ℕ → List ℕ → ℕ
times n [] = 0
times n (m ∷ ms) = (if nat_beq m n then 1 else 0) + times n ms

times-append : (n : ℕ) (xs ys : List ℕ) → times n (xs ++ ys) ≡ times n xs + times n ys
times-append n [] ys = ground arith
times-append n (x ∷ xs) ys = ground (arith, times-append n xs ys)

-- How often a future waits or has its result.
abbrev pub kept : ℕ → World → ℕ
kept n w = times n w.idle_waiters + times n w.woken

wake_if_idle-kept : (n : ℕ) (runs : List Text) (w : World) → kept n (wake_if_idle runs w) ≡ kept n w
wake_if_idle-kept n [] w = ground (arith, times-append n w.woken w.idle_waiters)
wake_if_idle-kept n (r ∷ runs) w = refl

entering-kept : (n : ℕ) (r : Text) (w : World) (b : Bool) → kept n (entering r w b).1 ≡ kept n w
entering-kept n r w true = refl
entering-kept n r w false = refl

waiting-kept :
    (n m : ℕ) (w : World) (runs : List Text) (rest : List ℕ)
    → kept n (waiting m w (elim runs [ [] ↦ true | _ ∷ _ ↦ false ])).1 + times n rest
      ≡ kept n w + times n (with_waiter m runs rest)
waiting-kept n m w [] rest = refl
waiting-kept n m w (r ∷ runs) rest = ground arith

waits-kept :
    (n m : ℕ) (w : World) (rest : List ℕ)
    → kept n (drive (waits m) w) + times n rest
      ≡ kept n w + times n (with_waiter m w.active_runs rest)
unfolding drive wait_for_idle
waits-kept n m w rest = waiting-kept n m w w.active_runs rest

enters-kept : (n : ℕ) (r : Text) (w : World) → kept n (drive (enters r) w) ≡ kept n w
unfolding drive enter_drive
enters-kept n r w = entering-kept n r w (is_active r w.active_runs)

leaves-kept : (n : ℕ) (r : Text) (w : World) → kept n (drive (leaves r) w) ≡ kept n w
unfolding drive leave_drive
leaves-kept n r w = wake_if_idle-kept n (filter (λ q. not (q == r)) w.active_runs) w

drives-kept :
    (ms : List DriveStep) (w : World) (n : ℕ)
    → kept n (drives ms w) ≡ kept n w + times n (came_to_wait ms w)
unfolding drives came_to_wait
drives-kept [] w n = ground arith
drives-kept (waits m ∷ ms) w n =
    let rest = came_to_wait ms (drive (waits m) w) in
    drives-kept ms (drive (waits m) w) n ∙ waits-kept n m w rest
drives-kept (enters r ∷ ms) w n =
    ground (arith, drives-kept ms (drive (enters r) w) n, enters-kept n r w)
drives-kept (leaves r ∷ ms) w n =
    ground (arith, drives-kept ms (drive (leaves r) w) n, leaves-kept n r w)

-- From an orderly harness, whatever drives begin and end and whoever waits: no run is driven twice
-- at a time; where no run is driven nobody waits for that; and each future that waited at first or
-- came to wait on the way, and no other, is among those that wait or were woken, as many times.
pub drives-IsOrderly :
    (ms : List DriveStep) (w : World)
    → IsOrderly w
    → IsOrderly (drives ms w)
      × ((n : ℕ) → kept n (drives ms w) ≡ kept n w + times n (came_to_wait ms w))
drives-IsOrderly ms w h = (drives-stays-IsOrderly ms w h, drives-kept ms w)

filter-gone : (r : Text) (runs : List Text) → is_active r (filter (λ q. not (q == r)) runs) ≡ false
unfolding is_active
filter-gone r [] = refl
filter-gone r (q ∷ runs) = ground (arith, filter-gone r runs)

wake_if_idle-active : (runs : List Text) (w : World) → (wake_if_idle runs w).active_runs ≡ runs
wake_if_idle-active [] w = refl
wake_if_idle-active (r ∷ runs) w = refl

-- When the drive of another run ends, the run is not active, whatever the body does, and whether it
-- returns or raises.
pub driving-leaves :
    {A : Type 0} (r : Text) (body : Run A) (w : World)
    → is_active r w.active_runs ≡ false
    → is_active r (driving r body w).1.active_runs ≡ false
unfolding driving enter_drive leave_drive
driving-leaves r body w e =
    let v = (body (record w { active_runs = r ∷ w.active_runs })).1 in
    let gone = filter-gone r v.active_runs in
    ground (arith, gone, wake_if_idle-active (filter (λ q. not (q == r)) v.active_runs) v, e)
